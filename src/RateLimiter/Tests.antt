-- ===== src/RateLimiter/Tests.antt =====
-- The limiters at concrete inputs.
use galay_utils.Prelude.{◌*◌, ◌≤◌, ℕ, ◌+◌, ◌≡◌, refl, arith, List, [], ◌∷◌, true, false}
use galay_utils.RateLimiter.{acquire_semaphore, release_semaphore, init_window, probe, try_acquire}
use galay_utils.RateLimiter.Window.{answers, by_log, window_refines}
use galay_utils.RateLimiter.Semaphore.{Op, acquire, release}
use galay_utils.RateLimiter.Buckets.{TokenBucketLimiter, LeakyBucketLimiter}
use galay_utils.RateLimiter.Buckets.Bounds.{
  IsValid, Call, take_tokens, change_rate, change_capacity, tokens_bounded, pour, water_bounded,
  token_meter, leaky_meter,
}
use galay_utils.RateLimiter.Buckets.Bounds

program : Unit {0}
unfolding acquire_semaphore release_semaphore init_window probe try_acquire answers
program = tt

-- Two requests in any 10 ticks.
abbrev times : List ℕ
times = 100 ∷ 103 ∷ 108 ∷ 111 ∷ 112 ∷ 114 ∷ []

answers-times : answers (init_window 2 10) times ≡ true ∷ true ∷ false ∷ true ∷ false ∷ true ∷ []
unfolding program
answers-times = refl

window_refines_example : answers (init_window 2 10) times ≡ by_log 2 10 [] times
window_refines_example =
    window_refines 2 10 100 times (omega arith)
      (
        (omega arith, omega arith, omega arith),
        (
          (omega arith, omega arith, omega arith),
          (
            (omega arith, omega arith, omega arith),
            (
              (omega arith, omega arith, omega arith),
              (
                (omega arith, omega arith, omega arith),
                ((omega arith, omega arith, omega arith), tt),
              ),
            ),
          ),
        ),
      )
      (omega arith)

abbrev ops : List Op
ops = acquire 2 ∷ release 3 ∷ acquire 9 ∷ acquire 4 ∷ []

abbrev bucket : TokenBucketLimiter
bucket = record {
  rate_units = 5;
  capacity_units = 3_000_000;
  tokens = 3_000_000;
  last_refill_time = 100;
}

bucket-IsValid : IsValid bucket
bucket-IsValid = record { bounded = omega arith; fits = omega arith }

abbrev bucket_calls : List Call
bucket_calls =
    take_tokens 100 2 ∷ take_tokens 200 2 ∷ change_capacity 1 ∷ change_rate 300 300 7 ∷ []

tokens_bounded_example :
    let (end, granted, added) = Bounds.run ◌*◌ bucket_calls (token_meter bucket) bucket in
    IsValid end × (end.tokens + granted ≤ 3_000_000 + added)
tokens_bounded_example = tokens_bounded ◌*◌ bucket_calls bucket-IsValid

abbrev leaky : LeakyBucketLimiter
leaky = record { rate_units = 5; capacity_units = 3_000_000; water = 0; last_leak_time = 100 }

water_bounded_example :
    let (end, accepted, out) = pour ◌*◌ ((100, 2) ∷ (200, 2) ∷ []) (leaky_meter leaky) leaky in
    (end.water ≤ 3_000_000) × (0 + accepted ≤ 3_000_000 + out)
water_bounded_example = water_bounded ◌*◌ ((100, 2) ∷ (200, 2) ∷ []) leaky (omega arith)
