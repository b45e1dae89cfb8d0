-- ===== src/CircuitBreaker/Tests.antt =====
-- Runs of a circuit breaker on concrete calls, and its theorems at them.
use galay_utils.Prelude.{ℕ, ◌≡◌, refl, true, false, List, [], ◌∷◌, arith}
use galay_utils.Prelude.Int.{ℤ, pos}
use galay_utils.CircuitBreaker.{
  closed, opened, half_open, CircuitBreakerConfig, CircuitBreaker, init, allow_request, on_success,
  on_failure, reset, force_open, Expected, value, unexpected, execute, execute_with_fallback, Call,
  allow, success, failure, run, after,
}
use galay_utils.CircuitBreaker.Phase.{answers}
use galay_utils.CircuitBreaker.Invariant.{IsValid, after-IsValid}
use galay_utils.CircuitBreaker.Refine.{phase, run_refines}
use galay_utils.CircuitBreaker.Counting.{failures, failures_trip, good_probes, probes_recover}

program : Unit {0}
unfolding init allow_request on_success on_failure reset force_open run after execute
    execute_with_fallback
program = tt

-- Opens at two failures, closes at two successes, one probe at a time, after one second.
abbrev config : CircuitBreakerConfig
config = record {
  failure_threshold = 2;
  success_threshold = 2;
  half_open_max_requests = 1;
  reset_timeout = pos 1;
}

abbrev fresh : CircuitBreaker
fresh = record {
  config = config;
  reset_timeout_ns = pos 1_000_000_000;
  state = closed;
  failure_count = 0;
  success_count = 0;
  half_open_in_flight = 0;
  last_failure_time_ns = pos 0;
}

abbrev tripped : CircuitBreaker
tripped = record fresh { state = opened; failure_count = 2; last_failure_time_ns = pos 7 }

abbrev probing : CircuitBreaker
probing = record fresh { state = half_open; half_open_in_flight = 1; last_failure_time_ns = pos 7 }

init-fresh : init config ≡ fresh
unfolding program
init-fresh = refl

abbrev later : ℤ
later = pos 1_000_000_007

abbrev calls : List Call
calls =
    failure (pos 3)
    ∷ allow (pos 5)
    ∷ failure (pos 7)
    ∷ allow (pos 8)
    ∷ allow later
    ∷ allow later
    ∷ success
    ∷ allow later
    ∷ success
    ∷ allow later
    ∷ []

run-fresh : run fresh calls ≡ true ∷ false ∷ true ∷ false ∷ true ∷ true ∷ []
unfolding program
run-fresh = refl

fresh-IsValid : IsValid fresh
fresh-IsValid = ground arith

tripped-IsValid : IsValid tripped
tripped-IsValid = ground arith

probing-IsValid : IsValid probing
probing-IsValid = ground arith

after-IsValid_example : IsValid (after fresh calls)
after-IsValid_example = after-IsValid calls fresh-IsValid

run_refines_example : run fresh calls ≡ answers config (pos 1_000_000_000) (phase fresh) calls
run_refines_example = run_refines calls fresh-IsValid

failures_trip_example : (after fresh (failures (pos 3 ∷ pos 7 ∷ []))).state ≡ opened
failures_trip_example = failures_trip (pos 3 ∷ pos 7 ∷ []) fresh-IsValid refl

-- The reset timeout has let one probe in, which has been reported.
abbrev resting : CircuitBreaker
resting = record probing { half_open_in_flight = 0; success_count = 1 }

resting-IsValid : IsValid resting
resting-IsValid = ground arith

probes_recover_example :
    (run resting (good_probes (later ∷ later ∷ [])) ≡ true ∷ true ∷ [])
    × ((after resting (good_probes (later ∷ later ∷ []))).state ≡ closed)
probes_recover_example = probes_recover (later ∷ later ∷ []) resting-IsValid refl (omega arith)

-- A world that counts its calls.
abbrev works : ℕ → Expected ℕ ℕ × ℕ
works w = (value 5, 1)

abbrev fails : ℕ → Expected ℕ ℕ × ℕ
fails w = (unexpected 6, 1)
