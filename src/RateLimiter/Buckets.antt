-- ===== src/RateLimiter/Buckets.antt =====
-- galay-utils/tool/rate_limiter.hpp: `TokenBucketLimiter` and `LeakyBucketLimiter`, one call at a
-- time. Amounts of type `int64_t` never fall below 0 here and are natural numbers; times are as in
-- the sliding window. `scaled` stands for the floating-point product of elapsed ticks and rate, cut
-- off at the greatest `int64_t`.
pub mod Bounds
use galay_utils.Prelude.{
  ℕ, ◌+◌, ◌-◌, ◌*◌, ◌/◌, ◌^◌, Bool, true, false, ltb, leb, ◌==◌, if◌then◌else◌, min, ◌&&◌,
}

abbrev pub precision : ℕ
precision = 1_000_000

abbrev pub max_units : ℕ
max_units = 2 ^ 63 - 1

-- `toRateLimiterUnits(size_t)`
pub to_units : ℕ → ℕ
to_units value = if ltb (max_units / precision) value then max_units else value * precision

pub from_units : ℕ → ℕ
from_units units = units / precision

pub saturating_add : ℕ → ℕ → ℕ
saturating_add lhs rhs = if ltb 0 rhs && ltb (max_units - rhs) lhs then max_units else lhs + rhs

pub record TokenBucketLimiter : Type 0 where
  pub rate_units : ℕ
  pub capacity_units : ℕ
  pub tokens : ℕ
  pub last_refill_time : ℕ

pub init_token_bucket : ℕ → ℕ → ℕ → TokenBucketLimiter
unfolding to_units
init_token_bucket rate_units capacity now = record {
  rate_units = rate_units;
  capacity_units = to_units capacity;
  tokens = to_units capacity;
  last_refill_time = now;
}

pub record LeakyBucketLimiter : Type 0 where
  pub rate_units : ℕ
  pub capacity_units : ℕ
  pub water : ℕ
  pub last_leak_time : ℕ

pub init_leaky_bucket : ℕ → ℕ → ℕ → LeakyBucketLimiter
unfolding to_units
init_leaky_bucket rate_units capacity now = record {
  rate_units = rate_units;
  capacity_units = to_units capacity;
  water = 0;
  last_leak_time = now;
}

module _ (scaled : ℕ → ℕ → ℕ) where
  pub refill : ℕ → TokenBucketLimiter → TokenBucketLimiter
  unfolding saturating_add
  refill now b =
      let tokens_to_add = scaled (now - b.last_refill_time) b.rate_units in
      let desired = min b.capacity_units (saturating_add b.tokens tokens_to_add) in
      if leb now b.last_refill_time
      then b
      else if b.rate_units == 0
      then record b { last_refill_time = now }
      else if tokens_to_add == 0
      then b
      else record b { last_refill_time = now; tokens = desired }

  pub acquire_tokens : ℕ → ℕ → TokenBucketLimiter → TokenBucketLimiter × Bool
  unfolding refill to_units
  acquire_tokens now tokens b =
      let refilled = refill now b in
      let needed = to_units tokens in
      if needed == 0
      then (refilled, true)
      else if leb needed refilled.tokens
      then (record refilled { tokens = refilled.tokens - needed }, true)
      else (refilled, false)

  -- The clock is read twice.
  pub set_rate : ℕ → ℕ → ℕ → TokenBucketLimiter → TokenBucketLimiter
  unfolding refill
  set_rate now later rate_units b = record (refill now b) {
    rate_units = rate_units;
    last_refill_time = later;
  }

  pub leak : ℕ → LeakyBucketLimiter → LeakyBucketLimiter
  leak now b =
      let leaked = scaled (now - b.last_leak_time) b.rate_units in
      if leb now b.last_leak_time
      then b
      else if b.rate_units == 0
      then record b { last_leak_time = now }
      else if leaked == 0
      then b
      else record b { last_leak_time = now; water = b.water - leaked }

  pub acquire_leaky : ℕ → ℕ → LeakyBucketLimiter → LeakyBucketLimiter × Bool
  unfolding leak to_units
  acquire_leaky now amount b =
      let leaked = leak now b in
      let requested = to_units amount in
      let max_water = leaked.capacity_units in
      if requested == 0
      then (leaked, true)
      else if leb leaked.water max_water && leb requested (max_water - leaked.water)
      then (record leaked { water = leaked.water + requested }, true)
      else (leaked, false)

pub set_capacity : ℕ → TokenBucketLimiter → TokenBucketLimiter
unfolding to_units
set_capacity capacity b =
    let max_tokens = to_units capacity in
    record b { capacity_units = max_tokens; tokens = min b.tokens max_tokens }
