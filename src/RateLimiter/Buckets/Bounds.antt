-- ===== src/RateLimiter/Buckets/Bounds.antt =====
-- The buckets: bounds, and what they grant at most.
use galay_utils.Prelude.{
  ℕ, ◌+◌, ◌-◌, ◌≤◌, ◌≡◌, arith, List, [], ◌∷◌, leb, if◌then◌else◌, ◌==◌, ◌||◌, ◌&&◌, not, ap, refl,
  ◌∙◌,
}
use galay_utils.RateLimiter.Buckets.{
  TokenBucketLimiter, LeakyBucketLimiter, max_units, to_units, saturating_add, refill,
  acquire_tokens, set_rate, set_capacity, leak, acquire_leaky,
}

pub data Call : Type 0 where
  take_tokens : ℕ → ℕ → Call
  change_rate : ℕ → ℕ → ℕ → Call
  change_capacity : ℕ → Call

pub record IsValid (b : TokenBucketLimiter) : Type 0 where
  pub bounded : b.tokens ≤ b.capacity_units
  pub fits : b.capacity_units ≤ max_units

to_units_le : (n : ℕ) → to_units n ≤ max_units
unfolding to_units
to_units_le n = ground arith

set_capacity-IsValid :
    (capacity : ℕ) {b : TokenBucketLimiter}
    → IsValid b
    → IsValid (set_capacity capacity b) × ((set_capacity capacity b).tokens ≤ b.tokens)
unfolding set_capacity
set_capacity-IsValid capacity {b} v = (ground (arith, to_units_le capacity), ground arith)

-- A clock of its own beside a bucket: the time up to which elapsed time has been counted, and the rate.
pub record Meter : Type 0 where
  pub since : ℕ
  pub rate : ℕ

abbrev pub token_meter : TokenBucketLimiter → Meter
token_meter b = record { since = b.last_refill_time; rate = b.rate_units }

abbrev pub leaky_meter : LeakyBucketLimiter → Meter
leaky_meter b = record { since = b.last_leak_time; rate = b.rate_units }

module _ (scaled : ℕ → ℕ → ℕ) where
  -- The units for the time from where the meter stands until now.
  abbrev pub due : ℕ → Meter → ℕ
  due now m = if leb now m.since || m.rate == 0 then 0 else scaled (now - m.since) m.rate

  -- The meter once that time is counted: time that gave no unit yet is left for later.
  abbrev pub tick : ℕ → Meter → Meter
  tick now m =
      if leb now m.since || (not (m.rate == 0) && scaled (now - m.since) m.rate == 0)
      then m
      else record m { since = now }

  -- The bucket after the calls, the units that they were granted, and those that became due by a
  -- meter that never looks at the bucket.
  pub run : List Call → Meter → TokenBucketLimiter → TokenBucketLimiter × ℕ × ℕ
  run [] m b = (b, 0, 0)
  run (take_tokens now n ∷ calls) m b =
      let (b', ok) = acquire_tokens scaled now n b in
      let (end, granted, added) = run calls (tick now m) b' in
      (end, (if ok then to_units n else 0) + granted, due now m + added)
  run (change_rate now later rate ∷ calls) m b =
      let changed : Meter = record { since = later; rate = rate } in
      let (end, granted, added) = run calls changed (set_rate scaled now later rate b) in
      (end, granted, due now m + added)
  run (change_capacity capacity ∷ calls) m b = run calls m (set_capacity capacity b)

  record Refilled (now : ℕ) (b b' : TokenBucketLimiter) : Type 0 where
    valid : IsValid b'
    gained : b'.tokens ≤ b.tokens + due now (token_meter b)
    counted : tick now (token_meter b) ≡ token_meter b'

  refill-Refilled :
      (now : ℕ) {b : TokenBucketLimiter} → IsValid b → Refilled now b (refill scaled now b)
  unfolding refill saturating_add
  refill-Refilled now {b} v = record {
    valid = ground arith;
    gained = ground arith;
    counted = ground arith;
  }

  set_rate-le :
      (now later rate : ℕ) {b : TokenBucketLimiter}
      → IsValid b
      → let b' = set_rate scaled now later rate b in
        IsValid b' × (b'.tokens ≤ b.tokens + due now (token_meter b))
  unfolding set_rate
  set_rate-le now later rate v =
      let r = refill-Refilled now v in
      (record { bounded = r.valid.bounded; fits = r.valid.fits }, r.gained)

  acquire_tokens-le :
      (now n : ℕ) {b : TokenBucketLimiter}
      → IsValid b
      → let (b', ok) = acquire_tokens scaled now n b in
        IsValid b'
        × (b'.tokens + (if ok then to_units n else 0) ≤ b.tokens + due now (token_meter b))
        × (tick now (token_meter b) ≡ token_meter b')
  unfolding acquire_tokens
  acquire_tokens-le now n {b} v =
      let r = refill-Refilled now v in
      (ground (arith, r.valid), ground (arith, r.gained), r.counted ∙ ground arith)

  tokens_metered :
      (calls : List Call) (m : Meter) {b : TokenBucketLimiter}
      → IsValid b
      → m ≡ token_meter b
      → let (end, granted, added) = run calls m b in
        IsValid end × (end.tokens + granted ≤ b.tokens + added)
  unfolding run
  tokens_metered [] m v e = (v, omega arith)
  tokens_metered (take_tokens now n ∷ calls) m v e =
      let (valid, taken, counted) = acquire_tokens-le now n v in
      let same = ap (tick now) e in
      let (last, rest) = tokens_metered calls (tick now m) valid (same ∙ counted) in
      let due_eq = ap (due now) e in (last, omega (arith, rest, taken, due_eq))
  tokens_metered (change_rate now later rate ∷ calls) m {b} v e =
      let (valid, gained) = set_rate-le now later rate v in
      let changed : Meter = record { since = later; rate = rate } in
      let kept : changed ≡ token_meter (set_rate scaled now later rate b) =
        unfold set_rate in refl in
      let (last, rest) = tokens_metered calls changed valid kept in
      let due_eq = ap (due now) e in (last, omega (arith, rest, gained, due_eq))
  tokens_metered (change_capacity capacity ∷ calls) m {b} v e =
      let changed = set_capacity-IsValid capacity v in
      let kept : token_meter b ≡ token_meter (set_capacity capacity b) =
        unfold set_capacity in refl in
      let (last, rest) = tokens_metered calls m changed.0 (e ∙ kept) in
      (last, omega (arith, rest, changed.1))

  -- Whatever calls come, a valid token bucket never holds more than its capacity, and what it
  -- granted and holds at the end is at most what it held at first and what a meter beside it, which
  -- starts at its last refill and counts no stretch of time twice, makes due for the calls' times.
  pub tokens_bounded :
      (calls : List Call) {b : TokenBucketLimiter}
      → IsValid b
      → let (end, granted, added) = run calls (token_meter b) b in
        IsValid end × (end.tokens + granted ≤ b.tokens + added)
  tokens_bounded calls {b} v = tokens_metered calls (token_meter b) v refl

  -- The leaky bucket after calls at these times for these amounts, the units that it accepted, and
  -- those that it could leak by the meter.
  pub pour : List (ℕ × ℕ) → Meter → LeakyBucketLimiter → LeakyBucketLimiter × ℕ × ℕ
  pour [] m b = (b, 0, 0)
  pour ((now, n) ∷ calls) m b =
      let (b', ok) = acquire_leaky scaled now n b in
      let (end, accepted, out) = pour calls (tick now m) b' in
      (end, (if ok then to_units n else 0) + accepted, due now m + out)

  acquire_leaky-le :
      (now n : ℕ) (b : LeakyBucketLimiter)
      → b.water ≤ b.capacity_units
      → let (b', ok) = acquire_leaky scaled now n b in
        (b'.water ≤ b'.capacity_units)
        × (b'.capacity_units ≡ b.capacity_units)
        × (b.water + (if ok then to_units n else 0) ≤ b'.water + due now (leaky_meter b))
  unfolding acquire_leaky leak
  acquire_leaky-le now n b h = (ground arith, ground arith, ground arith)

  acquire_leaky-counted :
      (now n : ℕ) (b : LeakyBucketLimiter)
      → tick now (leaky_meter b) ≡ leaky_meter (acquire_leaky scaled now n b).0
  unfolding acquire_leaky leak
  acquire_leaky-counted now n b = ground arith

  water_metered :
      (calls : List (ℕ × ℕ)) (m : Meter) (b : LeakyBucketLimiter)
      → b.water ≤ b.capacity_units
      → m ≡ leaky_meter b
      → let (end, accepted, out) = pour calls m b in
        (end.water ≤ b.capacity_units) × (b.water + accepted ≤ b.capacity_units + out)
  unfolding pour
  water_metered [] m b h e = (h, omega arith)
  water_metered ((now, n) ∷ calls) m b h e =
      let (within, same, poured) = acquire_leaky-le now n b h in
      let counted = ap (tick now) e ∙ acquire_leaky-counted now n b in
      let (last, rest) =
        water_metered calls (tick now m) (acquire_leaky scaled now n b).0 within counted in
      let due_eq = ap (due now) e in
      (omega (arith, last, same), omega (arith, rest, poured, same, due_eq))

  -- Whatever calls come, a leaky bucket never holds more than its capacity, so that it accepts at
  -- most its capacity and what it could leak by a meter beside it, which starts at its last leak and
  -- counts no stretch of time twice.
  pub water_bounded :
      (calls : List (ℕ × ℕ)) (b : LeakyBucketLimiter)
      → b.water ≤ b.capacity_units
      → let (end, accepted, out) = pour calls (leaky_meter b) b in
        (end.water ≤ b.capacity_units) × (b.water + accepted ≤ b.capacity_units + out)
  water_bounded calls b h = water_metered calls (leaky_meter b) b h refl
