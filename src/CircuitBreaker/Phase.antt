-- ===== src/CircuitBreaker/Phase.antt =====
-- What a circuit breaker promises: a machine of three phases that keeps no leftover counters.
use galay_utils.Prelude.{
  ℕ, ◌+◌, ◌-◌, Bool, true, false, ◌&&◌, List, [], ◌∷◌, ltb, leb, if◌then◌else◌,
}
use galay_utils.Prelude.Int.{ℤ, ◌-ℤ◌, leb_ℤ}
use galay_utils.CircuitBreaker.{CircuitBreakerConfig, Call, allow, success, failure, clear, force}

-- Consecutive failures; the time of the last failure; successes and probes in flight.
pub data Phase : Type 0 where
  closed : ℕ → Phase
  opened : ℤ → Phase
  half_open : ℕ → ℕ → Phase

module _ (config : CircuitBreakerConfig) (timeout : ℤ) where
  open config use {failure_threshold, success_threshold, half_open_max_requests}

  unfoldable pub may_pass : ℤ → Phase → Phase × Bool
  unfolding ◌-ℤ◌
  may_pass now (closed n) = (closed n, true)
  may_pass now (opened since) =
      if leb_ℤ since now && leb_ℤ timeout (now -ℤ since)
      then (half_open 0 1, true)
      else (opened since, false)
  may_pass now (half_open s k) =
      if ltb k half_open_max_requests then (half_open s (k + 1), true) else (half_open s k, false)

  unfoldable pub after_success : Phase → Phase
  after_success (closed n) = closed 0
  after_success (opened since) = opened since
  after_success (half_open s k) =
      if leb success_threshold (s + 1) then closed 0 else half_open (s + 1) (k - 1)

  unfoldable pub after_failure : ℤ → Phase → Phase
  after_failure now (closed n) =
      if leb failure_threshold (n + 1) then opened now else closed (n + 1)
  after_failure now (opened _) = opened now
  after_failure now (half_open _ _) = opened now

  unfoldable pub answers : Phase → List Call → List Bool
  answers p [] = []
  answers p (allow now ∷ calls) = let (p', passed) = may_pass now p in passed ∷ answers p' calls
  answers p (success ∷ calls) = answers (after_success p) calls
  answers p (failure now ∷ calls) = answers (after_failure now p) calls
  answers p (clear ∷ calls) = answers (closed 0) calls
  answers p (force now ∷ calls) = answers (opened now) calls
