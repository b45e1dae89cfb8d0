-- ===== src/CircuitBreaker/Invariant.antt =====
-- The well-formedness of a circuit breaker, and that every method keeps it.
use galay_utils.Prelude.{List, [], ◌∷◌, ◌^◌, ◌≤◌, ◌<◌, ◌≡◌, arith}
use galay_utils.Prelude.Int.{ℤ}
use galay_utils.CircuitBreaker.{
  closed, half_open, CircuitBreakerConfig, CircuitBreaker, init, Call, allow, success, failure,
  clear, force, after, allow_request, on_success, on_failure, reset, force_open,
}

-- What `normalizeConfig` gives for fields of type `size_t`.
pub record IsNormal (c : CircuitBreakerConfig) : Type 0 where
  pub failures_pos : 1 ≤ c.failure_threshold
  pub successes_pos : 1 ≤ c.success_threshold
  pub probes_pos : 1 ≤ c.half_open_max_requests
  pub failures_fit : c.failure_threshold < 2 ^ 64
  pub successes_fit : c.success_threshold < 2 ^ 64

pub record IsValid (b : CircuitBreaker) : Type 0 where
  pub normal : IsNormal b.config
  pub probes : b.half_open_in_flight ≤ b.config.half_open_max_requests
  pub failures : b.state ≡ closed → b.failure_count < b.config.failure_threshold
  pub successes : b.state ≡ half_open → b.success_count < b.config.success_threshold

pub init-IsValid :
    (c : CircuitBreakerConfig)
    → c.failure_threshold < 2 ^ 64
    → c.success_threshold < 2 ^ 64
    → IsValid (init c)
unfolding init
init-IsValid c hf hs = ground arith

pub allow_request-IsValid :
    (now : ℤ) {b : CircuitBreaker} → IsValid b → IsValid (allow_request now b).0
unfolding allow_request
allow_request-IsValid now {b} v = ground (arith, v.failures, v.successes)

pub on_success-IsValid : {b : CircuitBreaker} → IsValid b → IsValid (on_success b)
unfolding on_success
on_success-IsValid {b} v = ground (arith, v.failures, v.successes)

pub on_failure-IsValid : (now : ℤ) {b : CircuitBreaker} → IsValid b → IsValid (on_failure now b)
unfolding on_failure
on_failure-IsValid now {b} v = ground (arith, v.failures, v.successes)

pub reset-IsValid : {b : CircuitBreaker} → IsValid b → IsValid (reset b)
unfolding reset
reset-IsValid {b} v = ground arith

pub force_open-IsValid : (now : ℤ) {b : CircuitBreaker} → IsValid b → IsValid (force_open now b)
unfolding force_open
force_open-IsValid now {b} v = ground arith

-- Every sequence of calls keeps the invariant: never more probes in flight than configured, while
-- closed fewer counted failures than the threshold, while half open fewer counted successes.
pub after-IsValid : (calls : List Call) {b : CircuitBreaker} → IsValid b → IsValid (after b calls)
unfolding after
after-IsValid [] v = v
after-IsValid (allow now ∷ calls) v = after-IsValid calls (allow_request-IsValid now v)
after-IsValid (success ∷ calls) v = after-IsValid calls (on_success-IsValid v)
after-IsValid (failure now ∷ calls) v = after-IsValid calls (on_failure-IsValid now v)
after-IsValid (clear ∷ calls) v = after-IsValid calls (reset-IsValid v)
after-IsValid (force now ∷ calls) v = after-IsValid calls (force_open-IsValid now v)
