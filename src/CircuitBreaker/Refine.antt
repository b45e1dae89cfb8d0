-- ===== src/CircuitBreaker/Refine.antt =====
-- `BasicCircuitBreaker` answers as the machine of three phases.
use galay_utils.Prelude.{◌≡◌, refl, List, [], ◌∷◌, arith}
use galay_utils.Prelude.Int.{ℤ}
use galay_utils.CircuitBreaker.{
  CircuitState, CircuitBreaker, allow_request, on_success, on_failure, reset, force_open, Call,
  allow, success, failure, clear, force, run,
}
use galay_utils.CircuitBreaker.Phase.{Phase, may_pass, after_success, after_failure, answers}
use galay_utils.CircuitBreaker.Invariant.{
  IsValid, allow_request-IsValid, on_success-IsValid, on_failure-IsValid, reset-IsValid,
  force_open-IsValid,
}

-- The phase that the members stand for.
abbrev pub phase : CircuitBreaker → Phase
phase b = elim b.state [
  | CircuitState.closed ↦ Phase.closed b.failure_count
  | CircuitState.opened ↦ Phase.opened b.last_failure_time_ns
  | CircuitState.half_open ↦ Phase.half_open b.success_count b.half_open_in_flight
]

-- On a valid breaker `allowRequest` answers as `may_pass` does in the breaker's phase, and leaves
-- the breaker in the phase that `may_pass` leaves.
pub allow_request_refines :
    (now : ℤ) {b : CircuitBreaker}
    → IsValid b
    → let (b', allowed) = allow_request now b in
      (phase b', allowed) ≡ may_pass b.config b.reset_timeout_ns now (phase b)
unfolding allow_request may_pass
allow_request_refines now {b} v = ground (arith, v.failures, v.successes)

-- On a valid breaker `onSuccess` and `onFailure` move its phase as `after_success` and
-- `after_failure` do.
pub record_refines :
    (now : ℤ) {b : CircuitBreaker}
    → IsValid b
    → (phase (on_success b) ≡ after_success b.config b.reset_timeout_ns (phase b))
      × (phase (on_failure now b) ≡ after_failure b.config b.reset_timeout_ns now (phase b))
unfolding on_success on_failure after_success after_failure
record_refines now {b} v =
    (ground (arith, v.failures, v.successes), ground (arith, v.failures, v.successes))

config-allow :
    (now : ℤ) (b : CircuitBreaker)
    → ((allow_request now b).0.config ≡ b.config)
      × ((allow_request now b).0.reset_timeout_ns ≡ b.reset_timeout_ns)
unfolding allow_request
config-allow now b = ground arith

config-success :
    (b : CircuitBreaker)
    → ((on_success b).config ≡ b.config) × ((on_success b).reset_timeout_ns ≡ b.reset_timeout_ns)
unfolding on_success
config-success b = ground arith

config-failure :
    (now : ℤ) (b : CircuitBreaker)
    → ((on_failure now b).config ≡ b.config)
      × ((on_failure now b).reset_timeout_ns ≡ b.reset_timeout_ns)
unfolding on_failure
config-failure now b = ground arith

-- No sequence of calls tells a valid breaker from the machine of three phases: `allowRequest`
-- answers the same every time.
pub run_refines :
    (calls : List Call) {b : CircuitBreaker}
    → IsValid b
    → run b calls ≡ answers b.config b.reset_timeout_ns (phase b) calls
unfolding run answers reset force_open
run_refines [] v = refl
run_refines (allow now ∷ calls) {b} v = rw (
  run_refines calls (allow_request-IsValid now v),
  ← allow_request_refines now v,
  (config-allow now b).0,
  (config-allow now b).1,
)
run_refines (success ∷ calls) {b} v = rw (
  run_refines calls (on_success-IsValid v),
  (record_refines b.last_failure_time_ns v).0,
  (config-success b).0,
  (config-success b).1,
)
run_refines (failure now ∷ calls) {b} v = rw (
  run_refines calls (on_failure-IsValid now v),
  (record_refines now v).1,
  (config-failure now b).0,
  (config-failure now b).1,
)
run_refines (clear ∷ calls) {b} v = rw (run_refines calls (reset-IsValid v), reset)
run_refines (force now ∷ calls) {b} v =
    rw (run_refines calls (force_open-IsValid now v), force_open)
