-- ===== src/CircuitBreaker/Execute.antt =====
-- `execute` and `executeWithFallback`: who is called, what is returned, and what is recorded.
use galay_utils.Prelude.{◌≤◌, ◌≡◌, refl, true, false, arith}
use galay_utils.Prelude.Int.{ℤ}
use galay_utils.CircuitBreaker.{
  CircuitBreaker, allow_request, record_result, on_success, on_failure, Expected, value, unexpected,
  execute, execute_with_fallback,
}
use galay_utils.CircuitBreaker.Invariant.{
  IsValid, allow_request-IsValid, on_success-IsValid, on_failure-IsValid,
}

refusal_keeps :
    (now : ℤ) {b : CircuitBreaker}
    → IsValid b
    → (allow_request now b).1 ≡ false
    → (allow_request now b).0 ≡ b
unfolding allow_request
refusal_keeps now {b} v e = ground arith

-- A success and a failure alike give back the probe that an admission took.
report_releases :
    (asked answered : ℤ) {b : CircuitBreaker}
    → IsValid b
    → (allow_request asked b).1 ≡ true
    → ((on_success (allow_request asked b).0).half_open_in_flight ≤ b.half_open_in_flight)
      × ((on_failure answered (allow_request asked b).0).half_open_in_flight
          ≤ b.half_open_in_flight)
unfolding allow_request on_success on_failure
report_releases asked answered {b} v e = (ground arith, ground arith)

record_result-IsValid :
    {V E : Type 0} (asked answered : ℤ) {b : CircuitBreaker} (r : Expected V E)
    → IsValid b
    → (allow_request asked b).1 ≡ true
    → let b' = record_result answered (allow_request asked b).0 r in
      IsValid b' × (b'.half_open_in_flight ≤ b.half_open_in_flight)
record_result-IsValid asked answered (value x) v e =
    (on_success-IsValid (allow_request-IsValid asked v), (report_releases asked answered v e).0)
record_result-IsValid asked answered (unexpected x) v e = (
  on_failure-IsValid answered (allow_request-IsValid asked v),
  (report_releases asked answered v e).1,
)

module _ {W V E : Type 0} (asked answered : ℤ) {b : CircuitBreaker} (v : IsValid b) (w : W) where
  module _ (open_error : E) (f : W → Expected V E × W) where
    -- A valid breaker that does not admit the request makes `execute` answer with the error `Open`,
    -- without a run of `f` and without a change of the breaker.
    pub execute_rejected :
        (allow_request asked b).1 ≡ false
        → execute open_error f asked answered b w ≡ (unexpected open_error, b, w)
    unfolding execute
    execute_rejected e = rw (e, refusal_keeps asked v e)

    -- A valid breaker that admits the request makes `execute` run `f` once and return its result;
    -- afterwards the breaker is valid, with no more probes in flight than before the call.
    pub execute_admitted :
        (allow_request asked b).1 ≡ true
        → let (result, b', w') = execute open_error f asked answered b w in
          ((result, w') ≡ f w) × IsValid b' × (b'.half_open_in_flight ≤ b.half_open_in_flight)
    unfolding execute
    execute_admitted e =
        let (valid, fewer) = record_result-IsValid asked answered (f w).0 v e in
        rw e (refl, valid, fewer)

  module _ (f fallback : W → Expected V E × W) where
    -- A valid breaker that does not admit the request makes `executeWithFallback` run the fallback
    -- alone, and stays as it is.
    pub fallback_rejected :
        (allow_request asked b).1 ≡ false
        → execute_with_fallback f fallback asked answered b w ≡ ((fallback w).0, b, (fallback w).1)
    unfolding execute_with_fallback
    fallback_rejected e = rw (e, refusal_keeps asked v e)

    -- When `f` is admitted and succeeds, `executeWithFallback` returns its value and does not run the
    -- fallback; the breaker is valid, with no more probes in flight than before.
    pub fallback_unused :
        (x : V)
        → (allow_request asked b).1 ≡ true
        → (f w).0 ≡ value x
        → let (result, b', w') = execute_with_fallback f fallback asked answered b w in
          (result ≡ value x)
          × (w' ≡ (f w).1)
          × IsValid b'
          × (b'.half_open_in_flight ≤ b.half_open_in_flight)
    unfolding execute_with_fallback
    fallback_unused x e s =
        let (valid, fewer) = record_result-IsValid {V = V} {E = E} asked answered (value x) v e in
        rw (e, s) (refl, refl, valid, fewer)

    -- When `f` is admitted and fails, `executeWithFallback` runs the fallback in the world that `f`
    -- left and returns its result; the breaker is valid, with no more probes in flight than before.
    pub fallback_used :
        (x : E)
        → (allow_request asked b).1 ≡ true
        → (f w).0 ≡ unexpected x
        → let (result, b', w') = execute_with_fallback f fallback asked answered b w in
          ((result, w') ≡ fallback (f w).1)
          × IsValid b'
          × (b'.half_open_in_flight ≤ b.half_open_in_flight)
    unfolding execute_with_fallback
    fallback_used x e s =
        let (valid, fewer) =
          record_result-IsValid {V = V} {E = E} asked answered (unexpected x) v e in
        rw (e, s) (refl, valid, fewer)
