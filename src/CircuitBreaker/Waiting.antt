-- ===== src/CircuitBreaker/Waiting.antt =====
-- Which requests an open or a half-open circuit breaker lets pass.
use galay_utils.Prelude.{
  ◌&&◌, Bool-cases, inl, inr, ◌≤◌, ◌≡◌, ◌↔◌, Bool, true, false, List, [], ◌∷◌, map, refl, arith,
  All,
}
use galay_utils.Prelude.Int.{leb_ℤ, ℤ, ◌-ℤ◌, ◌≤ℤ◌}
use galay_utils.CircuitBreaker.{opened, half_open, CircuitBreaker, allow_request, allow, run, after}
use galay_utils.CircuitBreaker.Invariant.{IsValid}

-- The reset timeout has run out at the time `now`.
abbrev pub IsDue : CircuitBreaker → ℤ → Type 0
IsDue b now =
    (b.last_failure_time_ns ≤ℤ now) × (b.reset_timeout_ns ≤ℤ now -ℤ b.last_failure_time_ns)

due : ℤ → CircuitBreaker → Bool
unfolding ◌-ℤ◌
due now b =
    leb_ℤ b.last_failure_time_ns now && leb_ℤ b.reset_timeout_ns (now -ℤ b.last_failure_time_ns)

due_iff : (now : ℤ) (b : CircuitBreaker) → (due now b ≡ true) ↔ IsDue b now
unfolding due
due_iff now b = (λ h. (ground arith, ground arith), λ h. ground arith)

not_due :
    (now : ℤ) {b : CircuitBreaker}
    → b.state ≡ opened
    → due now b ≡ false
    → allow_request now b ≡ (b, false)
unfolding allow_request due
not_due now {b} e h = ground arith

-- Once its timeout has run out, an open, valid breaker lets the request pass and is half open
-- with this one probe in flight and no success counted.
pub opened_passes :
    (now : ℤ) {b : CircuitBreaker}
    → IsValid b
    → b.state ≡ opened
    → IsDue b now
    → let (b', allowed) = allow_request now b in
      (allowed ≡ true)
      × (b'.state ≡ half_open)
      × (b'.half_open_in_flight ≡ 1)
      × (b'.success_count ≡ 0)
unfolding allow_request ◌-ℤ◌
opened_passes now {b} v e h = (ground arith, ground arith, ground arith, ground arith)

-- Until its timeout has run out an open breaker rejects every request and stays as it is.
pub opened_rejects :
    (nows : List ℤ) (b : CircuitBreaker)
    → b.state ≡ opened
    → All (λ now. ¬ IsDue b now) nows
    → (run b (map allow nows) ≡ map (λ _. false) nows) × (after b (map allow nows) ≡ b)
unfolding run after
opened_rejects [] b e h = (refl, refl)
opened_rejects (now ∷ nows) b e (early, h) =
    let refused : due now b ≡ false = elim (Bool-cases (due now b)) [
      | inl p ↦ absurd (early ((due_iff now b).0 p))
      | inr p ↦ p
    ] in
    let same = not_due now e refused in
    let (rest, same') = opened_rejects nows b e h in
    (ground (arith, same, rest), rw (same, after) same')

-- While as many probes are in flight as configured, a half-open breaker rejects every request,
-- whatever the time, and stays as it is: only a report, `reset` or `forceOpen` changes it.
pub saturated_rejects :
    (nows : List ℤ) (b : CircuitBreaker)
    → b.state ≡ half_open
    → b.config.half_open_max_requests ≤ b.half_open_in_flight
    → (run b (map allow nows) ≡ map (λ _. false) nows) × (after b (map allow nows) ≡ b)
unfolding run after
saturated_rejects [] b e h = (refl, refl)
saturated_rejects (now ∷ nows) b e h =
    let same : allow_request now b ≡ (b, false) = unfold allow_request in ground arith in
    let (rest, same') = saturated_rejects nows b e h in
    (ground (arith, same, rest), rw (same, after) same')
