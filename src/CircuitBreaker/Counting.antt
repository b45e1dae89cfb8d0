-- ===== src/CircuitBreaker/Counting.antt =====
-- How many reports move a circuit breaker from one state to the next, and who passes meanwhile.
use galay_utils.Prelude.{
  dec_lt, ltb, if◌then◌else◌, ◌+◌, ◌≤◌, ◌<◌, ◌≡◌, true, List, [], ◌∷◌, map, refl, arith, length,
}
use galay_utils.Prelude.Int.{ℤ}
use galay_utils.CircuitBreaker.{
  CircuitState, closed, opened, half_open, CircuitBreaker, allow_request, on_success, on_failure,
  Call, allow, success, failure, run, after,
}
use galay_utils.CircuitBreaker.Invariant.{
  IsValid, on_failure-IsValid, allow_request-IsValid, on_success-IsValid,
}

fail-opened : (now : ℤ) (b : CircuitBreaker) → b.state ≡ opened → (on_failure now b).state ≡ opened
unfolding on_failure
fail-opened now b e = ground arith

fail-closed :
    (now : ℤ) {b : CircuitBreaker}
    → IsValid b
    → b.state ≡ closed
    → b.failure_count + 1 < b.config.failure_threshold
    → ((on_failure now b).state ≡ closed)
      × ((on_failure now b).failure_count ≡ b.failure_count + 1)
      × ((on_failure now b).config ≡ b.config)
unfolding on_failure
fail-closed now {b} v e h = (ground arith, ground arith, ground arith)

fail_trips :
    (now : ℤ) {b : CircuitBreaker}
    → IsValid b
    → b.state ≡ closed
    → b.config.failure_threshold ≤ b.failure_count + 1
    → (on_failure now b).state ≡ opened
unfolding on_failure
fail_trips now {b} v e h = ground (arith, v.failures)

abbrev pub failures : List ℤ → List Call
failures = map failure

failures-opened :
    (nows : List ℤ) (b : CircuitBreaker)
    → b.state ≡ opened
    → (after b (failures nows)).state ≡ opened
unfolding after
failures-opened [] b e = e
failures-opened (now ∷ nows) b e = failures-opened nows (on_failure now b) (fail-opened now b e)

failures_stay :
    (nows : List ℤ) {b : CircuitBreaker}
    → IsValid b
    → b.state ≡ closed
    → b.failure_count + length nows < b.config.failure_threshold
    → (after b (failures nows)).state ≡ closed
unfolding after
failures_stay [] v e h = e
failures_stay (now ∷ nows) {b} v e h =
    let (c, n, k) = fail-closed now v e (omega arith) in
    failures_stay nows (on_failure-IsValid now v) c (rw (n, k) (omega arith))

failures_open :
    (nows : List ℤ) {b : CircuitBreaker}
    → IsValid b
    → b.state ≡ closed
    → b.config.failure_threshold ≤ b.failure_count + length nows
    → (after b (failures nows)).state ≡ opened
unfolding after
failures_open [] {b} v e h = absurd (omega (arith, v.failures e))
failures_open (now ∷ nows) {b} v e h =
    elim (dec_lt (b.failure_count + 1) b.config.failure_threshold) [
      | yes below ↦
          let (c, n, k) = fail-closed now v e below in
          failures_open nows (on_failure-IsValid now v) c (rw (n, k) (omega arith))
      | no reached ↦ failures-opened nows (on_failure now b) (fail_trips now v e (omega arith))
    ]

-- A closed, valid breaker is still closed after a row of failures if the failures counted before
-- and those of the row are together fewer than the threshold; otherwise it is open.
pub failures_trip :
    (nows : List ℤ) {b : CircuitBreaker}
    → IsValid b
    → b.state ≡ closed
    → (after b (failures nows)).state
      ≡ (if ltb (b.failure_count + length nows) b.config.failure_threshold then closed else opened)
failures_trip nows {b} v e = ground (arith, failures_stay nows v e, failures_open nows v e)

-- Probes that come one after the other, each reported as a success.
abbrev pub good_probes : List ℤ → List Call
good_probes [] = []
good_probes (now ∷ nows) = allow now ∷ success ∷ good_probes nows

probe : ℤ → CircuitBreaker → CircuitBreaker
probe now b = on_success (allow_request now b).0

probe-closed :
    (now : ℤ) (b : CircuitBreaker)
    → b.state ≡ closed
    → ((allow_request now b).1 ≡ true) × ((probe now b).state ≡ closed)
unfolding probe allow_request on_success
probe-closed now b e = (ground arith, ground arith)

-- Every probe is let through, and the breaker ends in this state.
record AllPass (nows : List ℤ) (b : CircuitBreaker) (state : CircuitState) : Type 0 where
  passed : run b (good_probes nows) ≡ map (λ _. true) nows
  ends_in : (after b (good_probes nows)).state ≡ state

AllPass-cons :
    (now : ℤ) (nows : List ℤ) (b : CircuitBreaker) (state : CircuitState)
    → (allow_request now b).1 ≡ true
    → AllPass nows (probe now b) state
    → AllPass (now ∷ nows) b state
unfolding run after probe
AllPass-cons now nows b state e p = record {
  passed = ground (arith, e, p.passed);
  ends_in = p.ends_in;
}

good_probes-closed : (nows : List ℤ) (b : CircuitBreaker) → b.state ≡ closed → AllPass nows b closed
unfolding after run
good_probes-closed [] b e = record { passed = refl; ends_in = e }
good_probes-closed (now ∷ nows) b e =
    let (pass, c) = probe-closed now b e in
    AllPass-cons now nows b closed pass (good_probes-closed nows (probe now b) c)

probe-half_open :
    (now : ℤ) {b : CircuitBreaker}
    → IsValid b
    → b.state ≡ half_open
    → b.half_open_in_flight < b.config.half_open_max_requests
    → b.success_count + 1 < b.config.success_threshold
    → ((probe now b).state ≡ half_open)
      × ((probe now b).success_count ≡ b.success_count + 1)
      × ((probe now b).config ≡ b.config)
      × ((probe now b).half_open_in_flight ≡ b.half_open_in_flight)
unfolding probe allow_request on_success
probe-half_open now {b} v e f h = (ground arith, ground arith, ground arith, ground arith)

probe_passes :
    (now : ℤ) (b : CircuitBreaker)
    → b.state ≡ half_open
    → b.half_open_in_flight < b.config.half_open_max_requests
    → (allow_request now b).1 ≡ true
unfolding allow_request
probe_passes now b e f = ground arith

probe_closes :
    (now : ℤ) {b : CircuitBreaker}
    → IsValid b
    → b.state ≡ half_open
    → b.half_open_in_flight < b.config.half_open_max_requests
    → b.config.success_threshold ≤ b.success_count + 1
    → (probe now b).state ≡ closed
unfolding probe allow_request on_success
probe_closes now {b} v e f h = ground (arith, v.successes)

probe-IsValid : (now : ℤ) {b : CircuitBreaker} → IsValid b → IsValid (probe now b)
unfolding probe
probe-IsValid now v = on_success-IsValid (allow_request-IsValid now v)

probes_stay :
    (nows : List ℤ) {b : CircuitBreaker}
    → IsValid b
    → b.state ≡ half_open
    → b.half_open_in_flight < b.config.half_open_max_requests
    → b.success_count + length nows < b.config.success_threshold
    → AllPass nows b half_open
unfolding after run
probes_stay [] v e f h = record { passed = refl; ends_in = e }
probes_stay (now ∷ nows) {b} v e f h =
    let (c, n, k, i) = probe-half_open now v e f (omega arith) in
    AllPass-cons now nows b half_open (probe_passes now b e f)
      (probes_stay nows (probe-IsValid now v) c (rw (i, k) f) (rw (n, k) (omega arith)))

probes_close :
    (nows : List ℤ) {b : CircuitBreaker}
    → IsValid b
    → b.state ≡ half_open
    → b.half_open_in_flight < b.config.half_open_max_requests
    → b.config.success_threshold ≤ b.success_count + length nows
    → AllPass nows b closed
probes_close [] {b} v e f h = absurd (omega (arith, v.successes e))
probes_close (now ∷ nows) {b} v e f h =
    AllPass-cons now nows b closed (probe_passes now b e f)
      (elim (dec_lt (b.success_count + 1) b.config.success_threshold) [
        | yes below ↦
            let (c, n, k, i) = probe-half_open now v e f below in
            probes_close nows (probe-IsValid now v) c (rw (i, k) f) (rw (n, k) (omega arith))
        | no reached ↦ good_probes-closed nows (probe now b) (probe_closes now v e f (omega arith))
      ])

-- A half-open, valid breaker with room for one more probe lets every probe of a row pass when each
-- is reported as a success before the next comes, and it is closed after the row exactly if the
-- successes counted before and those of the row reach the threshold; until then it stays half open.
pub probes_recover :
    (nows : List ℤ) {b : CircuitBreaker}
    → IsValid b
    → b.state ≡ half_open
    → b.half_open_in_flight < b.config.half_open_max_requests
    → (run b (good_probes nows) ≡ map (λ _. true) nows)
      × ((after b (good_probes nows)).state ≡ (
          if ltb (b.success_count + length nows) b.config.success_threshold
          then half_open
          else closed))
probes_recover nows {b} v e f =
    elim (dec_lt (b.success_count + length nows) b.config.success_threshold) [
      | yes below ↦ let p = probes_stay nows v e f below in (p.passed, ground (arith, p.ends_in))
      | no reached ↦
          let p = probes_close nows v e f (omega arith) in (p.passed, ground (arith, p.ends_in))
    ]
