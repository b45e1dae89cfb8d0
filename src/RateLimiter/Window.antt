-- ===== src/RateLimiter/Window.antt =====
-- The sliding window against the log of all granted requests.
use native.Mathlib.Nat.{mod-eq_of_lt, mod-add-mod}
use galay_utils.Prelude.{
  ℕ, zero, suc, ◌+◌, ◌-◌, ◌%◌, ◌^◌, ◌≤◌, ◌<◌, ◌≡◌, refl, ap, ap₂, sym, ◌∙◌, arith, Bool, true,
  false, List, [], ◌∷◌, length, get_or, set, length-set, length-replicate, ltb, if◌then◌else◌,
  Bool-cases, dec_lt, ◌==◌, inl, inr, ◌⊎◌, sub_size, add_size, ltb→lt,
}
use galay_utils.Prelude.Arrays.{mod_once}
use galay_utils.RateLimiter.{SlidingWindowLimiter, init_window, probe, try_acquire}
use galay_utils.RateLimiter.Log.{count, count-set, count-full, count-free, count-none}

-- The offset at which the probe reaches the slot `j`.
reached : (start m j : ℕ) → j < m → (o : ℕ) × (o < m) × ((start + o) % m ≡ j)
reached start m j h =
    let s = start % m in
    let small : s < m = omega arith in
    elim (dec_lt j s) [
      | no p ↦
          let o = j - s in
          (
            o,
            omega arith,
            sym (mod-add-mod start m o) ∙ ap (λ x. x % m) (omega arith) ∙ mod-eq_of_lt h,
          )
      | yes p ↦
          let o = j + m - s in
          (
            o,
            omega arith,
            sym (mod-add-mod start m o) ∙ ground (arith, mod_once (s + o) m (omega arith)),
          )
    ]

module _ (m start now cutoff : ℕ) (requests : List ℕ) (fits : start + m ≤ 2 ^ 64) where
  abbrev slot : ℕ → ℕ
  slot o = get_or requests ((start + o) % m) 0

  -- The probe finds a slot older than the cutoff, or there is none at the offsets it tries.
  probe-cases :
      (n o : ℕ)
      → o + n ≡ m
      → let result = probe n o m start now cutoff requests in
        ((i : ℕ) × (i < m) × (get_or requests i 0 < cutoff) × (result ≡ (set requests i now, true)))
        ⊎ ((result ≡ (requests, false)) × ((p : ℕ) → o ≤ p → p < m → cutoff ≤ slot p))
  unfolding probe
  probe-cases zero o e = inr (refl, λ p h q. absurd (omega arith))
  probe-cases (suc n) o e =
      let index : add_size start o % m ≡ (start + o) % m = ap (λ x. x % m) (omega arith) in
      elim (Bool-cases (ltb (slot o) cutoff)) [
        | inl y ↦ inl ((start + o) % m, omega arith, ltb→lt _ _ y, rw (index, y) refl)
        | inr y ↦ elim (probe-cases n (o + 1) (omega arith)) [
          | inl (i, h, g, r) ↦ inl (i, h, g, rw (index, y) r)
          | inr (r, h) ↦ inr (
            rw (index, y) r,
            λ p a b. elim (dec_lt o p) [
              | yes q ↦ h p (omega arith) b
              | no q ↦ let same : p ≡ o = omega arith in rw same (ground (arith, y))
            ],
          )
        ]
      ]

-- The slots hold what of the log is not older than `cut`.
pub record Logs (cut : ℕ) (l : SlidingWindowLimiter) (log : List ℕ) : Type 0 where
  pub size : length l.requests ≡ l.max_requests
  pub same : (c : ℕ) → cut ≤ c → count c l.requests ≡ count c log

-- What one call at the time `now` does to a limiter and its log.
pub record Exact (now : ℕ) (l l' : SlidingWindowLimiter) (log : List ℕ) (ok : Bool) : Type 0 where
  pub answer : ok ≡ ltb (count (now - l.window_ticks) log) l.max_requests
  pub logs : Logs (now - l.window_ticks) l' (if ok then now ∷ log else log)
  pub max_kept : l'.max_requests ≡ l.max_requests
  pub window_kept : l'.window_ticks ≡ l.window_ticks
  pub cursor : l'.probe_cursor ≤ l.probe_cursor + 1

module _ {l : SlidingWindowLimiter} {log : List ℕ} {cut now : ℕ} (v : Logs cut l log)
    (inside : l.window_ticks < now) (fits : now < 2 ^ 64) (later : cut ≤ now - l.window_ticks)
    (room : l.probe_cursor + l.max_requests + 1 ≤ 2 ^ 64) where
  abbrev cutoff : ℕ
  cutoff = now - l.window_ticks

  cutoff_eq : sub_size now l.window_ticks ≡ cutoff
  cutoff_eq = omega arith

  granted-Exact :
      (i : ℕ)
      → i < l.max_requests
      → get_or l.requests i 0 < cutoff
      → Exact now l
          (record l { requests = set l.requests i now; probe_cursor = add_size l.probe_cursor 1 })
          log
          true
  granted-Exact i h g = record {
    answer =
        let free = count-free cutoff l.requests i (omega (arith, v.size)) g in
        ground (arith, free, v.same cutoff later, v.size);
    logs = record {
      size = length-set l.requests i now ∙ v.size;
      same = λ c p.
          count-set c now l.requests i (omega (arith, v.size)) (omega arith)
          ∙ ap (λ n. (if ltb now c then 0 else 1) + n) (v.same c (omega arith));
    };
    max_kept = refl;
    window_kept = refl;
    cursor = omega arith;
  }

  refused-Exact :
      ((j : ℕ) → j < l.max_requests → cutoff ≤ get_or l.requests j 0)
      → Exact now l (record l { probe_cursor = add_size l.probe_cursor 1 }) log false
  refused-Exact h = record {
    answer =
        let full = count-full cutoff l.requests (λ i p. h i (omega (arith, v.size))) in
        ground (arith, full, v.same cutoff later, v.size);
    logs = record { size = v.size; same = λ c p. v.same c (omega arith) };
    max_kept = refl;
    window_kept = refl;
    cursor = omega arith;
  }

  acquire-Exact : let (l', ok) = try_acquire now l in Exact now l l' log ok
  unfolding try_acquire
  acquire-Exact = elim (Bool-cases (l.max_requests == 0)) [
    | inl e ↦ rw e (record {
      answer = ground arith;
      logs = record { size = v.size; same = λ c p. v.same c (omega arith) };
      max_kept = refl;
      window_kept = refl;
      cursor = omega arith;
    })
    | inr e ↦
        elim (probe-cases l.max_requests l.probe_cursor now cutoff l.requests (omega arith)
          l.max_requests 0 (omega arith)) [
            | inl (i, h, g, r) ↦ rw (e, cutoff_eq, r) (granted-Exact i h g)
            | inr (r, h) ↦
                rw (e, cutoff_eq, r)
                  (refused-Exact (λ j p.
                    let (o, b, at) = reached l.probe_cursor l.max_requests j p in
                    rw⁻¹ at (h o (omega arith) b)))
          ]
  ]

-- The answers that the limiter gives to calls at these times.
unfoldable pub answers : SlidingWindowLimiter → List ℕ → List Bool
answers l [] = []
answers l (now ∷ times) = let (l', ok) = try_acquire now l in ok ∷ answers l' times

-- What a limiter should answer that keeps the log of all granted requests.
pub by_log : ℕ → ℕ → List ℕ → List ℕ → List Bool
by_log most window log [] = []
by_log most window log (now ∷ times) =
    let ok = ltb (count (now - window) log) most in
    ok ∷ by_log most window (if ok then now ∷ log else log) times

-- The times do not go back and are later than the least time by more than the window.
abbrev pub Forward : ℕ → ℕ → List ℕ → Type 0
Forward window from [] = Unit
Forward window from (now ∷ times) =
    ((from ≤ now) × (window < now) × (now < 2 ^ 64)) × Forward window now times

answers-eq-by_log :
    (times : List ℕ) (from : ℕ) (l : SlidingWindowLimiter) (log : List ℕ)
    → Logs (from - l.window_ticks) l log
    → Forward l.window_ticks from times
    → l.probe_cursor + l.max_requests + length times ≤ 2 ^ 64
    → answers l times ≡ by_log l.max_requests l.window_ticks log times
unfolding answers by_log
answers-eq-by_log [] from l log v f h = refl
answers-eq-by_log (now ∷ times) from l log v ((p, w, b), f) h =
    let x = acquire-Exact v w b (omega arith) (omega arith) in
    let (l', ok) = try_acquire now l in
    let log' : List ℕ = if ok then now ∷ log else log in
    let rest =
      answers-eq-by_log times now l' log' (rw x.window_kept x.logs) (rw x.window_kept f)
        (omega (arith, x.cursor, x.max_kept)) in
    let kept : by_log l'.max_requests l'.window_ticks log' times
        ≡ by_log l.max_requests l.window_ticks log' times =
      rw (x.max_kept, x.window_kept) refl in
    let spec : List ℕ → List ℕ → List Bool =
      λ log times. by_log l.max_requests l.window_ticks log times in
    ap₂ ◌∷◌ x.answer (rest ∙ kept ∙ ap (λ b. spec (if b then now ∷ log else log) times) x.answer)

-- A new sliding window limiter grants a request exactly if fewer than `max_requests` of the granted
-- ones lie within the window before it: its slots answer every sequence of calls as the log of all
-- granted requests does. The clock must not go back or wrap, nor the probe cursor wrap.
pub window_refines :
    (most window from : ℕ) (times : List ℕ)
    → window < from
    → Forward window from times
    → most + length times ≤ 2 ^ 64
    → answers (init_window most window) times ≡ by_log most window [] times
unfolding init_window
window_refines most window from times w f h =
    answers-eq-by_log times from (init_window most window) []
      (record { size = length-replicate most 0; same = λ c p. count-none c most (omega arith) }) f
      (omega arith)
