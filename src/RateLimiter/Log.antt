-- ===== src/RateLimiter/Log.antt =====
-- How many times of a list lie within a window.
use galay_utils.Prelude.{
  ℕ, zero, suc, ◌+◌, ◌≤◌, ◌<◌, ◌≡◌, refl, arith, List, [], ◌∷◌, length, get_or, set, replicate, ltb,
  if◌then◌else◌,
}

-- How many of the times are `cutoff` or later.
abbrev pub count : ℕ → List ℕ → ℕ
count cutoff [] = 0
count cutoff (x ∷ xs) = (if ltb x cutoff then 0 else 1) + count cutoff xs

pub count-le-length : (c : ℕ) (l : List ℕ) → count c l ≤ length l
count-le-length c [] = omega arith
count-le-length c (x ∷ l) = ground (arith, count-le-length c l)

pub count-set :
    (c now : ℕ) (l : List ℕ) (i : ℕ)
    → i < length l
    → get_or l i 0 < c
    → count c (set l i now) ≡ (if ltb now c then 0 else 1) + count c l
count-set c now [] i h p = absurd (omega arith)
count-set c now (x ∷ l) zero h p = ground arith
count-set c now (x ∷ l) (suc i) h p = ground (arith, count-set c now l i (omega arith) p)

pub count-full :
    (c : ℕ) (l : List ℕ) → ((i : ℕ) → i < length l → c ≤ get_or l i 0) → count c l ≡ length l
count-full c [] h = refl
count-full c (x ∷ l) h =
    ground (arith, h 0 (omega arith), count-full c l (λ i p. h (suc i) (omega arith)))

pub count-free :
    (c : ℕ) (l : List ℕ) (i : ℕ) → i < length l → get_or l i 0 < c → count c l < length l
count-free c [] i h p = absurd (omega arith)
count-free c (x ∷ l) zero h p = ground (arith, count-le-length c l)
count-free c (x ∷ l) (suc i) h p = ground (arith, count-free c l i (omega arith) p)

pub count-none : (c n : ℕ) → 0 < c → count c (replicate n 0) ≡ 0
count-none c zero p = refl
count-none c (suc n) p = ground (arith, count-none c n p)
