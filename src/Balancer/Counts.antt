-- ===== src/Balancer/Counts.antt =====
-- Lists of counts beside lists of weights.
use native.Mathlib.Nat.{mul-le-mul, mul-le-mul_left}
use galay_utils.Prelude.{
  ℕ, zero, suc, ◌+◌, ◌*◌, ◌≤◌, ◌<◌, ◌≡◌, refl, ap₂, arith, List, [], ◌∷◌, Option, none, some,
  length, replicate, All, dec_lt,
}
use galay_utils.Balancer.{bias}
use galay_utils.Balancer.Scan.{sum}

-- How often each position was selected, one more for position `i`.
abbrev pub bump : ℕ → List ℕ → List ℕ
bump i [] = []
bump zero (c ∷ cs) = suc c ∷ cs
bump (suc i) (c ∷ cs) = c ∷ bump i cs

pub sum-bump : (i : ℕ) (cs : List ℕ) → i < length cs → sum (bump i cs) ≡ sum cs + 1
sum-bump i [] h = absurd (omega arith)
sum-bump zero (c ∷ cs) h = omega arith
sum-bump (suc i) (c ∷ cs) h = omega (arith, sum-bump i cs (omega arith))

abbrev pub counted : Option ℕ → List ℕ → List ℕ
counted none cs = cs
counted (some i) cs = bump i cs

-- Each count is at most the weight at its position.
abbrev pub Below : List ℕ → List ℕ → Type 0
Below [] [] = Unit
Below [] (w ∷ ws) = ⊥
Below (c ∷ cs) [] = ⊥
Below (c ∷ cs) (w ∷ ws) = (c ≤ w) × Below cs ws

pub Below-le : (cs ws : List ℕ) → Below cs ws → sum cs ≤ sum ws
Below-le [] [] b = omega arith
Below-le [] (w ∷ ws) b = elim b [ ]
Below-le (c ∷ cs) [] b = elim b [ ]
Below-le (c ∷ cs) (w ∷ ws) (p, b) = omega (arith, Below-le cs ws b)

pub Below-eq : (cs ws : List ℕ) → Below cs ws → sum cs ≡ sum ws → cs ≡ ws
Below-eq [] [] b e = refl
Below-eq [] (w ∷ ws) b e = elim b [ ]
Below-eq (c ∷ cs) [] b e = elim b [ ]
Below-eq (c ∷ cs) (w ∷ ws) (p, b) e =
    ap₂ ◌∷◌ (omega (arith, Below-le cs ws b)) (Below-eq cs ws b (omega (arith, Below-le cs ws b)))

pub sum-replicate : (n : ℕ) → sum (replicate n 0) ≡ 0
sum-replicate zero = refl
sum-replicate (suc n) = omega (arith, sum-replicate n)

pub parts_below : (t : ℕ) (ws : List ℕ) → sum ws ≤ t → All (λ w. w ≤ t) ws
parts_below t [] h = tt
parts_below t (w ∷ ws) h = (omega arith, parts_below t ws (omega arith))

-- A weight that is not `t` below 0 after `t` rounds was not selected too often.
pub at_most : (t x c w : ℕ) → 0 < t → x + t * c ≡ bias + t * w → bias < x + t → c ≤ w
at_most t x c w p e b = elim (dec_lt w c) [
  | no h ↦ omega arith
  | yes h ↦ absurd (omega (arith, mul-le-mul_left t h))
]

-- No sum of weights wraps: the weights stay within the total, and there are few rounds.
pub product_bound : (t k w : ℕ) → k ≤ t → w ≤ t → k * w ≤ t * t
product_bound t k w p q = mul-le-mul p q
