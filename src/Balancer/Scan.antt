-- ===== src/Balancer/Scan.antt =====
-- The loop of the smooth weighted round robin that raises the weights and finds the greatest.
use galay_utils.Prelude.{
  ℕ, suc, ◌+◌, ◌*◌, ◌≤◌, ◌<◌, ◌≡◌, refl, ap, ◌∙◌, arith, List, [], ◌∷◌, Option, none, some, map,
  All, length, ◌⊎◌, inl, inr, Bool-cases, ltb, get_or, ltb→lt, dec_le,
}
use galay_utils.Balancer.{Node, raise, scan}

abbrev pub sum : List ℕ → ℕ
sum [] = 0
sum (x ∷ xs) = x + sum xs

pub sum-le : (b : ℕ) (l : List ℕ) → All (λ x. x ≤ b) l → sum l ≤ length l * b
sum-le b [] h = omega arith
sum-le b (x ∷ l) (p, h) = omega (arith, sum-le b l h)

All-le_trans : (a b : ℕ) (l : List ℕ) → a ≤ b → All (λ x. x ≤ a) l → All (λ x. x ≤ b) l
All-le_trans a b [] p h = h
All-le_trans a b (x ∷ l) p (q, h) = (omega arith, All-le_trans a b l p h)

-- The position `i` holds a weight above `m` that no other exceeds.
pub record Greatest (m i : ℕ) (l : List ℕ) : Type 0 where
  pub inside : i < length l
  pub above : m < get_or l i 0
  pub most : All (λ x. x ≤ get_or l i 0) l

Greatest-cons : (m i x : ℕ) (l : List ℕ) → x ≤ m → Greatest m i l → Greatest m (suc i) (x ∷ l)
Greatest-cons m i x l p g = record {
  inside = omega (arith, g.inside);
  above = g.above;
  most = (omega (arith, g.above), g.most);
}

Greatest-over : (m i x : ℕ) (l : List ℕ) → m < x → Greatest x i l → Greatest m (suc i) (x ∷ l)
Greatest-over m i x l p g = record {
  inside = omega (arith, g.inside);
  above = omega (arith, g.above);
  most = (omega (arith, g.above), g.most);
}

module _ {A : Type 0} where
  abbrev pub weights_of : List (Node A) → List ℕ
  weights_of = map (λ n. n.current_weight)

  pub scan-raise :
      (nodes : List (Node A)) (m : ℕ) (s : Option ℕ) (pos : ℕ)
      → (scan m s pos nodes).0 ≡ map raise nodes
  unfolding scan
  scan-raise [] m s pos = refl
  scan-raise (n ∷ nodes) m s pos = elim (Bool-cases (ltb m (raise n).current_weight)) [
    | inl e ↦
        rw e (ap (◌∷◌ (raise n)) (scan-raise nodes (raise n).current_weight (some pos) (pos + 1)))
    | inr e ↦ rw e (ap (◌∷◌ (raise n)) (scan-raise nodes m s (pos + 1)))
  ]

  pub scan-cases :
      (nodes : List (Node A)) (m : ℕ) (s : Option ℕ) (pos : ℕ)
      → let raised = weights_of (map raise nodes) in
        (((scan m s pos nodes).1 ≡ s) × All (λ x. x ≤ m) raised)
        ⊎ ((i : ℕ) × ((scan m s pos nodes).1 ≡ some (pos + i)) × Greatest m i raised)
  unfolding scan
  scan-cases [] m s pos = inl (refl, tt)
  scan-cases (n ∷ nodes) m s pos =
      let x = (raise n).current_weight in
      let raised = weights_of (map raise nodes) in
      elim (Bool-cases (ltb m x)) [
        | inl e ↦ elim (scan-cases nodes x (some pos) (pos + 1)) [
          | inl (r, h) ↦ inr (
            0,
            rw e (r ∙ ap some (omega arith)),
            record { inside = omega arith; above = ltb→lt m x e; most = (omega arith, h) },
          )
          | inr (i, r, g) ↦
              inr (
                suc i,
                rw e (r ∙ ap some (omega arith)),
                Greatest-over m i x raised (ltb→lt m x e) g,
              )
        ]
        | inr e ↦ elim (scan-cases nodes m s (pos + 1)) [
          | inl (r, h) ↦ inl (rw e r, (ground arith, h))
          | inr (i, r, g) ↦
              inr (
                suc i,
                rw e (r ∙ ap some (omega arith)),
                Greatest-cons m i x raised (ground arith) g,
              )
        ]
      ]

  -- Among weights whose sum is above `b` for each, the scan finds one above `b`.
  pub scan-finds :
      (b : ℕ) (nodes : List (Node A))
      → let raised = weights_of (map raise nodes) in
        length raised * b < sum raised
        → (i : ℕ) × ((scan 0 none 0 nodes).1 ≡ some i)
          × (i < length raised)
          × (b < get_or raised i 0)
  scan-finds b nodes h =
      let raised = weights_of (map raise nodes) in
      elim (scan-cases nodes 0 none 0) [
        | inl (r, l) ↦
            absurd (omega (arith, sum-le b raised (All-le_trans 0 b raised (omega arith) l)))
        | inr (i, r, g) ↦ (
          i,
          r ∙ ap some (omega arith),
          g.inside,
          elim (dec_le (get_or raised i 0) b) [
            | yes p ↦ absurd (omega (arith, sum-le b raised (All-le_trans _ b raised p g.most)))
            | no p ↦ omega arith
          ],
        )
      ]
