-- ===== src/Balancer/Weighted.antt =====
-- Weighted random: what each drawn number selects.
use galay_utils.Prelude.{
  ℕ, zero, suc, ◌+◌, ◌-◌, ◌^◌, ◌≤◌, ◌<◌, ◌≡◌, refl, ap, ◌∙◌, arith, List, [], ◌∷◌, ◌++◌,
  append_assoc, append-nil, some, length, get_elem?, ◌==◌, false, length-append, length-replicate,
  replicate, if◌then◌else◌, ltb, Bool-cases, inl, inr,
}
use native.Mathlib.Nat.{zero-add}
use galay_utils.Balancer.{
  WeightedNode, WeightedRandomLoadBalancer, append_weighted_random, append_all,
  init_weighted_random, pick, select_weighted_random,
}
use galay_utils.Balancer.Scan.{sum}

get_elem?-replicate :
    {A : Type 0} (w : ℕ) (x : A) (l : List A) (i : ℕ)
    → get_elem? (replicate w x ++ l) i ≡ (if ltb i w then some x else get_elem? l (i - w))
get_elem?-replicate zero x l i = ground arith
get_elem?-replicate (suc w) x l zero = ground arith
get_elem?-replicate (suc w) x l (suc i) = ground (arith, get_elem?-replicate w x l i)

length_pos : (ws : List ℕ) → 0 < sum ws → 0 < length ws
length_pos [] h = absurd (omega arith)
length_pos (w ∷ ws) h = omega arith

module _ {A : Type 0} where
  -- Each node as often as its weight says.
  pub spread : List A → List ℕ → List A
  spread (x ∷ nodes) (w ∷ ws) = replicate w x ++ spread nodes ws
  spread _ _ = []

  weighted : List A → List ℕ → List (WeightedNode A)
  weighted (x ∷ nodes) (w ∷ ws) = record { node = x; weight = w } ∷ weighted nodes ws
  weighted _ _ = []

  length-weighted :
      (nodes : List A) (ws : List ℕ)
      → length nodes ≡ length ws
      → length (weighted nodes ws) ≡ length ws
  unfolding weighted
  length-weighted [] [] e = refl
  length-weighted [] (w ∷ ws) e = absurd (omega arith)
  length-weighted (x ∷ nodes) [] e = absurd (omega arith)
  length-weighted (x ∷ nodes) (w ∷ ws) e = ap suc (length-weighted nodes ws (omega arith))

  length-spread :
      (nodes : List A) (ws : List ℕ) → length nodes ≡ length ws → length (spread nodes ws) ≡ sum ws
  unfolding spread
  length-spread [] [] e = refl
  length-spread [] (w ∷ ws) e = absurd (omega arith)
  length-spread (x ∷ nodes) [] e = absurd (omega arith)
  length-spread (x ∷ nodes) (w ∷ ws) e = omega (
    arith,
    length-append (replicate w x) (spread nodes ws),
    length-replicate w x,
    length-spread nodes ws (omega arith),
  )

  append_all_eq :
      (nodes : List A) (ws : List ℕ) (b : WeightedRandomLoadBalancer A)
      → length nodes ≡ length ws
      → b.total_weight + sum ws < 2 ^ 32
      → append_all nodes ws b
        ≡ record { nodes = b.nodes ++ weighted nodes ws; total_weight = b.total_weight + sum ws }
  unfolding append_all append_weighted_random weighted
  append_all_eq [] [] b e h = rw append-nil (ground arith)
  append_all_eq [] (w ∷ ws) b e h = absurd (omega arith)
  append_all_eq (x ∷ nodes) [] b e h = absurd (omega arith)
  append_all_eq (x ∷ nodes) (w ∷ ws) b e h =
      append_all_eq nodes ws (append_weighted_random x w b) (omega arith) (omega arith)
      ∙ rw append_assoc (ground arith)

  pick-eq-spread :
      (nodes : List A) (ws : List ℕ) (drawn current : ℕ)
      → length nodes ≡ length ws
      → current ≤ drawn
      → current + sum ws < 2 ^ 32
      → pick drawn current (weighted nodes ws) ≡ get_elem? (spread nodes ws) (drawn - current)
  unfolding pick spread weighted
  pick-eq-spread [] ws drawn current e p h = ground arith
  pick-eq-spread (x ∷ nodes) [] drawn current e p h = absurd (omega arith)
  pick-eq-spread (x ∷ nodes) (w ∷ ws) drawn current e p h =
      let front = get_elem?-replicate w x (spread nodes ws) (drawn - current) in
      elim (Bool-cases (ltb (drawn - current) w)) [
        | inl q ↦ ground (arith, front)
        | inr q ↦
            let later =
              pick-eq-spread nodes ws drawn (current + w) (omega arith) (ground arith)
                (omega arith) in
            let same : drawn - current - w ≡ drawn - (current + w) = omega arith in
            ground (arith, front, later, ap (get_elem? (spread nodes ws)) same)
      ]

  -- With as many weights as nodes and a total weight above 0 that fits in 32 bits, the constructor
  -- builds a balancer that returns, for each number drawn below the total weight, the node at that
  -- place of the list that holds each node as often as its weight says, which always exists.
  pub weighted_shares :
      (nodes : List A) (ws : List ℕ) (drawn : ℕ)
      → length nodes ≡ length ws
      → sum ws < 2 ^ 32
      → drawn < sum ws
      → (b : WeightedRandomLoadBalancer A) × (init_weighted_random nodes ws ≡ some b)
        × (select_weighted_random drawn b ≡ get_elem? (spread nodes ws) drawn)
        × (drawn < length (spread nodes ws))
  unfolding init_weighted_random select_weighted_random
  weighted_shares nodes ws drawn same h p =
      let none_yet : WeightedRandomLoadBalancer A = record { nodes = []; total_weight = 0 } in
      let built : WeightedRandomLoadBalancer A = record {
        nodes = weighted nodes ws;
        total_weight = 0 + sum ws;
      } in
      let all = append_all_eq nodes ws none_yet same (omega arith) in
      let full : (length (weighted nodes ws) == 0) ≡ false =
        ground (arith, length-weighted nodes ws same, length_pos ws (omega arith)) in
      let total : (sum ws == 0) ≡ false = ground arith in
      (
        built,
        ground (arith, all),
        rw (full, zero-add, total)
            (pick-eq-spread nodes ws drawn 0 same (omega arith) (omega arith)
              ∙ ap (get_elem? (spread nodes ws)) (omega arith)),
        omega (arith, length-spread nodes ws same),
      )
