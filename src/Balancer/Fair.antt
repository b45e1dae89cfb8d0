-- ===== src/Balancer/Fair.antt =====
-- Smooth weighted round robin: over as many calls as the total weight, each node has its share.
use mathlib.Core.Path.{subst}
use native.Mathlib.Nat.{mod-eq_of_lt}
use galay_utils.Prelude.{
  ℕ, zero, suc, ◌+◌, ◌*◌, ◌^◌, ◌≤◌, ◌<◌, ◌≡◌, refl, ap, ◌∙◌, arith, List, [], ◌∷◌, none, map,
  length, length-map, get_or, replicate, All,
}
use galay_utils.Balancer.{
  Node, bias, add_weight, sub_weight, raise, total_from, lower, select_node, new_nodes,
}
use galay_utils.Balancer.Scan.{sum, weights_of, scan-raise, scan-finds}
use galay_utils.Balancer.Counts.{
  bump, sum-bump, counted, Below, Below-eq, sum-replicate, parts_below, at_most, product_bound,
}

module _ {A : Type 0} where
  abbrev pub fixed_of : List (Node A) → List ℕ
  fixed_of = map (λ n. n.fixed_weight)

  -- After `k` rounds with the total `t`, each weight is what its count of selections leaves of `k`
  -- times the fixed weight, and none is `t` or more below 0.
  abbrev pub Follows : ℕ → ℕ → List (Node A) → List ℕ → Type 0
  Follows t k [] [] = Unit
  Follows t k [] (c ∷ cs) = ⊥
  Follows t k (n ∷ ns) [] = ⊥
  Follows t k (n ∷ ns) (c ∷ cs) =
      ((n.current_weight + t * c ≡ bias + k * n.fixed_weight)
        × (bias < n.current_weight + t)
        × (n.fixed_weight ≤ t))
      × Follows t k ns cs

  length-Follows :
      (t k : ℕ) (ns : List (Node A)) (cs : List ℕ) → Follows t k ns cs → length cs ≡ length ns
  length-Follows t k [] [] f = refl
  length-Follows t k [] (c ∷ cs) f = elim f [ ]
  length-Follows t k (n ∷ ns) [] f = elim f [ ]
  length-Follows t k (n ∷ ns) (c ∷ cs) (h, f) = ap suc (length-Follows t k ns cs f)

  raise_exact :
      (t k : ℕ) (n : Node A) (c : ℕ)
      → t * t + t < bias
      → k < t
      → n.current_weight + t * c ≡ bias + k * n.fixed_weight
      → n.fixed_weight ≤ t
      → (raise n).current_weight ≡ n.current_weight + n.fixed_weight
  raise_exact t k n c small p e w =
      mod-eq_of_lt (omega (arith, product_bound t k n.fixed_weight (omega arith) w))

  raise-Follows :
      (t k : ℕ) (ns : List (Node A)) (cs : List ℕ)
      → t * t + t < bias
      → k < t
      → Follows t k ns cs
      → Follows t (k + 1) (map raise ns) cs
  raise-Follows t k [] [] small p f = tt
  raise-Follows t k [] (c ∷ cs) small p f = elim f [ ]
  raise-Follows t k (n ∷ ns) [] small p f = elim f [ ]
  raise-Follows t k (n ∷ ns) (c ∷ cs) small p ((e, b, w), f) =
      let r = raise_exact t k n c small p e w in
      ((omega (arith, r), omega (arith, r), w), raise-Follows t k ns cs small p f)

  lower-Follows :
      (t k i : ℕ) (ns : List (Node A)) (cs : List ℕ)
      → t * t + t < bias
      → k ≤ t
      → Follows t k ns cs
      → bias < get_or (weights_of ns) i 0
      → Follows t k (lower i (bias + t) ns) (bump i cs)
  unfolding lower
  lower-Follows t k i [] [] small p f h = tt
  lower-Follows t k i [] (c ∷ cs) small p f h = elim f [ ]
  lower-Follows t k zero (n ∷ ns) [] small p f h = elim f [ ]
  lower-Follows t k (suc i) (n ∷ ns) [] small p f h = elim f [ ]
  lower-Follows t k zero (n ∷ ns) (c ∷ cs) small p ((e, b, w), f) h =
      let room = product_bound t k n.fixed_weight p w in
      let d : sub_weight n.current_weight (bias + t) + t ≡ n.current_weight = omega (arith, room) in
      ((omega (arith, d), omega (arith, d), w), f)
  lower-Follows t k (suc i) (n ∷ ns) (c ∷ cs) small p (g, f) h =
      (g, lower-Follows t k i ns cs small p f h)

  -- The weights sum up to what the rounds gave and the selections took.
  sum-Follows :
      (t k : ℕ) (ns : List (Node A)) (cs : List ℕ)
      → Follows t k ns cs
      → sum (weights_of ns) + t * sum cs ≡ length ns * bias + k * sum (fixed_of ns)
  sum-Follows t k [] [] f = omega arith
  sum-Follows t k [] (c ∷ cs) f = elim f [ ]
  sum-Follows t k (n ∷ ns) [] f = elim f [ ]
  sum-Follows t k (n ∷ ns) (c ∷ cs) ((e, b, w), f) = omega (arith, sum-Follows t k ns cs f)

  fixed-lower : (i t : ℕ) (ns : List (Node A)) → fixed_of (lower i t ns) ≡ fixed_of ns
  unfolding lower
  fixed-lower i t [] = refl
  fixed-lower zero t (n ∷ ns) = refl
  fixed-lower (suc i) t (n ∷ ns) = ap (◌∷◌ n.fixed_weight) (fixed-lower i t ns)

  fixed-raise : (ns : List (Node A)) → fixed_of (map raise ns) ≡ fixed_of ns
  fixed-raise [] = refl
  fixed-raise (n ∷ ns) = ap (◌∷◌ n.fixed_weight) (fixed-raise ns)

  total-eq-sum :
      (c : ℕ) (ns : List (Node A))
      → c + sum (fixed_of ns) < 2 ^ 32
      → total_from c ns ≡ c + sum (fixed_of ns)
  unfolding total_from
  total-eq-sum c [] h = omega arith
  total-eq-sum c (n ∷ ns) h =
      let e : add_weight c n.fixed_weight ≡ c + n.fixed_weight = omega arith in
      rw e (total-eq-sum (c + n.fixed_weight) ns (omega arith) ∙ omega arith)

  -- The nodes keep their fixed weights `ws`, and follow the counts `cs`.
  pub record Tracks (ws : List ℕ) (ns : List (Node A)) (cs : List ℕ) : Type 0 where
    pub fixed : fixed_of ns ≡ ws
    pub follows : Follows (sum ws) (sum cs) ns cs

  select_node-Tracks :
      (ws : List ℕ) (ns : List (Node A)) (cs : List ℕ)
      → sum ws * sum ws + sum ws < bias
      → sum cs < sum ws
      → Tracks ws ns cs
      → let (ns', selected) = select_node ns in
        Tracks ws ns' (counted selected cs) × (sum (counted selected cs) ≡ sum cs + 1)
  unfolding select_node
  select_node-Tracks ws ns cs small p v =
      let t = sum ws in
      let k = sum cs in
      let raised = map raise ns in
      let up = raise-Follows t k ns cs small p v.follows in
      let fixed : fixed_of raised ≡ ws = fixed-raise ns ∙ v.fixed in
      let total = sum-Follows t (k + 1) raised cs up in
      let weight : sum (fixed_of raised) ≡ t = ap sum fixed in
      let above : length (weights_of raised) * bias < sum (weights_of raised) = omega (
        arith,
        total ∙ ap (λ s. length raised * bias + (k + 1) * s) weight,
        length-map raised (λ n. n.current_weight),
      ) in
      let (i, found, inside, h) = scan-finds bias ns above in
      let total_weight : total_from bias raised ≡ bias + t =
        total-eq-sum bias raised (omega (arith, weight)) ∙ omega (arith, weight) in
      let more : sum (bump i cs) ≡ k + 1 = sum-bump i cs (
        omega (
          arith,
          inside,
          length-map raised (λ n. n.current_weight),
          length-Follows t (k + 1) raised cs up,
        )) in
      rw (found, select_node, scan-raise ns 0 none 0, total_weight)
        (
          record {
            fixed = fixed-lower i (bias + t) raised ∙ fixed;
            follows = rw more (lower-Follows t (k + 1) i raised cs small (omega arith) up h);
          },
          more,
        )

  -- The counts of the selections in `n` calls, added to `cs`.
  pub tally : ℕ → List (Node A) → List ℕ → List ℕ
  tally zero ns cs = cs
  tally (suc n) ns cs = let (ns', selected) = select_node ns in tally n ns' (counted selected cs)

  tally-Tracks :
      (ws : List ℕ) (n : ℕ) (ns : List (Node A)) (cs : List ℕ)
      → sum ws * sum ws + sum ws < bias
      → sum cs + n ≡ sum ws
      → Tracks ws ns cs
      → (ns' : List (Node A)) × Tracks ws ns' (tally n ns cs) × (sum (tally n ns cs) ≡ sum ws)
  unfolding tally
  tally-Tracks ws zero ns cs small p v = (ns, v, omega arith)
  tally-Tracks ws (suc n) ns cs small p v =
      let (v', more) = select_node-Tracks ws ns cs small (omega arith) v in
      tally-Tracks ws n _ _ small (omega (arith, more)) v'

  within :
      (t : ℕ) (ns : List (Node A)) (cs : List ℕ)
      → 0 < t
      → Follows t t ns cs
      → Below cs (fixed_of ns)
  within t [] [] p f = tt
  within t [] (c ∷ cs) p f = elim f [ ]
  within t (n ∷ ns) [] p f = elim f [ ]
  within t (n ∷ ns) (c ∷ cs) p ((e, b, w), f) =
      (at_most t n.current_weight c n.fixed_weight p e b, within t ns cs p f)

  new-Follows :
      (t : ℕ) (nodes : List A) (ws : List ℕ)
      → 0 < t
      → All (λ w. w ≤ t) ws
      → length nodes ≡ length ws
      → Follows t 0 (new_nodes nodes ws) (replicate (length ws) 0)
        × (fixed_of (new_nodes nodes ws) ≡ ws)
  unfolding new_nodes
  new-Follows t [] [] p a e = (tt, refl)
  new-Follows t [] (w ∷ ws) p a e = absurd (omega arith)
  new-Follows t (x ∷ nodes) [] p a e = absurd (omega arith)
  new-Follows t (x ∷ nodes) (w ∷ ws) p (h, a) e =
      let (f, fixed) = new-Follows t nodes ws p a (omega arith) in
      (((omega arith, omega arith, h), f), ap (◌∷◌ w) fixed)

  -- A new smooth weighted round robin, whose total weight is above 0 and so small that its square
  -- and it stay below 2 ^ 31, selects each node exactly as often as its weight says in as many
  -- calls as the total weight.
  pub fair_shares :
      (nodes : List A) (ws : List ℕ)
      → length nodes ≡ length ws
      → 0 < sum ws
      → sum ws * sum ws + sum ws < bias
      → tally (sum ws) (new_nodes nodes ws) (replicate (length ws) 0) ≡ ws
  fair_shares nodes ws e p small =
      let t = sum ws in
      let zeros : List ℕ = replicate (length ws) 0 in
      let none_yet : sum zeros ≡ 0 = sum-replicate (length ws) in
      let (f, fixed) = new-Follows t nodes ws p (parts_below t ws (omega arith)) e in
      let start : Tracks ws (new_nodes nodes ws) zeros = record {
        fixed = fixed;
        follows = rw none_yet f;
      } in
      let (ns', v, s) =
        tally-Tracks ws t (new_nodes nodes ws) zeros small (omega (arith, none_yet)) start in
      let last : Follows t t ns' (tally t (new_nodes nodes ws) zeros) =
        subst (λ k. Follows t k ns' (tally t (new_nodes nodes ws) zeros)) s v.follows in
      let below : Below (tally t (new_nodes nodes ws) zeros) ws =
        subst (λ l. Below (tally t (new_nodes nodes ws) zeros) l) v.fixed (within t ns' _ p last) in
      Below-eq _ ws below s
