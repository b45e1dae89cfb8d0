-- ===== src/Balancer/RoundRobin.antt =====
-- Round robin: what a row of calls returns.
use galay_utils.Prelude.{
  ℕ, zero, suc, ◌+◌, ◌-◌, ◌%◌, ◌^◌, ◌≤◌, ◌<◌, ◌≡◌, refl, ap, ap₂, sym, ◌∙◌, arith, List, [], ◌∷◌,
  ◌++◌, Option, some, map, length, get_elem?, take, drop, get_or, take_whole, length-drop,
}
use native.Mathlib.Nat.{mod-eq_of_lt, mod-add-mod}
use galay_utils.Prelude.Arrays.{
  mod_once, tabulate, tabulate-ext, tabulate-add, take-eq-tabulate, take-drop-eq-tabulate,
}
use galay_utils.Balancer.{RoundRobinLoadBalancer, select_round_robin}

wraps : (j n k : ℕ) → j < n → k < j → k ≡ (j + (n - j + k)) % n
wraps j n k h q = ground (arith, mod_once (j + (n - j + k)) n (omega arith))

module _ {A : Type 0} where
  -- The results of `n` calls in a row.
  pub selects : ℕ → RoundRobinLoadBalancer A → List (Option A)
  selects zero b = []
  selects (suc n) b = let (b', x) = select_round_robin b in x ∷ selects n b'

  same_due :
      (l : List A) {i j : ℕ} → i ≡ j → get_elem? l (i % length l) ≡ get_elem? l (j % length l)
  same_due l e = ap (λ i. get_elem? l (i % length l)) e

  selects-eq-tabulate :
      (n : ℕ) (b : RoundRobinLoadBalancer A)
      → 0 < length b.nodes
      → b.index + n ≤ 2 ^ 32
      → selects n b ≡ tabulate n (λ i. get_elem? b.nodes ((b.index + i) % length b.nodes))
  unfolding selects select_round_robin
  selects-eq-tabulate zero b h p = refl
  selects-eq-tabulate (suc zero) b h p = ground arith
  selects-eq-tabulate (suc (suc n)) b h p =
      let b' : RoundRobinLoadBalancer A = record b { index = b.index + 1 } in
      let first : select_round_robin b ≡ (b', get_elem? b.nodes (b.index % length b.nodes)) =
        ground arith in
      rw first (
        ap₂ ◌∷◌ (same_due b.nodes (omega arith)) (
          selects-eq-tabulate (suc n) b' h (omega arith)
          ∙ tabulate-ext (suc n) (λ i. get_elem? b.nodes ((b.index + 1 + i) % length b.nodes))
              (λ i. get_elem? b.nodes ((b.index + (i + 1)) % length b.nodes))
              (λ i q. same_due b.nodes (omega arith))))

  get_elem?-eq-get_or :
      (l : List A) (i : ℕ) (d : A) → i < length l → get_elem? l i ≡ some (get_or l i d)
  get_elem?-eq-get_or [] i d h = absurd (omega arith)
  get_elem?-eq-get_or (x ∷ l) zero d h = refl
  get_elem?-eq-get_or (x ∷ l) (suc i) d h = get_elem?-eq-get_or l i d (omega arith)

  map-tabulate :
      {B : Type 0} (n : ℕ) (f : ℕ → A) (g : A → B)
      → map g (tabulate n f) ≡ tabulate n (λ i. g (f i))
  map-tabulate zero f g = refl
  map-tabulate (suc n) f g = ap (◌∷◌ (g (f 0))) (map-tabulate n (λ i. f (i + 1)) g)

  rotation :
      (l : List A) (j : ℕ)
      → j < length l
      → tabulate (length l) (λ i. get_elem? l ((j + i) % length l))
        ≡ map some (drop j l ++ take j l)
  rotation [] j h = absurd (omega arith)
  rotation (d ∷ xs) j h =
      let l = d ∷ xs in
      let n = length l in
      let rest = n - j in
      let at : ℕ → A = λ i. get_or l ((j + i) % n) d in
      let behind : drop j l ≡ tabulate rest at =
        sym (take_whole rest (drop j l) (omega (arith, length-drop j l)))
        ∙ take-drop-eq-tabulate l j rest d (omega arith)
        ∙ tabulate-ext rest (λ k. get_or l (j + k) d) at
            (λ k q. ap (λ i. get_or l i d) (sym (mod-eq_of_lt (omega arith)))) in
      let before : take j l ≡ tabulate j (λ k. at (rest + k)) =
        take-eq-tabulate l j d (omega arith)
        ∙ tabulate-ext j (λ k. get_or l k d) (λ k. at (rest + k))
            (λ k q. ap (λ i. get_or l i d) (wraps j n k h q)) in
      let split : n ≡ rest + j = omega arith in
      let all : drop j l ++ take j l ≡ tabulate n at =
        rw (behind, before) (sym (ap (λ m. tabulate m at) split ∙ tabulate-add rest j at)) in
      tabulate-ext n (λ i. get_elem? l ((j + i) % n)) (λ i. some (at i))
        (λ i q. get_elem?-eq-get_or l ((j + i) % n) d (omega arith))
      ∙ sym (map-tabulate n at some)
      ∙ ap (map some) (sym all)

  -- Before the 32-bit counter wraps, as many calls in a row as there are nodes return each node
  -- once, in the order of the list, from the node that is due on.
  pub round_lem :
      (b : RoundRobinLoadBalancer A)
      → 0 < length b.nodes
      → b.index + length b.nodes ≤ 2 ^ 32
      → let due = b.index % length b.nodes in
        selects (length b.nodes) b ≡ map some (drop due b.nodes ++ take due b.nodes)
  round_lem b h p =
      let due = b.index % length b.nodes in
      selects-eq-tabulate (length b.nodes) b h p
      ∙ tabulate-ext (length b.nodes) (λ i. get_elem? b.nodes ((b.index + i) % length b.nodes))
          (λ i. get_elem? b.nodes ((due + i) % length b.nodes))
          (λ i q. ap (get_elem? b.nodes) (sym (mod-add-mod b.index (length b.nodes) i)))
      ∙ rotation b.nodes due (omega arith)
