-- ===== src/ConsistentHash/Moves.antt =====
-- Which keys move when nodes are added or removed.
use mathlib.Core.Path.{subst}
use galay_utils.Prelude.{
  ℕ, zero, suc, ◌≤◌, ◌+◌, ◌*◌, ◌%◌, ◌^◌, ◌<◌, ◌≡◌, ◌≢◌, refl, ap, sym, ◌∙◌, arith, List, [], ◌∷◌,
  ◌++◌, Option, none, some, length, leb, Bool-cases, Option-cases, inl, inr, ◌⊎◌, get_elem?, All,
}
use galay_utils.ConsistentHash.{
  NodeConfig, PhysicalNode, ConsistentHash, init_status, add_node, erase_points, remove_node,
  get_node, virtual_key, find_place, erase_place,
}
use galay_utils.ConsistentHash.Ring.{
  successor-erase_points, first_from, first, successor, configuration, TakesOver,
  get_node-successor, add_points-TakesOver,
}

-- Every entry of the ring leads to a node of the store.
abbrev pub IsValid : ConsistentHash → Type 0
IsValid c = All (λ e. e.1 < length c.store) c.ring

first_from-All :
    (P : ℕ × ℕ → Type 0) (k : ℕ) (ring : List (ℕ × ℕ)) (e : ℕ × ℕ)
    → All P ring
    → first_from k ring ≡ some e
    → P e
unfolding first_from
first_from-All P k [] e v h = ground arith
first_from-All P k ((g, q) ∷ ring) e (a, v) h = elim (Bool-cases (leb k g)) [
  | inl p ↦ let same : (g, q) ≡ e = ground (arith, p) in subst P same a
  | inr p ↦ first_from-All P k ring e v (ground (arith, p))
]

successor-All :
    (P : ℕ × ℕ → Type 0) (k : ℕ) (ring : List (ℕ × ℕ)) (e : ℕ × ℕ)
    → All P ring
    → successor k ring ≡ some e
    → P e
unfolding successor first
successor-All P k [] e v h = ground (arith, first_from-All P k [] e v)
successor-All P k (x ∷ ring) e (a, v) h = elim (Option-cases (first_from k (x ∷ ring))) [
  | inl q ↦ let same : x ≡ e = ground (arith, q) in subst P same a
  | inr (y, q) ↦
      let same : y ≡ e = ground (arith, q) in
      first_from-All P k (x ∷ ring) e (a, v) (q ∙ ap some same)
]

get_elem?-append :
    (xs ys : List PhysicalNode) (i : ℕ) → i < length xs → get_elem? (xs ++ ys) i ≡ get_elem? xs i
get_elem?-append [] ys i h = absurd (omega arith)
get_elem?-append (x ∷ xs) ys zero h = refl
get_elem?-append (x ∷ xs) ys (suc i) h = get_elem?-append xs ys i (omega arith)

get_elem?-last :
    (xs : List PhysicalNode) (n : PhysicalNode) → get_elem? (xs ++ (n ∷ [])) (length xs) ≡ some n
get_elem?-last [] n = refl
get_elem?-last (x ∷ xs) n = get_elem?-last xs n

-- How many points `removeNode` takes off the ring: those of the node's weight, or none.
unfoldable pub points_of : List ℕ → ConsistentHash → ℕ
points_of id c = elim (find_place id c.nodes) [
  | none ↦ 0
  | some place ↦ elim (get_elem? c.store place) [
    | none ↦ 0
    | some n ↦ c.virtual_nodes * n.config.weight % 2 ^ 64
  ]
]

module _ (hash_func : List ℕ → ℕ) where
  -- Adding a node moves keys to that node only: the node that a key leads to afterwards is the one it
  -- led to before, or the added one.
  pub add_node_moves :
      (config : NodeConfig) (key : List ℕ) (c : ConsistentHash)
      → IsValid c
      → ((get_node hash_func key (add_node hash_func config c)).1 ≡ (get_node hash_func key c).1)
        ⊎ ((get_node hash_func key (add_node hash_func config c)).1 ≡ some config)
  unfolding add_node configuration TakesOver
  add_node_moves config key c v =
      let k = hash_func key in
      let n : PhysicalNode = record { config = config; status = init_status } in
      let store = c.store ++ (n ∷ []) in
      let vnodes = c.virtual_nodes * config.weight % 2 ^ 64 in
      let after = get_node-successor hash_func key (add_node hash_func config c) in
      let before = get_node-successor hash_func key c in
      elim (add_points-TakesOver hash_func k config.id (length c.store) vnodes 0 c.ring) [
        | inr (h, q) ↦ inr (
            after
            ∙ ap (λ o. configuration o store) q
            ∙ rw (configuration, get_elem?-last c.store n) refl)
        | inl q ↦ inl (
            after ∙ ap (λ o. configuration o store) q ∙ same (successor k c.ring) refl ∙ sym before)
      ]
    where
      same :
          (o : Option (ℕ × ℕ))
          → successor (hash_func key) c.ring ≡ o
          → configuration o (c.store ++ (record { config = config; status = init_status } ∷ []))
            ≡ configuration o c.store
      same none e = refl
      same (some (h, p)) e =
          let there : p < length c.store =
            successor-All (λ e. e.1 < length c.store) (hash_func key) c.ring (h, p) v e in
          rw
            (
              configuration,
              get_elem?-append c.store (record { config = config; status = init_status } ∷ []) p
                  there,
            )
            refl

  -- Removing a node moves only the keys that led to a point of its own: a key whose entry of the ring
  -- stands at none of the hashes of the node's virtual keys, of which there are as many as its weight
  -- times the number of virtual nodes, leads to the same node as before.
  pub remove_node_keeps :
      (id key : List ℕ) (c : ConsistentHash) (h p : ℕ)
      → successor (hash_func key) c.ring ≡ some (h, p)
      → ((i : ℕ) → i < points_of id c → h ≢ hash_func (virtual_key id i))
      → (get_node hash_func key (remove_node hash_func id c)).1 ≡ (get_node hash_func key c).1
  unfolding remove_node points_of
  remove_node_keeps id key c h p e d =
      let after = get_node-successor hash_func key (remove_node hash_func id c) in
      let before = get_node-successor hash_func key c in
      let k = hash_func key in
      elim (Option-cases (find_place id c.nodes)) [
        | inl q ↦ rw (remove_node, q) refl
        | inr (place, q) ↦ elim (Option-cases (get_elem? c.store place)) [
          | inl r ↦ rw (remove_node, q, r) refl
          | inr (n, r) ↦
              let vnodes = c.virtual_nodes * n.config.weight % 2 ^ 64 in
              let c' : ConsistentHash = record c {
                ring = erase_points hash_func id vnodes 0 c.ring;
                nodes = erase_place id c.nodes;
              } in
              let count : points_of id c ≡ vnodes = rw (points_of, q, r) refl in
              let apart : (i : ℕ) → 0 ≤ i → i < 0 + vnodes → h ≢ hash_func (virtual_key id i) =
                λ i _ below. d i (omega (arith, count, below)) in
              let kept = successor-erase_points hash_func k h p id vnodes 0 c.ring e apart in
              rw (remove_node, q, r)
                (get_node-successor hash_func key c'
                  ∙ ap (λ o. configuration o c.store) (kept ∙ sym e)
                  ∙ sym before)
        ]
      ]
