-- ===== src/ConsistentHash/Ring.antt =====
-- What a lookup on the ring gives, before and after nodes are added and removed.
use galay_utils.Prelude.{
  ℕ, zero, suc, ◌≤◌, ◌<◌, ◌+◌, ◌≡◌, ◌≢◌, refl, ap, ◌∙◌, arith, List, [], ◌∷◌, Option, none, some,
  leb, if◌then◌else◌, Option-cases, inl, inr, ◌⊎◌, get_elem?,
}
use galay_utils.ConsistentHash.{
  NodeConfig, PhysicalNode, ConsistentHash, ring_set, ring_erase, lower_bound, wrap, add_points,
  erase_points, get_node, virtual_key, use_entry,
}

-- The first entry not below a hash
unfoldable pub first_from : ℕ → List (ℕ × ℕ) → Option (ℕ × ℕ)
first_from hash [] = none
first_from hash ((h, p) ∷ ring) =
    let rest = first_from hash ring in if leb hash h then some (h, p) else rest

unfoldable pub first : List (ℕ × ℕ) → Option (ℕ × ℕ)
first [] = none
first (e ∷ _) = some e

-- The entry that a hash leads to: the first not below it, or the first of all
unfoldable pub successor : ℕ → List (ℕ × ℕ) → Option (ℕ × ℕ)
successor hash ring = elim (first_from hash ring) [ none ↦ first ring | some e ↦ some e ]

first-lower_bound :
    (hash : ℕ) (ring : List (ℕ × ℕ)) → first (lower_bound hash ring) ≡ first_from hash ring
unfolding first lower_bound first_from
first-lower_bound hash [] = refl
first-lower_bound hash ((h, p) ∷ ring) = ground (arith, first-lower_bound hash ring)

first-wrap :
    (it ring : List (ℕ × ℕ))
    → first (wrap it ring) ≡ elim (first it) [ none ↦ first ring | some e ↦ some e ]
unfolding first
first-wrap [] ring = refl
first-wrap (e ∷ it) ring = refl

-- What the store holds at an entry
unfoldable pub configuration : Option (ℕ × ℕ) → List PhysicalNode → Option NodeConfig
configuration none store = none
configuration (some (_, place)) store = elim (get_elem? store place) [
  | none ↦ none
  | some n ↦ some n.config
]

use_entry-first :
    (it : List (ℕ × ℕ)) (c : ConsistentHash) → (use_entry it c).1 ≡ configuration (first it) c.store
unfolding use_entry configuration first
use_entry-first [] c = refl
use_entry-first ((h, place) ∷ it) c = elim (Option-cases (get_elem? c.store place)) [
  | inl q ↦ rw (use_entry, configuration, q) refl
  | inr (n, q) ↦ rw (use_entry, configuration, q) refl
]

module _ (hash_func : List ℕ → ℕ) where
  pub get_node-successor :
      (key : List ℕ) (c : ConsistentHash)
      → (get_node hash_func key c).1 ≡ configuration (successor (hash_func key) c.ring) c.store
  unfolding get_node successor
  get_node-successor key c =
      let it = lower_bound (hash_func key) c.ring in
      use_entry-first (wrap it c.ring) c
      ∙ ap (λ o. configuration o c.store)
          (first-wrap it c.ring ∙ ap or_first (first-lower_bound (hash_func key) c.ring))
    where
      or_first : Option (ℕ × ℕ) → Option (ℕ × ℕ)
      or_first o = elim o [ none ↦ first c.ring | some e ↦ some e ]

  -- A new entry takes a hash over, or leaves it where it was.
  first_from-ring_set :
      (k h p : ℕ) (ring : List (ℕ × ℕ))
      → (first_from k (ring_set h p ring) ≡ first_from k ring)
        ⊎ (first_from k (ring_set h p ring) ≡ some (h, p))
  unfolding first_from ring_set
  first_from-ring_set k h p [] = ground arith
  first_from-ring_set k h p ((g, q) ∷ ring) = ground (arith, first_from-ring_set k h p ring)

  first-ring_set :
      (h p : ℕ) (ring : List (ℕ × ℕ))
      → (first (ring_set h p ring) ≡ first ring) ⊎ (first (ring_set h p ring) ≡ some (h, p))
  unfolding first ring_set
  first-ring_set h p [] = inr refl
  first-ring_set h p ((g, q) ∷ ring) = ground arith

  unfoldable pub TakesOver : ℕ → ℕ → List (ℕ × ℕ) → List (ℕ × ℕ) → Type 0
  TakesOver k p ring ring' =
      (successor k ring' ≡ successor k ring) ⊎ ((h : ℕ) × (successor k ring' ≡ some (h, p)))

  ring_set-TakesOver : (k h p : ℕ) (ring : List (ℕ × ℕ)) → TakesOver k p ring (ring_set h p ring)
  unfolding TakesOver successor
  ring_set-TakesOver k h p ring = elim (first_from-ring_set k h p ring) [
    | inr q ↦ inr (h, rw (successor, q) refl)
    | inl q ↦ elim (Option-cases (first_from k ring)) [
      | inr (e, r) ↦ inl (rw (successor, q, r) refl)
      | inl r ↦ elim (first-ring_set h p ring) [
        | inl s ↦ inl (rw (successor, q, r) s)
        | inr s ↦ inr (h, rw (successor, q, r) s)
      ]
    ]
  ]

  pub add_points-TakesOver :
      (k : ℕ) (id : List ℕ) (p left i : ℕ) (ring : List (ℕ × ℕ))
      → TakesOver k p ring (add_points hash_func id p left i ring)
  unfolding TakesOver add_points
  add_points-TakesOver k id p zero i ring = inl refl
  add_points-TakesOver k id p (suc left) i ring =
      let h = hash_func (virtual_key id i) in
      elim (add_points-TakesOver k id p left (i + 1) (ring_set h p ring)) [
        | inr s ↦ inr s
        | inl s ↦ elim (ring_set-TakesOver k h p ring) [
          | inl r ↦ inl (s ∙ r)
          | inr (g, r) ↦ inr (g, s ∙ r)
        ]
      ]

  -- An entry stays in front of a hash when another is erased.
  first_from-ring_erase :
      (k g h p : ℕ) (ring : List (ℕ × ℕ))
      → first_from k ring ≡ some (h, p)
      → h ≢ g
      → first_from k (ring_erase g ring) ≡ some (h, p)
  unfolding first_from ring_erase
  first_from-ring_erase k g h p [] e d = ground arith
  first_from-ring_erase k g h p ((f, q) ∷ ring) e d =
      ground (arith, first_from-ring_erase k g h p ring, d)

  first_from-none :
      (k g : ℕ) (ring : List (ℕ × ℕ))
      → first_from k ring ≡ none
      → first_from k (ring_erase g ring) ≡ none
  unfolding first_from ring_erase
  first_from-none k g [] e = refl
  first_from-none k g ((f, q) ∷ ring) e = ground (arith, first_from-none k g ring)

  first-ring_erase :
      (g h p : ℕ) (ring : List (ℕ × ℕ))
      → first ring ≡ some (h, p)
      → h ≢ g
      → first (ring_erase g ring) ≡ some (h, p)
  unfolding first ring_erase
  first-ring_erase g h p [] e d = ground arith
  first-ring_erase g h p ((f, q) ∷ ring) e d = ground (arith, d)

  successor-ring_erase :
      (k g h p : ℕ) (ring : List (ℕ × ℕ))
      → successor k ring ≡ some (h, p)
      → h ≢ g
      → successor k (ring_erase g ring) ≡ some (h, p)
  unfolding successor
  successor-ring_erase k g h p ring e d = elim (Option-cases (first_from k ring)) [
    | inl q ↦
        rw (successor, first_from-none k g ring q)
          (first-ring_erase g h p ring (ground (arith, q, e)) d)
    | inr (x, q) ↦
        let same : x ≡ (h, p) = ground (arith, q, e) in
        rw (successor, first_from-ring_erase k g h p ring (q ∙ ap some same) d) refl
  ]

  pub successor-erase_points :
      (k h p : ℕ) (id : List ℕ) (left i : ℕ) (ring : List (ℕ × ℕ))
      → successor k ring ≡ some (h, p)
      → ((j : ℕ) → i ≤ j → j < i + left → h ≢ hash_func (virtual_key id j))
      → successor k (erase_points hash_func id left i ring) ≡ some (h, p)
  unfolding erase_points
  successor-erase_points k h p id zero i ring e d = e
  successor-erase_points k h p id (suc left) i ring e d =
      let g = hash_func (virtual_key id i) in
      successor-erase_points k h p id left (i + 1) (ring_erase g ring)
        (successor-ring_erase k g h p ring e (d i (omega arith) (omega arith)))
        (λ j above below. d j (omega (arith, above)) (omega (arith, below)))
