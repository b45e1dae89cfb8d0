-- ===== src/ConsistentHash/Clockwise.antt =====
-- The ring read clockwise from a hash, and that its hashes ascend.
use galay_utils.Prelude.{
  ℕ, zero, suc, ◌+◌, ◌≤◌, ◌<◌, ◌≡◌, refl, ap, sym, arith, true, List, [], ◌∷◌, ◌++◌, leb, ltb, ◌==◌,
  Bool-cases, Option-cases, inl, inr, if◌then◌else◌, All, get_elem?,
}
use galay_utils.ConsistentHash.{
  NodeConfig, ConsistentHash, lower_bound, ring_set, ring_erase, add_points, erase_points, add_node,
  remove_node, find_place, virtual_key,
}

-- The ring's hashes ascend.
unfoldable pub IsSorted : List (ℕ × ℕ) → Type 0
IsSorted [] = Unit
IsSorted ((h, _) ∷ ring) = All (λ e. h < e.0) ring × IsSorted ring

-- The entries at or above a hash, and those below it, each in order
unfoldable pub from : ℕ → List (ℕ × ℕ) → List (ℕ × ℕ)
from k [] = []
from k ((h, p) ∷ ring) = let rest = from k ring in if leb k h then (h, p) ∷ rest else rest

unfoldable pub below : ℕ → List (ℕ × ℕ) → List (ℕ × ℕ)
below k [] = []
below k ((h, p) ∷ ring) = let rest = below k ring in if leb k h then rest else (h, p) ∷ rest

-- One round on the ring, from a hash on
abbrev pub clockwise : ℕ → List (ℕ × ℕ) → List (ℕ × ℕ)
clockwise k ring = from k ring ++ below k ring

from_all :
    (k h : ℕ) (ring : List (ℕ × ℕ))
    → k ≤ h
    → All (λ e. h < e.0) ring
    → (from k ring ≡ ring) × (below k ring ≡ [])
unfolding from below
from_all k h [] q a = (refl, refl)
from_all k h ((g, p) ∷ ring) q (b, a) =
    let ih = from_all k h ring q a in
    let above : leb k g ≡ true = ground arith in rw above (ap (λ r. (g, p) ∷ r) ih.0, ih.1)

-- A sorted ring is what stands below a hash, followed by what `lower_bound` gives.
pub sorted_split :
    (k : ℕ) (ring : List (ℕ × ℕ))
    → IsSorted ring
    → (lower_bound k ring ≡ from k ring) × (below k ring ++ from k ring ≡ ring)
unfolding IsSorted from below lower_bound
sorted_split k [] s = (refl, refl)
sorted_split k ((h, p) ∷ ring) (a, s) = elim (Bool-cases (leb k h)) [
  | inl q ↦ let all = from_all k h ring (ground arith) a in rw (q, all.0, all.1) (refl, refl)
  | inr q ↦ let ih = sorted_split k ring s in rw q (ih.0, ap (λ r. (h, p) ∷ r) ih.1)
]

above_lower :
    (h g : ℕ) (ring : List (ℕ × ℕ)) → h < g → All (λ e. g < e.0) ring → All (λ e. h < e.0) ring
above_lower h g [] q a = tt
above_lower h g ((f, p) ∷ ring) q (b, a) = (omega (arith, b), above_lower h g ring q a)

ring_set-All :
    (g h p : ℕ) (ring : List (ℕ × ℕ))
    → g < h
    → All (λ e. g < e.0) ring
    → All (λ e. g < e.0) (ring_set h p ring)
unfolding ring_set
ring_set-All g h p [] q a = (q, tt)
ring_set-All g h p ((f, r) ∷ ring) q (b, a) = elim (Bool-cases (ltb h f)) [
  | inl s ↦ rw s (q, (b, a))
  | inr s ↦ elim (Bool-cases (f == h)) [
    | inl t ↦ rw (s, t) (q, a)
    | inr t ↦ rw (s, t) (b, ring_set-All g h p ring q a)
  ]
]

ring_set-IsSorted : (h p : ℕ) (ring : List (ℕ × ℕ)) → IsSorted ring → IsSorted (ring_set h p ring)
unfolding IsSorted ring_set
ring_set-IsSorted h p [] s = (tt, tt)
ring_set-IsSorted h p ((g, r) ∷ ring) (a, s) = elim (Bool-cases (ltb h g)) [
  | inl q ↦
      let before : h < g = ground arith in rw q ((before, above_lower h g ring before a), (a, s))
  | inr q ↦ elim (Bool-cases (g == h)) [
    | inl t ↦ let same : g ≡ h = ground arith in rw (q, t) (rw (sym same) a, s)
    | inr t ↦
        let after : g < h = ground arith in
        rw (q, t) (ring_set-All g h p ring after a, ring_set-IsSorted h p ring s)
  ]
]

ring_erase-All :
    (g h : ℕ) (ring : List (ℕ × ℕ))
    → All (λ e. g < e.0) ring
    → All (λ e. g < e.0) (ring_erase h ring)
unfolding ring_erase
ring_erase-All g h [] a = tt
ring_erase-All g h ((f, r) ∷ ring) (b, a) = elim (Bool-cases (f == h)) [
  | inl t ↦ rw t a
  | inr t ↦ rw t (b, ring_erase-All g h ring a)
]

ring_erase-IsSorted : (h : ℕ) (ring : List (ℕ × ℕ)) → IsSorted ring → IsSorted (ring_erase h ring)
unfolding IsSorted ring_erase
ring_erase-IsSorted h [] s = tt
ring_erase-IsSorted h ((g, r) ∷ ring) (a, s) = elim (Bool-cases (g == h)) [
  | inl t ↦ rw t s
  | inr t ↦ rw t (ring_erase-All g h ring a, ring_erase-IsSorted h ring s)
]

module _ (hash_func : List ℕ → ℕ) where
  add_points-IsSorted :
      (id : List ℕ) (place left i : ℕ) (ring : List (ℕ × ℕ))
      → IsSorted ring
      → IsSorted (add_points hash_func id place left i ring)
  unfolding add_points
  add_points-IsSorted id place zero i ring s = s
  add_points-IsSorted id place (suc left) i ring s =
      let h = hash_func (virtual_key id i) in
      add_points-IsSorted id place left (i + 1) (ring_set h place ring)
        (ring_set-IsSorted h place ring s)

  -- `addNode` keeps the hashes ascending.
  pub add_node-IsSorted :
      (config : NodeConfig) (c : ConsistentHash)
      → IsSorted c.ring
      → IsSorted (add_node hash_func config c).ring
  unfolding add_node
  add_node-IsSorted config c s = add_points-IsSorted config.id _ _ 0 c.ring s

  erase_points-IsSorted :
      (id : List ℕ) (left i : ℕ) (ring : List (ℕ × ℕ))
      → IsSorted ring
      → IsSorted (erase_points hash_func id left i ring)
  unfolding erase_points
  erase_points-IsSorted id zero i ring s = s
  erase_points-IsSorted id (suc left) i ring s =
      let h = hash_func (virtual_key id i) in
      erase_points-IsSorted id left (i + 1) (ring_erase h ring) (ring_erase-IsSorted h ring s)

  -- `removeNode` keeps the hashes ascending.
  pub remove_node-IsSorted :
      (id : List ℕ) (c : ConsistentHash)
      → IsSorted c.ring
      → IsSorted (remove_node hash_func id c).ring
  unfolding remove_node
  remove_node-IsSorted id c s = elim (Option-cases (find_place id c.nodes)) [
    | inl q ↦ rw (remove_node, q) s
    | inr (place, q) ↦ elim (Option-cases (get_elem? c.store place)) [
      | inl r ↦ rw (remove_node, q, r) s
      | inr (n, r) ↦ rw (remove_node, q, r) (erase_points-IsSorted id _ 0 c.ring s)
    ]
  ]
