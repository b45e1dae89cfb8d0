-- ===== src/Huffman/Build.antt =====
-- The builder joins all trees into one, whose codes are free of prefixes.
use mathlib.Core.Path.{subst}
use galay_utils.Prelude.{
  ℕ, zero, suc, ◌+◌, ◌≤◌, ◌<◌, ◌≡◌, refl, sym, ◌∙◌, arith, Bool, false, ◌||◌, List, [], ◌∷◌, some,
  ◌==◌, length,
}
use galay_utils.Huffman.{
  HuffmanTable, HuffmanCode, HuffmanNode, leaf, node, join, push_node, fill_queue, merge, build,
  find_symbol, find_code, has_symbol, empty_table, generate_codes,
}
use galay_utils.Huffman.Table.{IsFree, Fresh}
use galay_utils.Huffman.Codes.{joins, in_tree, code_at, generate_codes-Coded, generate_codes-some}

-- The leaves of the trees in the queue
unfoldable pub weight : List HuffmanNode → ℕ
weight [] = 0
weight (n ∷ queue) = suc (joins n) + weight queue

unfoldable pub in_queue : ℕ → List HuffmanNode → Bool
in_queue k [] = false
in_queue k (n ∷ queue) = in_tree k n || in_queue k queue

unfoldable pub has_frequency : ℕ → List (ℕ × ℕ) → Bool
has_frequency k [] = false
has_frequency k ((s, _) ∷ frequencies) = s == k || has_frequency k frequencies

weight-push_node :
    (n : HuffmanNode) (queue : List HuffmanNode)
    → weight (push_node n queue) ≡ suc (joins n) + weight queue
unfolding weight push_node
weight-push_node n [] = refl
weight-push_node n (m ∷ queue) = ground (arith, weight-push_node n queue)

length-push_node :
    (n : HuffmanNode) (queue : List HuffmanNode) → length (push_node n queue) ≡ suc (length queue)
unfolding push_node
length-push_node n [] = refl
length-push_node n (m ∷ queue) = ground (arith, length-push_node n queue)

in_queue-push_node :
    (k : ℕ) (n : HuffmanNode) (queue : List HuffmanNode)
    → in_queue k (push_node n queue) ≡ (in_tree k n || in_queue k queue)
unfolding in_queue push_node
in_queue-push_node k n [] = refl
in_queue-push_node k n (m ∷ queue) = ground (arith, in_queue-push_node k n queue)

joins-join : (l r : HuffmanNode) → joins (join l r) ≡ suc (joins l + joins r)
unfolding join joins
joins-join l r = refl

in_tree-join : (k : ℕ) (l r : HuffmanNode) → in_tree k (join l r) ≡ (in_tree k l || in_tree k r)
unfolding join in_tree
in_tree-join k l r = refl

empty-IsFree : IsFree empty_table
unfolding empty_table find_symbol find_code
empty-IsFree = record { own = λ s c h. ground arith; free = λ c c' s s' h h' p. ground arith }

empty-Fresh : (p : HuffmanCode) → Fresh p empty_table
unfolding empty_table find_symbol
empty-Fresh p = record { below = λ c s h q. ground arith; above = λ c s h q. ground arith }

-- Joining the two first trees of a queue that is not empty ends with one tree, as soon as the fuel is
-- no less than the number of trees but one; the tree has the leaves of all trees of the queue.
pub merge_lem :
    (fuel : ℕ) (queue : List HuffmanNode)
    → 0 < length queue
    → length queue ≤ suc fuel
    → (root : HuffmanNode) × (merge fuel queue ≡ root ∷ [])
      × (suc (joins root) ≡ weight queue)
      × ((k : ℕ) → in_tree k root ≡ in_queue k queue)
unfolding merge weight in_queue
merge_lem fuel [] pos h = absurd (omega arith)
merge_lem zero (n ∷ []) pos h = (n, refl, omega arith, λ k. ground arith)
merge_lem zero (n ∷ m ∷ queue) pos h = absurd (omega arith)
merge_lem (suc fuel) (n ∷ []) pos h = (n, refl, omega arith, λ k. ground arith)
merge_lem (suc fuel) (l ∷ r ∷ queue) pos h =
    let n = join l r in
    let longer = length-push_node n queue in
    let (root, one, leaves, same) =
      merge_lem fuel (push_node n queue) (omega (arith, longer)) (omega (arith, longer, h)) in
    (
      root,
      one,
      omega (arith, leaves, weight-push_node n queue, joins-join l r),
      λ k. ground (arith, same k, in_queue-push_node k n queue, in_tree-join k l r),
    )

module _ (k : ℕ) where
  fill_queue_lem :
      (frequencies : List (ℕ × ℕ)) (queue : List HuffmanNode)
      → (length (fill_queue frequencies queue) ≡ length frequencies + length queue)
        × (weight (fill_queue frequencies queue) ≡ length frequencies + weight queue)
        × (in_queue k (fill_queue frequencies queue)
            ≡ (has_frequency k frequencies || in_queue k queue))
  unfolding fill_queue has_frequency joins in_tree
  fill_queue_lem [] queue = (omega arith, omega arith, refl)
  fill_queue_lem ((s, f) ∷ frequencies) queue =
      let n = leaf s f in
      let (a, b, c) = fill_queue_lem frequencies (push_node n queue) in
      (
        omega (arith, a, length-push_node n queue),
        omega (arith, b, weight-push_node n queue),
        ground (arith, c, in_queue-push_node k n queue),
      )

-- The table of the codes of one tree, from the empty table
root-Coded :
    (root : HuffmanNode) {t : HuffmanTable}
    → joins root ≤ 255
    → generate_codes root 0 0 empty_table ≡ some t
    → IsFree t × ((k : ℕ) → has_symbol k t ≡ in_tree k root)
unfolding generate_codes joins empty_table find_symbol find_code has_symbol
root-Coded (leaf s f) fits h =
    let c =
      generate_codes-Coded (leaf s f) 0 1 empty-IsFree (empty-Fresh (code_at 0 1)) (omega arith)
        (omega arith) (omega arith) h in
    (c.free, λ k. ground (arith, c.symbols k))
root-Coded (node f l r) fits h =
    let c =
      generate_codes-Coded (node f l r) 0 0 empty-IsFree (empty-Fresh (code_at 0 0)) (omega arith)
        (omega (arith, fits)) (omega arith) h in
    (c.free, λ k. ground (arith, c.symbols k))

build-root :
    (f : ℕ × ℕ) (frequencies : List (ℕ × ℕ))
    → (root : HuffmanNode) × (build (f ∷ frequencies) ≡ generate_codes root 0 0 empty_table)
      × (suc (joins root) ≡ suc (length frequencies))
      × ((k : ℕ) → in_tree k root ≡ has_frequency k (f ∷ frequencies))
unfolding build weight in_queue
build-root f frequencies =
    let all = f ∷ frequencies in
    let sized = fill_queue_lem 0 all [] in
    let (root, one, leaves, same) =
      merge_lem (length all) (fill_queue all []) (omega (arith, sized.0))
        (omega (arith, sized.0)) in
    (
      root,
      rw (build, one) refl,
      omega (arith, leaves, sized.1),
      λ k. ground (arith, same k, (fill_queue_lem k all []).2),
    )

-- In a table that is built from the frequencies of at most 256 symbols no code begins another, each
-- code is that of its symbol and has from 1 to 32 bits, and exactly the symbols with a frequency have a
-- code.
pub build_lem :
    (frequencies : List (ℕ × ℕ)) {t : HuffmanTable}
    → length frequencies ≤ 256
    → build frequencies ≡ some t
    → IsFree t × ((k : ℕ) → has_symbol k t ≡ has_frequency k frequencies)
unfolding build fill_queue merge has_frequency has_symbol empty_table find_code
build_lem [] {t} fits h =
    let empty : empty_table ≡ t = ground arith in
    subst (λ u. IsFree u × ((k : ℕ) → has_symbol k u ≡ false)) empty (empty-IsFree, λ k. refl)
build_lem (f ∷ frequencies) fits h =
    let (root, made, leaves, same) = build-root f frequencies in
    let (free, symbols) = root-Coded root (omega (arith, leaves, fits)) (sym made ∙ h) in
    (free, λ k. symbols k ∙ same k)

-- For the frequencies of at most 32 symbols, building a table throws nothing.
pub build_succeeds :
    (frequencies : List (ℕ × ℕ))
    → length frequencies ≤ 32
    → (t : HuffmanTable) × (build frequencies ≡ some t)
unfolding build fill_queue merge
build_succeeds [] fits = (empty_table, refl)
build_succeeds (f ∷ frequencies) fits =
    let (root, made, leaves, same) = build-root f frequencies in
    let (t, h) = generate_codes-some root 0 0 empty_table (omega (arith, leaves, fits)) in
    (t, made ∙ h)
