-- ===== src/Trie/Words.antt =====
-- The tree as a set of words.
use galay_utils.Prelude.{
  ℕ, ◌<◌, ◌≡◌, ◌≢◌, refl, ap, ap₂, sym, ◌∙◌, arith, Bool, true, false, not, ◌&&◌, ◌||◌, List, [],
  ◌∷◌, Option, none, some, ◌==◌, if◌then◌else◌, length, Bool-cases, inl, inr, Option-cases,
  sub_size,
}
use galay_utils.Trie.{
  TrieNode, Children, trie_node, no_child, child, TrieTree, find_child, update, find_node,
  contains_from, add_node, add, contains, remove, remove_node, erase_child, is_empty, ends,
}
use galay_utils.Trie.Find.{seen, step, find-step, find_child-update, same_word, seen-add_node}

ends-seen : (o : Option TrieNode) → ends o ≡ (seen o).0
ends-seen none = refl
ends-seen (some (trie_node children e n)) = refl

-- After a word that is not empty was added, the tree contains it and what it contained before, and
-- nothing else.
pub add_lem :
    (word v : List ℕ) (t : TrieTree)
    → 0 < length word
    → contains v (add word t) ≡ (same_word word v || contains v t)
unfolding contains add
add_lem word v t h =
    let nonempty : (length word == 0) ≡ false = ground arith in
    let before = find_node v t.root in
    rw
      (
        nonempty,
        ends-seen (find_node v (add_node word t.root)),
        ends-seen before,
        seen-add_node word v t.root,
      )
      (elim (Bool-cases (same_word word v)) [ inl p ↦ rw p refl | inr p ↦ rw p refl ])

find_child-erase :
    (c d : ℕ) (children : Children)
    → find_child d (erase_child c children) ≡ (if c == d then none else find_child d children)
unfolding find_child erase_child
find_child-erase c d no_child = ground arith
find_child-erase c d (child k t rest) = ground (arith, find_child-erase c d rest)

false-≢-true : false ≢ true
false-≢-true h = ground arith

-- A node with no children at which no word ends contains nothing.
blank :
    (v : List ℕ) (children : Children) (n : ℕ)
    → is_empty children ≡ true
    → contains_from v (trie_node children false n) ≡ false
unfolding find_node find_child
blank v (child k t rest) n h = ground arith
blank [] no_child n h = refl
blank (d ∷ v) no_child n h = refl

contains-step :
    (d : ℕ) (v : List ℕ) (children : Children) (e : Bool) (n : ℕ)
    → contains_from (d ∷ v) (trie_node children e n) ≡ ends (step v (find_child d children))
contains-step d v children e n = ap ends (find-step d v children e n)

emptied :
    (v : List ℕ) (children : Children) (e : Bool) (n : ℕ)
    → (not e && is_empty children) ≡ true
    → contains_from v (trie_node children e n) ≡ false
emptied v children false n h = blank v children n h
emptied v children true n h = ground arith

module _ (c : ℕ) (w : List ℕ) (children : Children) (e : Bool) (n : ℕ) where
  missing :
      find_child c children ≡ none
      → remove_node (c ∷ w) (trie_node children e n) ≡ (trie_node children e n, false)
  unfolding remove_node
  missing p = rw (p, remove_node) refl

  kept :
      (t : TrieNode)
      → find_child c children ≡ some t
      → (remove_node w t).1 ≡ false
      → remove_node (c ∷ w) (trie_node children e n)
        ≡ (trie_node (update c (λ _. (remove_node w t).0) children) e n, false)
  unfolding remove_node
  kept t p q = rw (p, remove_node, q) refl

  erased :
      (t : TrieNode)
      → find_child c children ≡ some t
      → (remove_node w t).1 ≡ true
      → remove_node (c ∷ w) (trie_node children e n)
        ≡ (trie_node (erase_child c children) e n, not e && is_empty (erase_child c children))
  unfolding remove_node
  erased t p q = rw (p, remove_node, q) refl

  data Outcome : Type 0 where
    absent : find_child c children ≡ none → Outcome
    keeps : (t : TrieNode) → find_child c children ≡ some t → (remove_node w t).1 ≡ false → Outcome
    erases : (t : TrieNode) → find_child c children ≡ some t → (remove_node w t).1 ≡ true → Outcome

  outcome : Outcome
  outcome = elim (Option-cases (find_child c children)) [
    | inl p ↦ absent p
    | inr (t, p) ↦ elim (Bool-cases (remove_node w t).1) [
      | inl q ↦ erases t p q
      | inr q ↦ keeps t p q
    ]
  ]

  ends_at : contains_from [] (remove_node (c ∷ w) (trie_node children e n)).0 ≡ e
  unfolding find_node
  ends_at = elim outcome [
    | absent p ↦ rw (missing p) refl
    | keeps t p q ↦ rw (kept t p q) refl
    | erases t p q ↦ rw (erased t p q) refl
  ]

-- A node that its parent should drop contains nothing.
dropped :
    (w v : List ℕ) (t : TrieNode)
    → (remove_node w t).1 ≡ true
    → contains_from v (remove_node w t).0 ≡ false
dropped [] v (trie_node children true n) h =
    unfold remove_node in blank v children 0 (unfold remove_node in h)
dropped [] v (trie_node children false n) h = absurd (unfold remove_node in ground arith)
dropped (c ∷ w) v (trie_node children e n) h = elim (outcome c w children e n) [
  | absent p ↦ absurd (false-≢-true (sym (ap (λ r. r.1) (missing c w children e n p)) ∙ h))
  | keeps t p q ↦ absurd (false-≢-true (sym (ap (λ r. r.1) (kept c w children e n t p q)) ∙ h))
  | erases t p q ↦
      let eq = erased c w children e n t p q in
      rw eq (emptied v (erase_child c children) e n (sym (ap (λ r. r.1) eq) ∙ h))
]

not_there :
    (c d : ℕ) (children : Children)
    → find_child c children ≡ none
    → (v : List ℕ) (b : Bool)
    → let x = ends (step v (find_child d children)) in x ≡ (x && not (c == d && b))
not_there c d children p v b = elim (Bool-cases (c == d)) [
  | inr r ↦ rw r (ground arith)
  | inl r ↦ let eq : c ≡ d = ground arith in rw (← eq, p) refl
]

same_word-eq : (w v : List ℕ) → same_word w v ≡ true → w ≡ v
same_word-eq [] [] h = refl
same_word-eq [] (d ∷ v) h = absurd (false-≢-true h)
same_word-eq (c ∷ w) [] h = absurd (false-≢-true h)
same_word-eq (c ∷ w) (d ∷ v) h = elim (Bool-cases (same_word w v)) [
  | inl p ↦ ap₂ ◌∷◌ (ground arith) (same_word-eq w v p)
  | inr p ↦ ground arith
]

removed :
    (w v : List ℕ) (t : TrieNode)
    → contains_from v (remove_node w t).0 ≡ (contains_from v t && not (same_word w v))
removed [] [] (trie_node children true n) = unfold find_node remove_node in refl
removed [] [] (trie_node children false n) = unfold find_node remove_node in refl
removed [] (d ∷ v) (trie_node children true n) =
    unfold remove_node in
    rw (contains-step d v children false 0, contains-step d v children true n) (ground arith)
removed [] (d ∷ v) (trie_node children false n) = unfold remove_node in ground arith
removed (c ∷ w) [] (trie_node children e n) =
    ends_at c w children e n ∙ (unfold find_node in ground arith)
removed (c ∷ w) (d ∷ v) (trie_node children e n) =
    let before = contains-step d v children e n in
    elim (outcome c w children e n) [
      | absent p ↦
          rw (missing c w children e n p, before) (not_there c d children p v (same_word w v))
      | erases t p q ↦
          let ih = sym (removed w v t) ∙ dropped w v t q in
          rw
            (
              erased c w children e n t p q,
              before,
              contains-step d v (erase_child c children) e n,
              find_child-erase c d children,
            )
            (elim (Bool-cases (c == d)) [
              | inr r ↦ rw r (ground arith)
              | inl r ↦ let eq : c ≡ d = ground arith in rw (r, ← eq, p) (sym ih)
            ])
      | keeps t p q ↦
          rw
            (
              kept c w children e n t p q,
              before,
              contains-step d v (update c (λ _. (remove_node w t).0) children) e n,
              find_child-update c d (λ _. (remove_node w t).0) children,
            )
            (elim (Bool-cases (c == d)) [
              | inr r ↦ rw r (ground arith)
              | inl r ↦ let eq : c ≡ d = ground arith in rw (r, ← eq, p) (removed w v t)
            ])
    ]

not_contained :
    (w v : List ℕ) (t : TrieNode)
    → contains_from w t ≡ false
    → contains_from v t ≡ (contains_from v t && not (same_word w v))
not_contained w v t p = elim (Bool-cases (same_word w v)) [
  | inl r ↦ rw (r, ← same_word-eq w v r, p) refl
  | inr r ↦ rw r (ground arith)
]

-- `remove` succeeds exactly for the words that are not empty and that the tree contains. Then the
-- tree contains what it contained before but for this word, and its size is one less; a `remove`
-- that fails leaves the whole tree as it was.
pub remove_lem :
    (word v : List ℕ) (t : TrieTree)
    → let (t', ok) = remove word t in
      (ok ≡ (not (length word == 0) && contains word t))
      × (contains v t' ≡ (contains v t && not (ok && same_word word v)))
      × (t'.size ≡ (if ok then sub_size t.size 1 else t.size))
      × (t' ≡ (if ok then t' else t))
unfolding contains remove
remove_lem [] v t = (refl, ground arith, refl, refl)
remove_lem (c ∷ w) v t =
    let nonempty : (length (c ∷ w) == 0) ≡ false = ground arith in
    elim (Bool-cases (contains_from (c ∷ w) t.root)) [
      | inl p ↦ rw (nonempty, p) (refl, removed (c ∷ w) v t.root, refl, refl)
      | inr p ↦ rw (nonempty, p) (refl, ground arith, refl, refl)
    ]
