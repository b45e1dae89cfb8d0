-- ===== src/Trie/Find.antt =====
-- What is found in a tree after a word was added.
use galay_utils.Prelude.{
  ℕ, ◌+◌, ◌≡◌, refl, ◌∙◌, arith, Bool, true, false, ◌&&◌, List, [], ◌∷◌, Option, none, some, ◌==◌,
  if◌then◌else◌, Bool-cases, inl, inr, Option-cases,
}
use galay_utils.Trie.{
  TrieNode, Children, trie_node, no_child, child, new_node, find_child, update, find_node,
  contains_from, add_node,
}

abbrev pub or_new : Option TrieNode → TrieNode
or_new none = new_node
or_new (some t) = t

pub find_child-update :
    (c d : ℕ) (f : TrieNode → TrieNode) (children : Children)
    → find_child d (update c f children)
      ≡ (if c == d then some (f (or_new (find_child c children))) else find_child d children)
unfolding find_child update
find_child-update c d f no_child = refl
find_child-update c d f (child k t rest) = ground (arith, find_child-update c d f rest)

-- Equality of words
abbrev pub same_word : List ℕ → List ℕ → Bool
same_word [] [] = true
same_word [] (d ∷ v) = false
same_word (c ∷ w) [] = false
same_word (c ∷ w) (d ∷ v) = c == d && same_word w v

contains-new : (v : List ℕ) → contains_from v new_node ≡ false
unfolding find_node find_child
contains-new [] = refl
contains-new (d ∷ v) = refl

-- Whether a word ends at what was found, and how often it was added.
abbrev pub seen : Option TrieNode → Bool × ℕ
seen none = (false, 0)
seen (some (trie_node children e n)) = (e, n)

find-new : (v : List ℕ) → seen (find_node v new_node) ≡ (false, 0)
unfolding find_node find_child
find-new [] = refl
find-new (d ∷ v) = refl

abbrev pub step : List ℕ → Option TrieNode → Option TrieNode
step v none = none
step v (some t) = find_node v t

pub find-step :
    (d : ℕ) (v : List ℕ) (children : Children) (e : Bool) (n : ℕ)
    → find_node (d ∷ v) (trie_node children e n) ≡ step v (find_child d children)
unfolding find_node
find-step d v children e n = elim (Option-cases (find_child d children)) [
  | inl p ↦ rw (p, find_node) refl
  | inr (t, p) ↦ rw (p, find_node) refl
]

step-new : (v : List ℕ) (o : Option TrieNode) → seen (find_node v (or_new o)) ≡ seen (step v o)
step-new v none = find-new v
step-new v (some t) = refl

pub seen-add_node :
    (w v : List ℕ) (t : TrieNode)
    → let before = seen (find_node v t) in
      seen (find_node v (add_node w t)) ≡ (if same_word w v then (true, before.1 + 1) else before)
unfolding add_node
seen-add_node [] [] (trie_node children e n) = unfold find_node in refl
seen-add_node [] (d ∷ v) (trie_node children e n) =
    rw (find-step d v children true (n + 1), find-step d v children e n) refl
seen-add_node (c ∷ w) [] (trie_node children e n) = unfold find_node in refl
seen-add_node (c ∷ w) (d ∷ v) (trie_node children e n) =
    rw
      (
        find-step d v (update c (add_node w) children) e n,
        find-step d v children e n,
        find_child-update c d (add_node w) children,
      )
      (elim (Bool-cases (c == d)) [
        | inr p ↦ rw p refl
        | inl p ↦
            let eq : c ≡ d = ground arith in
            rw (p, ← eq)
              (seen-add_node w v (or_new (find_child c children))
                ∙ rw (step-new v (find_child c children)) refl)
      ])
