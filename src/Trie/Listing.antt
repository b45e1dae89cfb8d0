-- ===== src/Trie/Listing.antt =====
-- The words that are listed.
use galay_utils.Prelude.{
  ℕ, ◌≡◌, refl, ap, sym, ◌∙◌, arith, Bool, true, false, ◌||◌, List, [], ◌∷◌, ◌++◌, append-nil,
  append_assoc, ◌==◌, if◌then◌else◌, Bool-cases, inl, inr, Option-cases,
}
use galay_utils.Trie.{
  TrieNode, Children, trie_node, no_child, child, TrieTree, find_child, find_node, contains_from,
  contains, ends, collect_words, collect_children, get_words_with_prefix,
}
use galay_utils.Trie.Find.{same_word, step, find-step}

-- The word stands in the list.
abbrev pub listed : List ℕ → List (List ℕ) → Bool
listed v [] = false
listed v (w ∷ words) = same_word w v || listed v words

same_word_self : (w : List ℕ) → same_word w w ≡ true
same_word_self [] = refl
same_word_self (c ∷ w) = ground (arith, same_word_self w)

listed-append :
    (v : List ℕ) (xs ys : List (List ℕ)) → listed v (xs ++ ys) ≡ (listed v xs || listed v ys)
listed-append v [] ys = refl
listed-append v (x ∷ xs) ys = ground (arith, listed-append v xs ys)

-- What one node adds for its own word
own_word : Bool → List ℕ → List (List ℕ) → List (List ℕ)
own_word e prefix result = if e then result ++ (prefix ∷ []) else result

own_word-keeps :
    (e : Bool) (v prefix : List ℕ) (result : List (List ℕ))
    → listed v result ≡ true
    → listed v (own_word e prefix result) ≡ true
unfolding own_word
own_word-keeps e v prefix result h = ground (arith, h, listed-append v result (prefix ∷ []))

mutual
  unfolding collect_words collect_children own_word

  collect_words-keeps :
      (t : TrieNode) (v prefix : List ℕ) (result : List (List ℕ))
      → listed v result ≡ true
      → listed v (collect_words t prefix result) ≡ true
  collect_words-keeps (trie_node children e n) v prefix result h =
      collect_children-keeps children v prefix (own_word e prefix result)
        (own_word-keeps e v prefix result h)

  collect_children-keeps :
      (children : Children) (v prefix : List ℕ) (result : List (List ℕ))
      → listed v result ≡ true
      → listed v (collect_children children prefix result) ≡ true
  collect_children-keeps no_child v prefix result h = h
  collect_children-keeps (child c t rest) v prefix result h =
      collect_children-keeps rest v prefix (collect_words t (prefix ++ (c ∷ [])) result)
        (collect_words-keeps t v (prefix ++ (c ∷ [])) result h)

mutual
  unfolding collect_words collect_children own_word find_node find_child

  collect_words-listed :
      (t : TrieNode) (w prefix : List ℕ) (result : List (List ℕ))
      → contains_from w t ≡ true
      → listed (prefix ++ w) (collect_words t prefix result) ≡ true
  collect_words-listed (trie_node children e n) [] prefix result h =
      collect_children-keeps children (prefix ++ []) prefix (own_word e prefix result) (
        ground (
          arith,
          h,
          listed-append (prefix ++ []) result (prefix ∷ []),
          same_word_self prefix,
          append-nil prefix,
        ))
  collect_words-listed (trie_node children e n) (c ∷ w) prefix result h =
      collect_children-listed children c w prefix (own_word e prefix result)
        (sym (ap ends (find-step c w children e n)) ∙ h)

  collect_children-listed :
      (children : Children) (c : ℕ) (w prefix : List ℕ) (result : List (List ℕ))
      → ends (step w (find_child c children)) ≡ true
      → listed (prefix ++ (c ∷ w)) (collect_children children prefix result) ≡ true
  collect_children-listed no_child c w prefix result h = ground arith
  collect_children-listed (child k t rest) c w prefix result h =
      let more = prefix ++ (k ∷ []) in
      elim (Bool-cases (k == c)) [
        | inr p ↦
            collect_children-listed rest c w prefix (collect_words t more result)
              (ground (arith, p, h))
        | inl p ↦
            let same : k ≡ c = ground arith in
            let word : more ++ w ≡ prefix ++ (c ∷ w) =
              append_assoc prefix (k ∷ []) w ∙ ap (λ d. prefix ++ (d ∷ w)) same in
            let there : contains_from w t ≡ true = ground (arith, p, h) in
            collect_children-keeps rest (prefix ++ (c ∷ w)) prefix (collect_words t more result) (
              sym (ap (λ v. listed v (collect_words t more result)) word)
              ∙ collect_words-listed t w more result there)
      ]

find_node-append :
    (prefix w : List ℕ) (t : TrieNode) → find_node (prefix ++ w) t ≡ step w (find_node prefix t)
unfolding find_node
find_node-append [] w t = refl
find_node-append (c ∷ prefix) w (trie_node children e n) =
    find-step c (prefix ++ w) children e n ∙ elim (Option-cases (find_child c children)) [
      | inl p ↦ rw (find_node, p) refl
      | inr (u, p) ↦ rw (find_node, p) (find_node-append prefix w u)
    ]

-- Every word of the tree that begins with the prefix is listed.
pub words_lem :
    (prefix w : List ℕ) (t : TrieTree)
    → contains (prefix ++ w) t ≡ true
    → listed (prefix ++ w) (get_words_with_prefix prefix t) ≡ true
unfolding contains get_words_with_prefix
words_lem prefix w t h =
    let found = sym (ap ends (find_node-append prefix w t.root)) ∙ h in
    elim (Option-cases (find_node prefix t.root)) [
      | inl p ↦ ground (arith, p, found)
      | inr (u, p) ↦
          rw (get_words_with_prefix, p)
            (collect_words-listed u w prefix [] (ground (arith, p, found)))
    ]
