-- ===== src/Trie.antt =====
-- galay-utils/algorithm/trie.hpp: `TrieNode` and `TrieTree`, over words of characters as numbers.
-- An `unordered_map` of children is an association list; a pointer that may be null is an option.
-- The count of a word, an `int`, is a number that does not overflow.
mod Find
mod Words
mod Listing
mod Tests
use galay_utils.Prelude.{
  ℕ, zero, suc, ◌+◌, Bool, true, false, not, ◌&&◌, ◌||◌, List, [], ◌∷◌, ◌++◌, Option, none, some,
  ◌==◌, if◌then◌else◌, length, sub_size, add_size,
}

mutual
  pub data TrieNode : Type 0 where
    trie_node : Children → Bool → ℕ → TrieNode

  pub data Children : Type 0 where
    no_child : Children
    child : ℕ → TrieNode → Children → Children

pub record TrieTree : Type 0 where
  pub root : TrieNode
  pub size : ℕ

abbrev pub new_node : TrieNode
new_node = trie_node no_child false 0

abbrev pub is_end : TrieNode → Bool
is_end (trie_node children e n) = e

abbrev pub count_of : TrieNode → ℕ
count_of (trie_node children e n) = n

-- `children.find(c)`
pub find_child : ℕ → Children → Option TrieNode
find_child c no_child = none
find_child c (child k t rest) = let later = find_child c rest in if k == c then some t else later

-- The child under `c`, made if it is missing, replaced by what `f` makes of it.
pub update : ℕ → (TrieNode → TrieNode) → Children → Children
update c f no_child = child c (f new_node) no_child
update c f (child k t rest) =
    let later = update c f rest in if k == c then child k (f t) rest else child k t later

pub find_node : List ℕ → TrieNode → Option TrieNode
unfolding find_child
find_node [] t = some t
find_node (c ∷ word) (trie_node children e n) = elim (find_child c children) [
  | none ↦ none
  | some t ↦ find_node word t
]

abbrev ends : Option TrieNode → Bool
ends none = false
ends (some t) = is_end t

abbrev pub contains_from : List ℕ → TrieNode → Bool
contains_from word t = ends (find_node word t)

-- The loop of `add` and what follows it.
pub add_node : List ℕ → TrieNode → TrieNode
unfolding update
add_node [] (trie_node children e n) = trie_node children true (n + 1)
add_node (c ∷ word) (trie_node children e n) = trie_node (update c (add_node word) children) e n

pub add : List ℕ → TrieTree → TrieTree
add word t =
    let size = if contains_from word t.root then t.size else add_size t.size 1 in
    if length word == 0 then t else record { root = add_node word t.root; size = size }

pub contains : List ℕ → TrieTree → Bool
contains word t = contains_from word t.root

pub starts_with : List ℕ → TrieTree → Bool
starts_with word t = elim (find_node word t.root) [ none ↦ false | some _ ↦ true ]

pub query : List ℕ → TrieTree → ℕ
query word t = elim (find_node word t.root) [
  | none ↦ 0
  | some u ↦ if is_end u then count_of u else 0
]

abbrev pub is_empty : Children → Bool
is_empty no_child = true
is_empty (child k t rest) = false

-- `children.erase(it)`; a key stands once in the map.
pub erase_child : ℕ → Children → Children
erase_child c no_child = no_child
erase_child c (child k t rest) =
    let later = erase_child c rest in if k == c then later else child k t later

-- `removeHelper` from the characters from `depth` on: the node afterwards, and whether its parent
-- should drop it.
pub remove_node : List ℕ → TrieNode → TrieNode × Bool
unfolding find_child update erase_child
remove_node [] (trie_node children e n) =
    if e then (trie_node children false 0, is_empty children) else (trie_node children e n, false)
remove_node (c ∷ word) (trie_node children e n) = elim (find_child c children) [
  | none ↦ (trie_node children e n, false)
  | some t ↦
      let (t', should_delete) = remove_node word t in
      let kept = erase_child c children in
      if should_delete
      then (trie_node kept e n, not e && is_empty kept)
      else (trie_node (update c (λ _. t') children) e n, false)
]

pub remove : List ℕ → TrieTree → TrieTree × Bool
remove word t =
    if length word == 0 || not (contains_from word t.root)
    then (t, false)
    else (record { root = (remove_node word t.root).0; size = sub_size t.size 1 }, true)

pub clear : TrieTree → TrieTree
clear t = record { root = new_node; size = 0 }

mutual
  -- `collectWords`, in the order of the children; the words are appended to the result.
  pub collect_words : TrieNode → List ℕ → List (List ℕ) → List (List ℕ)
  collect_words (trie_node children e n) prefix result =
      collect_children children prefix (if e then result ++ (prefix ∷ []) else result)

  pub collect_children : Children → List ℕ → List (List ℕ) → List (List ℕ)
  collect_children no_child prefix result = result
  collect_children (child c t rest) prefix result =
      collect_children rest prefix (collect_words t (prefix ++ (c ∷ [])) result)

pub get_words_with_prefix : List ℕ → TrieTree → List (List ℕ)
get_words_with_prefix prefix t = elim (find_node prefix t.root) [
  | none ↦ []
  | some u ↦ collect_words u prefix []
]

pub get_all_words : TrieTree → List (List ℕ)
get_all_words t = collect_words t.root [] []
