-- ===== src/Trie/Tests.antt =====
-- A tree of words at concrete inputs.
use galay_utils.Prelude.{
  ◌≡◌, ℕ, refl, arith, List, [], ◌∷◌, true, false, not, ◌&&◌, ◌||◌, length, ◌==◌, if◌then◌else◌,
  sub_size,
}
use galay_utils.Trie.{
  TrieTree, new_node, find_child, update, find_node, add_node, add, contains, starts_with, query,
  erase_child, remove_node, remove, clear, collect_words, collect_children, get_words_with_prefix,
  get_all_words,
}
use galay_utils.Trie.Find.{same_word}
use galay_utils.Trie.Listing.{listed, words_lem}
use galay_utils.Trie.Words.{add_lem, remove_lem}

program : Unit {0}
unfolding find_child update find_node add_node add contains starts_with query erase_child
    remove_node remove clear collect_words collect_children get_words_with_prefix get_all_words
program = tt

abbrev empty : TrieTree
empty = record { root = new_node; size = 0 }

abbrev cat : List ℕ
cat = 99 ∷ 97 ∷ 116 ∷ []

abbrev car : List ℕ
car = 99 ∷ 97 ∷ 114 ∷ []

added_twice : query cat (add cat (add car (add cat empty))) ≡ 2
unfolding program
added_twice = refl

two_words : (add cat (add car (add cat empty))).size ≡ 2
unfolding program
two_words = refl

prefix_left : starts_with (99 ∷ 97 ∷ []) (remove cat (add car (add cat empty))).0 ≡ true
unfolding program
prefix_left = refl

all_gone : starts_with (99 ∷ []) (remove cat (add cat empty)).0 ≡ false
unfolding program
all_gone = refl

abbrev both : TrieTree
both = add car (add cat empty)

words : get_words_with_prefix (99 ∷ 97 ∷ []) both ≡ cat ∷ car ∷ []
unfolding program
words = refl

car_there : contains car both ≡ true
unfolding program
car_there = refl

words_lem_example : listed car (get_words_with_prefix (99 ∷ 97 ∷ []) both) ≡ true
words_lem_example = words_lem (99 ∷ 97 ∷ []) (114 ∷ []) both car_there

all_words : get_all_words both ≡ cat ∷ car ∷ []
unfolding program
all_words = refl

cleared : clear (add cat empty) ≡ empty
unfolding program
cleared = refl

add_lem_example : contains car (add cat empty) ≡ (same_word cat car || contains car empty)
add_lem_example = add_lem cat car empty (omega arith)

remove_lem_example :
    let t = add car (add cat empty) in
    let (t', ok) = remove cat t in
    (ok ≡ (not (length cat == 0) && contains cat t))
    × (contains car t' ≡ (contains car t && not (ok && same_word cat car)))
    × (t'.size ≡ (if ok then sub_size t.size 1 else t.size))
    × (t' ≡ (if ok then t' else t))
remove_lem_example = remove_lem cat car (add car (add cat empty))
