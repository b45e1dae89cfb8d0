-- ===== src/Huffman/Tests.antt =====
-- Tables, texts and bytes at concrete inputs.
use galay_utils.Prelude.{
  ◌≡◌, ◌≤◌, ℕ, suc, refl, arith, List, [], ◌∷◌, true, none, some, length, All,
}
use galay_utils.Huffman.{
  HuffmanNode, leaf, HuffmanTable, HuffmanEncoder, find_code, find_symbol, assign_code,
  assign_symbol, empty_table, add_code, get_code, has_symbol, get_symbol, get_symbols, init_encoder,
  write_bits, append_loop, append_bits, encode_symbol, encode_symbols, reset, finish, bit_count,
  check_length, take_bit, bit_at, decode_loop, decode, join, push_node, fill_queue, merge,
  generate_codes, build, count_item, count_items, build_from_data,
}
use galay_utils.Huffman.RoundTrip.{IsPrefixFree, decode-encode_symbols}
use galay_utils.Huffman.Table.{IsFree}
use galay_utils.Huffman.Codes.{joins, in_tree}
use galay_utils.Huffman.Build.{
  weight, in_queue, has_frequency, merge_lem, build_lem, build_succeeds,
}
use galay_utils.Huffman.Coding.{decoder, IsFree-IsPrefixFree, huffman_round_trip}

program : Unit {0}
unfolding find_code find_symbol assign_code assign_symbol empty_table add_code get_code has_symbol
    get_symbol get_symbols init_encoder write_bits append_loop append_bits encode_symbol
    encode_symbols reset finish bit_count check_length take_bit bit_at decode_loop decode join
    push_node fill_queue merge generate_codes build count_item count_items build_from_data weight
    joins has_frequency
program = tt

abbrev input : List ℕ
input = 1 ∷ 2 ∷ 1 ∷ 3 ∷ []

abbrev counts : List (ℕ × ℕ)
counts = (1, 2) ∷ (2, 1) ∷ (3, 1) ∷ []

-- The codes 0, 10 and 11 of the three symbols
abbrev three : HuffmanTable
three = record {
  encode_table =
      (1, record { code = 0; length = 1 })
      ∷ (2, record { code = 2; length = 2 })
      ∷ (3, record { code = 3; length = 2 })
      ∷ [];
  decode_table =
      (record { code = 0; length = 1 }, 1)
      ∷ (record { code = 2; length = 2 }, 2)
      ∷ (record { code = 3; length = 2 }, 3)
      ∷ [];
}

built : build_from_data input ≡ some three
unfolding program
built = refl

-- 0 10 0 11 00
abbrev written : HuffmanEncoder
written = record { output = []; buffer = 19; buffer_bits = 6 }

encoded : encode_symbols input three init_encoder ≡ some written
unfolding program
encoded = refl

finished : (finish written).1 ≡ 76 ∷ []
unfolding program
finished = refl

decoded : decode (decoder three) (76 ∷ []) 4 ≡ some input
unfolding program
decoded = refl

-- Without the number of the symbols, the two bits that fill the last byte are read as symbols.
padding_decoded : decode (decoder three) (76 ∷ []) 0 ≡ some (1 ∷ 2 ∷ 1 ∷ 3 ∷ 1 ∷ 1 ∷ [])
unfolding program
padding_decoded = refl

long_code : add_code 1 0 33 three ≡ none
unfolding program
long_code = refl

counts_few : length (count_items input []) ≤ 256
unfolding program
counts_few = omega arith

huffman_round_trip_example :
    (e : HuffmanEncoder) × (encode_symbols input three init_encoder ≡ some e)
    × (decode (decoder three) (finish e).1 (length input) ≡ some input)
huffman_round_trip_example = huffman_round_trip input counts_few built

built_counts : build counts ≡ some three
unfolding program
built_counts = refl

build_lem_example : IsFree three × ((k : ℕ) → has_symbol k three ≡ has_frequency k counts)
build_lem_example = build_lem counts (omega arith) built_counts

build_succeeds_example : (t : HuffmanTable) × (build counts ≡ some t)
build_succeeds_example = build_succeeds counts (omega arith)

abbrev queue : List HuffmanNode
queue = leaf 3 1 ∷ leaf 2 1 ∷ leaf 1 2 ∷ []

merge_lem_example :
    (root : HuffmanNode) × (merge 2 queue ≡ root ∷ [])
    × (suc (joins root) ≡ weight queue)
    × ((k : ℕ) → in_tree k root ≡ in_queue k queue)
merge_lem_example = merge_lem 2 queue (omega arith) (omega arith)

all_coded : All (λ s. has_symbol s three ≡ true) (3 ∷ 1 ∷ [])
unfolding program
all_coded = (refl, (refl, tt))

three-IsPrefixFree : IsPrefixFree (decoder three)
three-IsPrefixFree = IsFree-IsPrefixFree (build_lem counts (omega arith) built_counts).0

decode-encode_symbols_example :
    (e : HuffmanEncoder) × (encode_symbols (3 ∷ 1 ∷ []) three init_encoder ≡ some e)
    × (decode (decoder three) (finish e).1 2 ≡ some (3 ∷ 1 ∷ []))
decode-encode_symbols_example =
    decode-encode_symbols (decoder three) (3 ∷ 1 ∷ []) three-IsPrefixFree all_coded
