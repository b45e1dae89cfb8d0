-- ===== src/Huffman/Coding.antt =====
-- Text that is encoded with its own table is decoded again.
use galay_utils.Prelude.{
  ℕ, ◌-◌, ◌/◌, ◌^◌, ◌≤◌, ◌≡◌, refl, ◌∙◌, arith, true, ◌||◌, List, [], ◌∷◌, some, ◌==◌, Option-cases,
  inl, inr, length, All,
}
use galay_utils.Huffman.{
  HuffmanTable, HuffmanEncoder, HuffmanDecoder, init_encoder, get_code, get_symbol, has_symbol,
  encode_symbols, finish, decode, build_from_data, count_item, count_items,
}
use galay_utils.Huffman.RoundTrip.{IsPrefixFree, decode-encode_symbols}
use galay_utils.Huffman.Table.{IsFree}
use galay_utils.Huffman.Build.{has_frequency, build_lem}

-- A decoder with the default lengths
abbrev pub decoder : HuffmanTable → HuffmanDecoder
decoder t = record { table = t; min_code_len = 1; max_code_len = 32 }

pub IsFree-IsPrefixFree : {t : HuffmanTable} → IsFree t → IsPrefixFree (decoder t)
unfolding get_code get_symbol
IsFree-IsPrefixFree {t} v symbol c h =
    let (own, pos, fits, word) = v.own symbol c h in
    record {
      shortest = omega (arith, pos);
      longest = fits;
      some_bits = pos;
      fits = fits;
      word = word;
      own = own;
      no_prefix = λ k p q. elim (Option-cases (get_symbol (c.code / 2 ^ (c.length - k)) k t)) [
        | inl r ↦ r
        | inr (s, r) ↦
            let same =
              v.free (record { code = c.code / 2 ^ (c.length - k); length = k }) c s symbol r own
                (record { shorter = omega (arith, q); begins = refl }) in
            absurd (omega (arith, same, q))
      ];
    }

has_frequency-count_item :
    (k item : ℕ) (frequencies : List (ℕ × ℕ))
    → has_frequency k (count_item item frequencies) ≡ (item == k || has_frequency k frequencies)
unfolding has_frequency count_item
has_frequency-count_item k item [] = refl
has_frequency-count_item k item ((s, n) ∷ frequencies) =
    ground (arith, has_frequency-count_item k item frequencies)

counted :
    (k : ℕ) (input : List ℕ) (frequencies : List (ℕ × ℕ))
    → has_frequency k frequencies ≡ true
    → has_frequency k (count_items input frequencies) ≡ true
unfolding count_items
counted k [] frequencies h = h
counted k (item ∷ input) frequencies h =
    counted k input (count_item item frequencies)
      (ground (arith, has_frequency-count_item k item frequencies, h))

all_counted :
    (input : List ℕ) (frequencies : List (ℕ × ℕ))
    → All (λ k. has_frequency k (count_items input frequencies) ≡ true) input
unfolding count_items
all_counted [] frequencies = tt
all_counted (item ∷ input) frequencies = (
  counted item input (count_item item frequencies)
      (ground (arith, has_frequency-count_item item item frequencies)),
  all_counted input (count_item item frequencies),
)

All-has_symbol :
    (t : HuffmanTable) (frequencies : List (ℕ × ℕ)) (input : List ℕ)
    → ((k : ℕ) → has_symbol k t ≡ has_frequency k frequencies)
    → All (λ k. has_frequency k frequencies ≡ true) input
    → All (λ k. has_symbol k t ≡ true) input
All-has_symbol t frequencies [] same h = tt
All-has_symbol t frequencies (item ∷ input) same (p, h) =
    (same item ∙ p, All-has_symbol t frequencies input same h)

-- When the table of an input of at most 256 different symbols is built, encoding the input with it
-- succeeds, and decoding the bytes with the default lengths and the number of the symbols gives back
-- the input.
pub huffman_round_trip :
    (input : List ℕ) {t : HuffmanTable}
    → length (count_items input []) ≤ 256
    → build_from_data input ≡ some t
    → (e : HuffmanEncoder) × (encode_symbols input t init_encoder ≡ some e)
      × (decode (decoder t) (finish e).1 (length input) ≡ some input)
unfolding build_from_data
huffman_round_trip input {t} fits h =
    let (free, symbols) = build_lem (count_items input []) fits h in
    decode-encode_symbols (decoder t) input (IsFree-IsPrefixFree free)
      (All-has_symbol t (count_items input []) input symbols (all_counted input []))
