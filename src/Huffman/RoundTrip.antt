-- ===== src/Huffman/RoundTrip.antt =====
-- What the encoder writes, the decoder reads, and no padding is read as a symbol.
use galay_utils.Prelude.{
  ℕ, suc, ◌+◌, ◌≡◌, refl, ap, sym, ◌∙◌, arith, true, false, ◌&&◌, List, [], ◌∷◌, ◌++◌, append_assoc,
  some, ltb, leb, Option-cases, inl, inr, length, length-append, All,
}
use galay_utils.Huffman.{
  HuffmanCode, HuffmanEncoder, HuffmanDecoder, init_encoder, find_code, get_code, has_symbol,
  encode_symbols, finish, decode, decode_loop,
}
use galay_utils.Huffman.Bits.{to_bits, bytes_bits}
use galay_utils.Huffman.Encode.{
  IsValid, stream, padding, code_bits, codes_bits, encode_symbols-Writes, finish-Writes,
}
use galay_utils.Huffman.Decode.{Reads, decode_bits, decode_bits-symbol, decode-eq}

-- Every code of the table is read as its symbol.
abbrev pub IsPrefixFree : HuffmanDecoder → Type 0
IsPrefixFree d =
    (symbol : ℕ) (c : HuffmanCode) → get_code symbol d.table ≡ some c → Reads d symbol c

module _ (d : HuffmanDecoder) (free : IsPrefixFree d) where
  code_of :
      (symbol : ℕ)
      → has_symbol symbol d.table ≡ true
      → (c : HuffmanCode) × (get_code symbol d.table ≡ some c) × Reads d symbol c
  unfolding has_symbol get_code
  code_of symbol h = elim (Option-cases (find_code symbol d.table.encode_table)) [
    | inl p ↦ ground (arith, p)
    | inr (c, p) ↦ (c, p, free symbol c p)
  ]

  codes_bits-cons :
      (symbol : ℕ) (symbols : List ℕ) (c : HuffmanCode) (bits : List ℕ)
      → get_code symbol d.table ≡ some c
      → codes_bits d.table symbols ≡ some bits
      → codes_bits d.table (symbol ∷ symbols) ≡ some (code_bits c ++ bits)
  unfolding codes_bits
  codes_bits-cons symbol symbols c bits q s = rw (codes_bits, q, s) refl

  bits_of :
      (symbols : List ℕ)
      → All (λ s. has_symbol s d.table ≡ true) symbols
      → (bits : List ℕ) × (codes_bits d.table symbols ≡ some bits)
  unfolding codes_bits
  bits_of [] h = ([], refl)
  bits_of (symbol ∷ symbols) (p, h) =
      let (c, q, r) = code_of symbol p in
      let (bits, s) = bits_of symbols h in
      (code_bits c ++ bits, codes_bits-cons symbol symbols c bits q s)

  decode_bits-symbols :
      (symbol_count symbol : ℕ) (symbols bits pad result : List ℕ)
      → All (λ s. has_symbol s d.table ≡ true) (symbol ∷ symbols)
      → codes_bits d.table (symbol ∷ symbols) ≡ some bits
      → length result + suc (length symbols) ≡ symbol_count
      → decode_bits d symbol_count (bits ++ pad) 0 0 result ≡ some (result ++ (symbol ∷ symbols))
  unfolding codes_bits
  decode_bits-symbols n symbol [] bits pad result (p, h) e k =
      let (c, q, r) = code_of symbol p in
      let all : bits ≡ code_bits c ++ [] = ground (arith, q) in
      let more = result ++ (symbol ∷ []) in
      let stops : (ltb 0 n && leb n (length more)) ≡ true =
        ground (arith, k, length-append result (symbol ∷ [])) in
      ap (λ bs. decode_bits d n (bs ++ pad) 0 0 result) all
      ∙ ap (λ bs. decode_bits d n bs 0 0 result) (append_assoc (code_bits c) [] pad)
      ∙ decode_bits-symbol d n symbol c pad result r
      ∙ rw stops refl
  decode_bits-symbols n symbol (symbol' ∷ symbols) bits pad result (p, h) e k =
      let (c, q, r) = code_of symbol p in
      let (rest, s) = bits_of (symbol' ∷ symbols) h in
      let all : bits ≡ code_bits c ++ rest =
        let both : some bits ≡ some (code_bits c ++ rest) =
          sym e ∙ codes_bits-cons symbol (symbol' ∷ symbols) c rest q s in
        ground (arith, both) in
      let more = result ++ (symbol ∷ []) in
      let longer = length-append result (symbol ∷ []) in
      let on : (ltb 0 n && leb n (length more)) ≡ false = ground (arith, k, longer) in
      ap (λ bs. decode_bits d n (bs ++ pad) 0 0 result) all
      ∙ ap (λ bs. decode_bits d n bs 0 0 result) (append_assoc (code_bits c) rest pad)
      ∙ decode_bits-symbol d n symbol c (rest ++ pad) result r
      ∙ rw on (
          decode_bits-symbols n symbol' symbols rest pad more h s (omega (arith, k, longer))
          ∙ ap some (append_assoc result (symbol ∷ []) (symbol' ∷ symbols)))

-- With a table that is free of prefixes, decoding what the encoder finished gives back the encoded
-- symbols, if each of them has a code and their number is passed.
pub decode-encode_symbols :
    (d : HuffmanDecoder) (symbols : List ℕ)
    → IsPrefixFree d
    → All (λ s. has_symbol s d.table ≡ true) symbols
    → (e : HuffmanEncoder) × (encode_symbols symbols d.table init_encoder ≡ some e)
      × (decode d (finish e).1 (length symbols) ≡ some symbols)
unfolding init_encoder encode_symbols finish stream bytes_bits to_bits decode decode_loop
decode-encode_symbols d [] free h = (init_encoder, refl, refl)
decode-encode_symbols d (symbol ∷ symbols) free h =
    let (bits, s) = bits_of d free (symbol ∷ symbols) h in
    let v : IsValid init_encoder = record { partial = omega arith; small = omega arith } in
    let (e, written, w) = encode_symbols-Writes (symbol ∷ symbols) d.table bits init_encoder v s in
    let n = length (symbol ∷ symbols) in
    let stored : bytes_bits (finish e).1 ≡ bits ++ padding e =
      finish-Writes e w.valid ∙ ap (λ bs. bs ++ padding e) (w.written) in
    (
      e,
      written,
      decode-eq d (finish e).1 n
          ∙ ap (λ bs. decode_bits d n bs 0 0 []) stored
          ∙ decode_bits-symbols d free n symbol symbols bits (padding e) [] h s (omega arith),
    )
