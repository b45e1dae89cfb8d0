-- ===== src/Huffman/Decode.antt =====
-- The decoder reads the bits of the codes back.
use native.Mathlib.Nat.{div-one, div-eq_of_lt, mod-eq_of_lt, pow-le-pow_right}
use galay_utils.Prelude.{
  ℕ, zero, suc, ◌+◌, ◌-◌, ◌*◌, ◌/◌, ◌%◌, ◌^◌, ◌≤◌, ◌<◌, ◌≡◌, refl, ap, ap₂, sym, ◌∙◌, arith, true,
  false, ◌&&◌, List, [], ◌∷◌, ◌++◌, Option, none, some, ltb, leb, if◌then◌else◌, Bool-cases, inl,
  inr, length, length-append, drop,
}
use galay_utils.Huffman.{
  HuffmanCode, HuffmanDecoder, Round, thrown, broken, going, take_bit, check_length, bit_at,
  decode_loop, decode, get_symbol,
}
use galay_utils.Huffman.Bits.{to_bits, to_bits-head, shift_bit, bytes_bits, length-to_bits}

-- The loop of `decode` on a list of bits
unfoldable pub decode_bits : HuffmanDecoder → ℕ → List ℕ → ℕ → ℕ → List ℕ → Option (List ℕ)
decode_bits d symbol_count [] code code_len result = some result
decode_bits d symbol_count (bit ∷ bits) code code_len result =
    elim (take_bit d symbol_count bit code code_len result) [
      | thrown ↦ none
      | broken result ↦ some result
      | going code code_len result ↦ decode_bits d symbol_count bits code code_len result
    ]

length-bytes_bits : (bytes : List ℕ) → length (bytes_bits bytes) ≡ length bytes * 8
unfolding bytes_bits
length-bytes_bits [] = refl
length-bytes_bits (b ∷ bytes) = omega (
  arith,
  length-append (to_bits 8 b) (bytes_bits bytes),
  length-to_bits 8 b,
  length-bytes_bits bytes,
)

drop-all : (bits : List ℕ) (n : ℕ) → length bits ≡ n → drop n bits ≡ []
drop-all [] zero h = refl
drop-all [] (suc n) h = refl
drop-all (b ∷ bits) zero h = absurd (omega arith)
drop-all (b ∷ bits) (suc n) h = drop-all bits n (omega arith)

same_head : {a b : ℕ} {bits : List ℕ} → a ≡ b → a ∷ bits ≡ b ∷ bits
same_head {bits} h = ap (λ k. k ∷ bits) h

drop-bit :
    (bytes : List ℕ) (i : ℕ)
    → i < length bytes * 8
    → drop i (bytes_bits bytes) ≡ bit_at bytes i ∷ drop (suc i) (bytes_bits bytes)
unfolding bytes_bits to_bits bit_at
drop-bit [] i h = absurd (omega arith)
drop-bit (b ∷ bytes) zero h = same_head (omega arith)
drop-bit (b ∷ bytes) (suc zero) h = same_head (omega arith)
drop-bit (b ∷ bytes) (suc (suc zero)) h = same_head (omega arith)
drop-bit (b ∷ bytes) (suc (suc (suc zero))) h = same_head (omega arith)
drop-bit (b ∷ bytes) (suc (suc (suc (suc zero)))) h = same_head (omega arith)
drop-bit (b ∷ bytes) (suc (suc (suc (suc (suc zero))))) h = same_head (omega arith)
drop-bit (b ∷ bytes) (suc (suc (suc (suc (suc (suc zero)))))) h = same_head (omega arith)
drop-bit (b ∷ bytes) (suc (suc (suc (suc (suc (suc (suc zero))))))) h = same_head (omega arith)
drop-bit (b ∷ bytes) (suc (suc (suc (suc (suc (suc (suc (suc i)))))))) h =
    let byte : suc (suc (suc (suc (suc (suc (suc (suc i))))))) / 8 ≡ suc (i / 8) = omega arith in
    let bit : suc (suc (suc (suc (suc (suc (suc (suc i))))))) % 8 ≡ i % 8 = omega arith in
    rw (byte, bit) (drop-bit bytes i (omega arith))

same_round :
    (r : Round) (f g : ℕ → ℕ → List ℕ → Option (List ℕ))
    → ((code code_len : ℕ) (result : List ℕ) → f code code_len result ≡ g code code_len result)
    → elim r [
      | thrown ↦ none
      | broken result ↦ some result
      | going code code_len result ↦ f code code_len result
    ]
      ≡ elim r [
        | thrown ↦ none
        | broken result ↦ some result
        | going code code_len result ↦ g code code_len result
      ]
same_round thrown f g h = refl
same_round (broken result) f g h = refl
same_round (going code code_len result) f g h = h code code_len result

decode_loop-eq :
    (d : HuffmanDecoder) (bytes : List ℕ) (symbol_count left i code code_len : ℕ) (result : List ℕ)
    → i + left ≡ length bytes * 8
    → decode_loop d bytes symbol_count left i code code_len result
      ≡ decode_bits d symbol_count (drop i (bytes_bits bytes)) code code_len result
unfolding decode_loop decode_bits
decode_loop-eq d bytes symbol_count zero i code code_len result h =
    rw (drop-all (bytes_bits bytes) i (omega (arith, length-bytes_bits bytes))) refl
decode_loop-eq d bytes symbol_count (suc left) i code code_len result h =
    let next : i + 1 ≡ suc i = omega arith in
    rw (drop-bit bytes i (omega arith)) (
      same_round (take_bit d symbol_count (bit_at bytes i) code code_len result) _ _
        (λ code code_len result.
          decode_loop-eq d bytes symbol_count left (i + 1) code code_len result (omega (arith, h))
          ∙ ap (λ k. decode_bits d symbol_count (drop k (bytes_bits bytes)) code code_len result)
              next))

pub decode-eq :
    (d : HuffmanDecoder) (bytes : List ℕ) (symbol_count : ℕ)
    → decode d bytes symbol_count ≡ decode_bits d symbol_count (bytes_bits bytes) 0 0 []
unfolding decode
decode-eq d bytes symbol_count =
    decode_loop-eq d bytes symbol_count (length bytes * 8) 0 0 0 [] (omega arith)

-- The decoder finds the symbol by its code, and finds nothing by a shorter part of the code.
pub record Reads (d : HuffmanDecoder) (symbol : ℕ) (c : HuffmanCode) : Type 0 where
  pub shortest : d.min_code_len ≤ c.length
  pub longest : c.length ≤ d.max_code_len
  pub some_bits : 0 < c.length
  pub fits : c.length ≤ 32
  pub word : c.code < 2 ^ c.length
  pub own : get_symbol c.code c.length d.table ≡ some symbol
  pub no_prefix :
      (k : ℕ) → 0 < k → k < c.length → get_symbol (c.code / 2 ^ (c.length - k)) k d.table ≡ none

-- What follows once a symbol is read
abbrev pub read_on : HuffmanDecoder → ℕ → List ℕ → List ℕ → Option (List ℕ)
read_on d symbol_count bits result =
    if ltb 0 symbol_count && leb symbol_count (length result)
    then some result
    else decode_bits d symbol_count bits 0 0 result

module _ (d : HuffmanDecoder) (symbol_count bit code code_len : ℕ) (result : List ℕ) where
  abbrev next_code : ℕ
  next_code = code * 2 % 2 ^ 32 + bit

  abbrev next_len : ℕ
  next_len = (code_len + 1) % 2 ^ 8

  take_bit-none :
      (code' len : ℕ)
      → next_code ≡ code'
      → next_len ≡ len
      → len ≤ d.max_code_len
      → get_symbol code' len d.table ≡ none
      → take_bit d symbol_count bit code code_len result ≡ going code' len result
  unfolding take_bit check_length
  take_bit-none code' len e k h p =
      let z : ltb d.max_code_len len ≡ false = ground (arith, h) in
      elim (Bool-cases (leb d.min_code_len len)) [
        | inl q ↦ rw (e, k, q, p) (rw (e, k, z) refl)
        | inr q ↦ rw (e, k, q, z) refl
      ]

  take_bit-some :
      (code' len symbol : ℕ)
      → next_code ≡ code'
      → next_len ≡ len
      → d.min_code_len ≤ len
      → get_symbol code' len d.table ≡ some symbol
      → take_bit d symbol_count bit code code_len result ≡ (
          let result = result ++ (symbol ∷ []) in
          if ltb 0 symbol_count && leb symbol_count (length result)
          then broken result
          else going 0 0 result)
  unfolding take_bit check_length
  take_bit-some code' len symbol e k h p =
      let q : leb d.min_code_len len ≡ true = ground (arith, h) in
      let z : ltb d.max_code_len 0 ≡ false = ground arith in rw (e, k, q, p, z) refl

word32 : {d : HuffmanDecoder} {symbol : ℕ} (c : HuffmanCode) → Reads d symbol c → c.code < 2 ^ 32
word32 c r =
    omega (arith, r.word, pow-le-pow_right {n = 2} (omega arith) {i = c.length} {j = 32} r.fits)

-- One round on a list of bits
decode_bits-round :
    (d : HuffmanDecoder) (symbol_count bit : ℕ) (bits : List ℕ) (code code_len : ℕ)
    (result : List ℕ) (r : Round)
    → take_bit d symbol_count bit code code_len result ≡ r
    → decode_bits d symbol_count (bit ∷ bits) code code_len result ≡ elim r [
      | thrown ↦ none
      | broken result ↦ some result
      | going code code_len result ↦ decode_bits d symbol_count bits code code_len result
    ]
unfolding decode_bits
decode_bits-round d symbol_count bit bits code code_len result r h = rw (decode_bits, h) refl

first_bit :
    (d : HuffmanDecoder) (symbol_count : ℕ) (c : HuffmanCode) (j : ℕ) (rest : List ℕ)
    (code code_len : ℕ) (result : List ℕ)
    → decode_bits d symbol_count (to_bits (suc j) c.code ++ rest) code code_len result
      ≡ decode_bits d symbol_count
          (c.code / 2 ^ j % 2 ∷ (to_bits j c.code ++ rest))
          code
          code_len
          result
first_bit d symbol_count c j rest code code_len result =
    ap (λ bits. decode_bits d symbol_count (bits ++ rest) code code_len result)
      (to_bits-head j c.code)

pub decode_bits-code :
    (d : HuffmanDecoder) (symbol_count symbol : ℕ) (c : HuffmanCode)
    → Reads d symbol c
    → (j : ℕ) → suc j ≤ c.length
    → (rest result : List ℕ)
    → decode_bits d symbol_count
        (to_bits (suc j) c.code ++ rest)
        (c.code / 2 ^ suc j)
        (c.length - suc j)
        result
      ≡ read_on d symbol_count rest (result ++ (symbol ∷ []))
unfolding to_bits
decode_bits-code d symbol_count symbol c r zero h rest result =
    let more = result ++ (symbol ∷ []) in
    let stops = ltb 0 symbol_count && leb symbol_count (length more) in
    let len : (c.length - 1 + 1) % 2 ^ 8 ≡ c.length =
      mod-eq_of_lt (omega (arith, r.fits)) ∙ omega (arith, r.some_bits) in
    let step = shift_bit c.code 0 (word32 c r) ∙ div-one c.code in
    let read =
      take_bit-some d symbol_count (c.code / 2 ^ 0 % 2) (c.code / 2 ^ 1) (c.length - 1) result
        c.code c.length symbol step len r.shortest r.own in
    first_bit d symbol_count c 0 rest (c.code / 2 ^ 1) (c.length - 1) result
    ∙ elim (Bool-cases stops) [
      | inl q ↦
          decode_bits-round d symbol_count _ rest _ _ result (broken more) (read ∙ rw q refl)
          ∙ rw q refl
      | inr q ↦
          decode_bits-round d symbol_count _ rest _ _ result (going 0 0 more) (read ∙ rw q refl)
          ∙ rw q refl
    ]
decode_bits-code d symbol_count symbol c r (suc j) h rest result =
    let len = c.length - suc j in
    let longer : (c.length - suc (suc j) + 1) % 2 ^ 8 ≡ len =
      mod-eq_of_lt (omega (arith, r.fits)) ∙ omega (arith, h) in
    let back : c.length - len ≡ suc j = omega (arith, h) in
    let p : get_symbol (c.code / 2 ^ suc j) len d.table ≡ none =
      ap (λ k. get_symbol (c.code / 2 ^ k) len d.table) (sym back)
      ∙ r.no_prefix len (omega (arith, h)) (omega (arith, h)) in
    let on =
      take_bit-none d symbol_count (c.code / 2 ^ suc j % 2) (c.code / 2 ^ suc (suc j))
        (c.length - suc (suc j)) result (c.code / 2 ^ suc j) len
        (shift_bit c.code (suc j) (word32 c r)) longer (omega (arith, r.longest)) p in
    first_bit d symbol_count c (suc j) rest (c.code / 2 ^ suc (suc j)) (c.length - suc (suc j))
      result
    ∙ decode_bits-round d symbol_count _ (to_bits (suc j) c.code ++ rest) _ _ result _ on
    ∙ decode_bits-code d symbol_count symbol c r j (omega arith) rest result

-- A whole code
pub decode_bits-symbol :
    (d : HuffmanDecoder) (symbol_count symbol : ℕ) (c : HuffmanCode) (rest result : List ℕ)
    → Reads d symbol c
    → decode_bits d symbol_count (to_bits c.length c.code ++ rest) 0 0 result
      ≡ read_on d symbol_count rest (result ++ (symbol ∷ []))
decode_bits-symbol d symbol_count symbol c rest result r =
    let j = c.length - 1 in
    let len : suc j ≡ c.length = omega (arith, r.some_bits) in
    let none_read : c.code / 2 ^ suc j ≡ 0 = ap (λ k. c.code / 2 ^ k) len ∙ div-eq_of_lt r.word in
    let zero_len : c.length - suc j ≡ 0 = omega arith in
    sym (
      ap₂ (λ code k. decode_bits d symbol_count (to_bits c.length c.code ++ rest) code k result)
        none_read zero_len)
    ∙ sym (
        ap
          (λ k.
            decode_bits d symbol_count (to_bits k c.code ++ rest) (c.code / 2 ^ suc j)
              (c.length - suc j) result)
          len)
    ∙ decode_bits-code d symbol_count symbol c r j (omega (arith, len)) rest result
