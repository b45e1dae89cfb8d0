-- ===== src/Huffman/Encode.antt =====
-- The encoder writes the bits of the codes, one code after the other.
use native.Mathlib.Nat.{mod-eq_of_lt, pow-le-pow_right}
use mathlib.Core.Path.{subst}
use galay_utils.Prelude.{
  ℕ, zero, suc, ◌+◌, ◌-◌, ◌*◌, ◌/◌, ◌%◌, ◌^◌, ◌≤◌, ◌<◌, ◌≡◌, refl, ap, ap₂, sym, ◌∙◌, arith, List,
  [], ◌∷◌, ◌++◌, append-nil, append_assoc, Option, none, some, min, ◌==◌, ltb, if◌then◌else◌,
  Bool-cases, Option-cases, inl, inr,
}
use galay_utils.Huffman.{
  HuffmanTable, HuffmanCode, HuffmanEncoder, write_bits, append_loop, append_bits, get_code,
  encode_symbol, encode_symbols, finish,
}
use galay_utils.Huffman.Bits.{
  to_bits, to_bits-split, to_bits-join, join-lt, pow_pos, bytes_bits, bytes_bits-append,
}

-- Less than a byte waits in the buffer.
pub record IsValid (e : HuffmanEncoder) : Type 0 where
  pub partial : e.buffer_bits < 8
  pub small : e.buffer < 2 ^ e.buffer_bits

-- The bits written so far
unfoldable pub stream : HuffmanEncoder → List ℕ
stream e = bytes_bits e.output ++ to_bits e.buffer_bits e.buffer

pub record Writes (bits : List ℕ) (e e' : HuffmanEncoder) : Type 0 where
  pub written : stream e' ≡ stream e ++ bits
  pub valid : IsValid e'

Writes-nil : {e : HuffmanEncoder} → IsValid e → Writes [] e e
Writes-nil {e} v = record { written = sym (append-nil (stream e)); valid = v }

Writes-append :
    {xs ys : List ℕ} {e e' e'' : HuffmanEncoder}
    → Writes xs e e'
    → Writes ys e' e''
    → Writes (xs ++ ys) e e''
Writes-append {xs} {ys} {e} a b = record {
  written = b.written ∙ ap (λ zs. zs ++ ys) a.written ∙ append_assoc (stream e) xs ys;
  valid = b.valid;
}

write_bits-Writes :
    (n w : ℕ) (e : HuffmanEncoder)
    → IsValid e
    → e.buffer_bits + w ≤ 8
    → Writes (to_bits w n) e (write_bits (n % 2 ^ w) w e)
unfolding write_bits stream bytes_bits to_bits
write_bits-Writes n w e v h =
    let joined = e.buffer * 2 ^ w + n % 2 ^ w in
    let bound : joined < 2 ^ (e.buffer_bits + w) = join-lt e.buffer_bits w e.buffer n v.small in
    let byte : 2 ^ (e.buffer_bits + w) ≤ 2 ^ 8 =
      pow-le-pow_right {n = 2} (omega arith) {i = e.buffer_bits + w} {j = 8} h in
    let whole : e.buffer * 2 ^ w % 2 ^ 32 ≡ e.buffer * 2 ^ w =
      mod-eq_of_lt (omega (arith, bound, byte)) in
    let cast : joined % 2 ^ 8 ≡ joined = mod-eq_of_lt (omega (arith, bound, byte)) in
    let bits = to_bits-join e.buffer_bits w e.buffer n in
    let after : stream e ++ to_bits w n
        ≡ bytes_bits e.output ++ to_bits (e.buffer_bits + w) joined =
      append_assoc (bytes_bits e.output) (to_bits e.buffer_bits e.buffer) (to_bits w n)
      ∙ ap (λ xs. bytes_bits e.output ++ xs) (sym bits) in
    elim (Bool-cases (e.buffer_bits + w == 8)) [
      | inl p ↦
          let full : e.buffer_bits + w ≡ 8 = ground arith in
          rw (p, whole, cast)
            (record {
              written =
                  append-nil (bytes_bits (e.output ++ (joined ∷ [])))
                  ∙ bytes_bits-append e.output (joined ∷ [])
                  ∙ ap (λ xs. bytes_bits e.output ++ xs)
                      (append-nil (to_bits 8 joined) ∙ ap (λ k. to_bits k joined) (sym full))
                  ∙ sym after;
              valid = record { partial = omega arith; small = omega arith };
            })
      | inr p ↦
          rw (p, whole)
            (record {
              written = sym after;
              valid = record { partial = ground (arith, h); small = bound };
            })
    ]

append_loop-Writes :
    (fuel bits count : ℕ) (e : HuffmanEncoder)
    → IsValid e
    → count ≤ fuel
    → Writes (to_bits count bits) e (append_loop fuel bits count e)
unfolding append_loop to_bits
append_loop-Writes zero bits count e v h =
    let none_left : 0 ≡ count = omega arith in
    subst (λ k. Writes (to_bits k bits) e e) none_left (Writes-nil v)
append_loop-Writes (suc fuel) bits count e v h = elim (Bool-cases (count == 0)) [
  | inl p ↦
      let none_left : 0 ≡ count = ground arith in
      rw p (subst (λ k. Writes (to_bits k bits) e e) none_left (Writes-nil v))
  | inr p ↦
      let w = min (8 - e.buffer_bits) count in
      let shift = count - w in
      let e' = write_bits (bits / 2 ^ shift % 2 ^ w) w e in
      let a = write_bits-Writes (bits / 2 ^ shift) w e v (omega (arith, v.partial)) in
      let b = append_loop-Writes fuel bits shift e' a.valid (ground (arith, v.partial)) in
      let all : w + shift ≡ count = omega arith in
      rw p (
        subst (λ bs. Writes bs e (append_loop fuel bits shift e'))
          (sym (to_bits-split w shift bits) ∙ ap (λ k. to_bits k bits) all) (Writes-append a b))
]

pub append_bits-Writes :
    (bits count : ℕ) (e : HuffmanEncoder)
    → IsValid e
    → Writes (to_bits count bits) e (append_bits bits count e)
unfolding append_bits
append_bits-Writes bits count e v = append_loop-Writes count bits count e v (omega arith)

-- The bits of a code
abbrev pub code_bits : HuffmanCode → List ℕ
code_bits c = to_bits c.length c.code

-- The bits of the codes of the symbols, if all have one
unfoldable pub codes_bits : HuffmanTable → List ℕ → Option (List ℕ)
codes_bits t [] = some []
codes_bits t (symbol ∷ symbols) = elim (get_code symbol t) [
  | none ↦ none
  | some c ↦ elim (codes_bits t symbols) [ none ↦ none | some bits ↦ some (code_bits c ++ bits) ]
]

encode_symbol-Writes :
    (symbol : ℕ) (t : HuffmanTable) (c : HuffmanCode) (e : HuffmanEncoder)
    → IsValid e
    → get_code symbol t ≡ some c
    → (e' : HuffmanEncoder) × (encode_symbol symbol t e ≡ some e') × Writes (code_bits c) e e'
unfolding encode_symbol
encode_symbol-Writes symbol t c e v h = (
  append_bits c.code c.length e,
  rw (h, encode_symbol) refl,
  append_bits-Writes c.code c.length e v,
)

pub encode_symbols-Writes :
    (symbols : List ℕ) (t : HuffmanTable) (bits : List ℕ) (e : HuffmanEncoder)
    → IsValid e
    → codes_bits t symbols ≡ some bits
    → (e' : HuffmanEncoder) × (encode_symbols symbols t e ≡ some e') × Writes bits e e'
unfolding encode_symbols codes_bits
encode_symbols-Writes [] t bits e v h =
    let empty : [] ≡ bits = ground arith in
    (e, refl, subst (λ bs. Writes bs e e) empty (Writes-nil v))
encode_symbols-Writes (symbol ∷ symbols) t bits e v h = elim (Option-cases (get_code symbol t)) [
  | inl p ↦ ground (arith, p)
  | inr (c, p) ↦ elim (Option-cases (codes_bits t symbols)) [
    | inl q ↦ ground (arith, p, q)
    | inr (rest, q) ↦
        let (e₁, s, w) = encode_symbol-Writes symbol t c e v p in
        let (e₂, s', w') = encode_symbols-Writes symbols t rest e₁ w.valid q in
        let all : code_bits c ++ rest ≡ bits = ground (arith, p, q) in
        (e₂, rw (s, encode_symbols) s', subst (λ bs. Writes bs e e₂) all (Writes-append w w'))
  ]
]

-- The bits that fill the last byte
unfoldable pub padding : HuffmanEncoder → List ℕ
padding e = if ltb 0 e.buffer_bits then to_bits (8 - e.buffer_bits) 0 else []

pub finish-Writes :
    (e : HuffmanEncoder) → IsValid e → bytes_bits (finish e).1 ≡ stream e ++ padding e
unfolding finish stream padding bytes_bits to_bits
finish-Writes e v = elim (Bool-cases (ltb 0 e.buffer_bits)) [
  | inr p ↦
      let none_left : e.buffer_bits ≡ 0 = ground arith in
      let empty : [] ≡ to_bits e.buffer_bits e.buffer ++ [] =
        sym (ap (λ k. to_bits k e.buffer ++ []) none_left) in
      rw p (
        sym (append-nil (bytes_bits e.output))
        ∙ ap (λ xs. bytes_bits e.output ++ xs) empty
        ∙ sym (append_assoc (bytes_bits e.output) (to_bits e.buffer_bits e.buffer) []))
  | inl p ↦
      let k = 8 - e.buffer_bits in
      let last = e.buffer * 2 ^ k in
      let filled : e.buffer_bits + k ≡ 8 = omega (arith, v.partial) in
      let bound : last < 2 ^ 8 =
        omega (arith, join-lt e.buffer_bits k e.buffer 0 v.small, ap (λ n. 2 ^ n) filled) in
      let whole : last % 2 ^ 32 % 2 ^ 8 ≡ last =
        ap (λ n. n % 2 ^ 8) (mod-eq_of_lt (omega (arith, bound))) ∙ mod-eq_of_lt bound in
      let bits : to_bits 8 last ≡ to_bits e.buffer_bits e.buffer ++ to_bits k 0 =
        ap₂ to_bits (sym filled) (omega (arith, mod-eq_of_lt (pow_pos k)))
        ∙ to_bits-join e.buffer_bits k e.buffer 0 in
      rw (p, whole)
        (bytes_bits-append e.output (last ∷ [])
          ∙ ap (λ xs. bytes_bits e.output ++ xs) (append-nil (to_bits 8 last) ∙ bits)
          ∙ sym (append_assoc (bytes_bits e.output) (to_bits e.buffer_bits e.buffer) (to_bits k 0)))
]
