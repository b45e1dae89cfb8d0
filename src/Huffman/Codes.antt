-- ===== src/Huffman/Codes.antt =====
-- The codes of a tree: none is the beginning of another.
use native.Mathlib.Omega.{pow_step}
use native.Mathlib.Nat.{div-one, mod-eq_of_lt, div-div-eq-div-mul, pow-le-pow_right}
use galay_utils.Prelude.{
  ℕ, suc, ◌+◌, ◌-◌, ◌*◌, ◌/◌, ◌%◌, ◌^◌, ◌≤◌, ◌<◌, ◌≡◌, refl, ap, ap₂, sym, ◌∙◌, arith, Bool, false,
  ◌||◌, Option, none, some, ◌==◌, leb, Bool-cases, Option-cases, inl, inr, ◌⊎◌,
}
use galay_utils.Huffman.{
  HuffmanTable, HuffmanCode, HuffmanNode, leaf, node, has_symbol, generate_codes,
}
use galay_utils.Huffman.Table.{
  Prefix, IsFree, Fresh, Grows, add_code-IsFree, add_code-long, add_code-some,
}

-- The number of inner nodes, which no depth exceeds
unfoldable pub joins : HuffmanNode → ℕ
joins (leaf _ _) = 0
joins (node _ l r) = suc (joins l + joins r)

unfoldable pub in_tree : ℕ → HuffmanNode → Bool
in_tree k (leaf s _) = s == k
in_tree k (node _ l r) = in_tree k l || in_tree k r

abbrev pub code_at : ℕ → ℕ → HuffmanCode
code_at code length = record { code = code; length = length }

generate_codes-long :
    (n : HuffmanNode) (code length : ℕ) (t : HuffmanTable)
    → 32 < length
    → length + joins n ≤ 255
    → generate_codes n code length t ≡ none
unfolding generate_codes joins
generate_codes-long (leaf s f) code length t h fits =
    let some_bits : (length == 0) ≡ false = ground (arith, h) in
    rw some_bits (add_code-long s code length t h)
generate_codes-long (node f l r) code length t h fits =
    let deeper : (length + 1) % 2 ^ 8 ≡ length + 1 = mod-eq_of_lt (omega (arith, fits)) in
    rw
      (generate_codes-long l (code * 2 % 2 ^ 32) ((length + 1) % 2 ^ 8) t (omega (arith, deeper, h))
        (omega (arith, deeper, fits)))
      refl

-- A child's code begins with its parent's.
Prefix-child :
    (code length bit : ℕ) (c : HuffmanCode)
    → bit < 2
    → Prefix (code_at (code * 2 + bit) (length + 1)) c
    → Prefix (code_at code length) c
Prefix-child code length bit c b h =
    let rest = c.length - (length + 1) in
    let one_more : c.length - length ≡ suc rest = omega (arith, h.shorter) in
    let half : c.code / 2 ^ suc rest ≡ c.code / 2 ^ rest / 2 =
      ap (λ m. c.code / m) (pow_step 2 rest ∙ omega arith)
      ∙ sym (div-div-eq-div-mul c.code (2 ^ rest) 2) in
    record {
      shorter = omega (arith, h.shorter);
      begins =
          ap (λ k. c.code / 2 ^ k) one_more ∙ half ∙ ap (λ m. m / 2) h.begins ∙ omega (arith, b);
    }

-- What begins a child's code is the child's or begins the parent's.
child-Prefix :
    (code length bit : ℕ) (c : HuffmanCode)
    → bit < 2
    → Prefix c (code_at (code * 2 + bit) (length + 1))
    → Prefix c (code_at code length) ⊎ Prefix (code_at code length) c
child-Prefix code length bit c b h = elim (Bool-cases (leb c.length length)) [
  | inl p ↦
      let rest = length - c.length in
      let short : c.length ≤ length = ground arith in
      let one_more : length + 1 - c.length ≡ suc rest = omega (arith, short) in
      let half : (code * 2 + bit) / 2 ^ suc rest ≡ code / 2 ^ rest =
        ap (λ m. (code * 2 + bit) / m) (pow_step 2 rest)
        ∙ sym (div-div-eq-div-mul (code * 2 + bit) 2 (2 ^ rest))
        ∙ ap (λ m. m / 2 ^ rest) (omega (arith, b)) in
      inl (record {
        shorter = short;
        begins = sym half ∙ sym (ap (λ k. (code * 2 + bit) / 2 ^ k) one_more) ∙ h.begins;
      })
  | inr p ↦
      let same : c.length ≡ length + 1 = ground (arith, h.shorter) in
      let zero_left : length + 1 - c.length ≡ 0 = omega (arith, same) in
      let code_same : code * 2 + bit ≡ c.code =
        sym (div-one (code * 2 + bit))
        ∙ sym (ap (λ k. (code * 2 + bit) / 2 ^ k) zero_left)
        ∙ h.begins in
      let one_more : c.length - length ≡ 1 = omega (arith, same) in
      inr (record {
        shorter = omega (arith, same);
        begins = ap (λ k. c.code / 2 ^ k) one_more ∙ omega (arith, code_same, b);
      })
]

Fresh-child :
    (code length bit : ℕ) {t : HuffmanTable}
    → bit < 2
    → Fresh (code_at code length) t
    → Fresh (code_at (code * 2 + bit) (length + 1)) t
Fresh-child code length bit b f = record {
  below = λ c s h p. f.below c s h (Prefix-child code length bit c b p);
  above = λ c s h p. elim (child-Prefix code length bit c b p) [
    | inl q ↦ f.above c s h q
    | inr q ↦ f.below c s h q
  ];
}

left_right :
    (code length : ℕ) (c : HuffmanCode)
    → Prefix (code_at (code * 2 + 0) (length + 1)) c
    → ¬ Prefix (code_at (code * 2 + 1) (length + 1)) c
left_right code length c a b = omega (arith, a.begins, b.begins)

left_above :
    (code length : ℕ) (c : HuffmanCode)
    → Prefix (code_at (code * 2 + 0) (length + 1)) c
    → ¬ Prefix c (code_at (code * 2 + 1) (length + 1))
left_above code length c a b =
    let same : c.length ≡ length + 1 = omega (arith, a.shorter, b.shorter) in
    let zero_left : c.length - (length + 1) ≡ 0 = omega (arith, same) in
    let zero_over : length + 1 - c.length ≡ 0 = omega (arith, same) in
    let left : c.code ≡ code * 2 + 0 =
      sym (div-one c.code) ∙ sym (ap (λ k. c.code / 2 ^ k) zero_left) ∙ a.begins in
    let right : code * 2 + 1 ≡ c.code =
      sym (div-one (code * 2 + 1)) ∙ sym (ap (λ k. (code * 2 + 1) / 2 ^ k) zero_over) ∙ b.begins in
    omega (arith, left, right)

-- The right child's code is fresh once the left child's codes are there.
Fresh-right :
    (code length : ℕ) {t t' : HuffmanTable}
    → Fresh (code_at code length) t
    → Grows (code_at (code * 2 + 0) (length + 1)) t t'
    → Fresh (code_at (code * 2 + 1) (length + 1)) t'
Fresh-right code length f g =
    let old = Fresh-child code length 1 (omega arith) f in
    record {
      below = λ c s h p. elim (g.grown c s h) [
        | inl q ↦ old.below c s q p
        | inr q ↦ left_right code length c q p
      ];
      above = λ c s h p. elim (g.grown c s h) [
        | inl q ↦ old.above c s q p
        | inr q ↦ left_above code length c q p
      ];
    }

Grows-node :
    (code length : ℕ) {a b c : HuffmanTable}
    → Grows (code_at (code * 2 + 0) (length + 1)) a b
    → Grows (code_at (code * 2 + 1) (length + 1)) b c
    → Grows (code_at code length) a c
Grows-node code length g h = record {
  grown = λ c s k. elim (h.grown c s k) [
    | inr q ↦ inr (Prefix-child code length 1 c (omega arith) q)
    | inl k' ↦ elim (g.grown c s k') [
      | inr q ↦ inr (Prefix-child code length 0 c (omega arith) q)
      | inl q ↦ inl q
    ]
  ];
}

-- The codes of the two children, one after the other
children : HuffmanNode → HuffmanNode → HuffmanTable → ℕ → ℕ → ℕ → Option HuffmanTable
children l r t left right length = elim (generate_codes l left length t) [
  | none ↦ none
  | some t' ↦ generate_codes r right length t'
]

generate_codes-node :
    (f : ℕ) (l r : HuffmanNode) (code length : ℕ) (t : HuffmanTable)
    → (length + 1) % 2 ^ 8 ≡ length + 1
    → code * 2 % 2 ^ 32 ≡ code * 2 + 0
    → generate_codes (node f l r) code length t
      ≡ children l r t (code * 2 + 0) (code * 2 + 1) (length + 1)
unfolding generate_codes children
generate_codes-node f l r code length t deeper left =
    let right : code * 2 % 2 ^ 32 + 1 ≡ code * 2 + 1 = omega (arith, left) in
    ap (λ c. children l r t c (code * 2 % 2 ^ 32 + 1) ((length + 1) % 2 ^ 8)) left
    ∙ ap₂ (children l r t (code * 2 + 0)) right deeper

children-some :
    (l r : HuffmanNode) (t : HuffmanTable) {t' : HuffmanTable} (left right length : ℕ)
    → children l r t left right length ≡ some t'
    → (u : HuffmanTable) × (generate_codes l left length t ≡ some u)
      × (generate_codes r right length u ≡ some t')
unfolding children
children-some l r t {t'} left right length h =
    elim (Option-cases (generate_codes l left length t)) [
      | inl q ↦ ground (arith, q, h)
      | inr (u, q) ↦ (u, q, ground (arith, q, h))
    ]

-- What generating the codes of a tree makes of a table.
pub record Coded (n : HuffmanNode) (p : HuffmanCode) (t t' : HuffmanTable) : Type 0 where
  pub free : IsFree t'
  pub grows : Grows p t t'
  pub symbols : (k : ℕ) → has_symbol k t' ≡ (in_tree k n || has_symbol k t)

pub generate_codes-Coded :
    (n : HuffmanNode) (code length : ℕ) {t t' : HuffmanTable}
    → IsFree t
    → Fresh (code_at code length) t
    → 0 < length + joins n
    → length + joins n ≤ 255
    → code < 2 ^ length
    → generate_codes n code length t ≡ some t'
    → Coded n (code_at code length) t t'
unfolding generate_codes joins in_tree
generate_codes-Coded (leaf s f) code length {t} {t'} v fresh pos fits word h =
    let some_bits : (length == 0) ≡ false = ground (arith, pos) in
    let (free, grows, symbols) =
      add_code-IsFree s code length v fresh (omega (arith, pos)) word
        (ground (arith, some_bits, h)) in
    record { free = free; grows = grows; symbols = symbols }
generate_codes-Coded (node f l r) code length {t} {t'} v fresh pos fits word h =
    let deeper : (length + 1) % 2 ^ 8 ≡ length + 1 = mod-eq_of_lt (omega (arith, fits)) in
    elim (Bool-cases (leb 32 length)) [
      | inl p ↦
          let long =
            generate_codes-long l (code * 2 % 2 ^ 32) ((length + 1) % 2 ^ 8) t
              (ground (arith, deeper)) (omega (arith, deeper, fits)) in
          ground (arith, long, h)
      | inr p ↦
          let short : length + 1 ≤ 32 = ground arith in
          let word' : 2 ^ (length + 1) ≤ 2 ^ 32 =
            pow-le-pow_right {n = 2} (omega arith) {i = length + 1} {j = 32} short in
          let twice : 2 ^ (length + 1) ≡ 2 * 2 ^ length =
            ap (λ k. 2 ^ k) (omega arith) ∙ pow_step 2 length in
          let left : code * 2 % 2 ^ 32 ≡ code * 2 + 0 =
            mod-eq_of_lt (omega (arith, word, word', twice)) ∙ omega arith in
          let (u, q, q') =
            children-some l r t (code * 2 + 0) (code * 2 + 1) (length + 1)
              (sym (generate_codes-node f l r code length t deeper left) ∙ h) in
          let a =
            generate_codes-Coded l (code * 2 + 0) (length + 1) v
              (Fresh-child code length 0 (omega arith) fresh) (omega arith) (omega (arith, fits))
              (omega (arith, word, twice)) q in
          let b =
            generate_codes-Coded r (code * 2 + 1) (length + 1) a.free
              (Fresh-right code length fresh a.grows) (omega arith) (omega (arith, fits))
              (omega (arith, word, twice)) q' in
          record {
            free = b.free;
            grows = Grows-node code length a.grows b.grows;
            symbols = λ k. ground (arith, a.symbols k, b.symbols k);
          }
    ]

-- A tree that is not too deep has codes that fit.
pub generate_codes-some :
    (n : HuffmanNode) (code length : ℕ) (t : HuffmanTable)
    → length + joins n ≤ 31
    → (t' : HuffmanTable) × (generate_codes n code length t ≡ some t')
unfolding generate_codes joins
generate_codes-some (leaf s f) code length t h = elim (Bool-cases (length == 0)) [
  | inl p ↦ let (t', q) = add_code-some s 0 1 t (omega arith) in (t', rw p q)
  | inr p ↦ let (t', q) = add_code-some s code length t (omega (arith, h)) in (t', rw p q)
]
generate_codes-some (node f l r) code length t h =
    let deeper : (length + 1) % 2 ^ 8 ≡ length + 1 = mod-eq_of_lt (omega (arith, h)) in
    let (u, p) =
      generate_codes-some l (code * 2 % 2 ^ 32) ((length + 1) % 2 ^ 8) t
        (omega (arith, deeper, h)) in
    let (t', q) =
      generate_codes-some r (code * 2 % 2 ^ 32 + 1) ((length + 1) % 2 ^ 8) u
        (omega (arith, deeper, h)) in
    (t', rw p q)
