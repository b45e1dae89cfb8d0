-- ===== src/Huffman/Table.antt =====
-- A table in which no code is the beginning of another, and what adding a code does to it.
use mathlib.Core.Path.{subst}
use native.Mathlib.Nat.{div-one}
use galay_utils.Prelude.{
  ℕ, ◌-◌, ◌/◌, ◌^◌, ◌≤◌, ◌<◌, ◌≡◌, refl, ap, ap₂, sym, ◌∙◌, arith, true, false, ◌||◌, List, [], ◌∷◌,
  none, some, ◌==◌, ltb, if◌then◌else◌, Bool-cases, inl, inr, ◌⊎◌,
}
use galay_utils.Huffman.{
  HuffmanTable, HuffmanCode, same_code, find_code, find_symbol, assign_code, assign_symbol,
  add_code, has_symbol,
}

find_code-assign_code :
    (symbol s : ℕ) (c : HuffmanCode) (codes : List (ℕ × HuffmanCode))
    → find_code symbol (assign_code s c codes)
      ≡ (if s == symbol then some c else find_code symbol codes)
unfolding find_code assign_code
find_code-assign_code symbol s c [] = refl
find_code-assign_code symbol s c ((k, x) ∷ codes) =
    ground (arith, find_code-assign_code symbol s c codes)

same_code-eq :
    (a b : HuffmanCode) → same_code a b ≡ true → (a.code ≡ b.code) × (a.length ≡ b.length)
same_code-eq a b h = ground arith

find_symbol-assign_symbol :
    (c key : HuffmanCode) (s : ℕ) (symbols : List (HuffmanCode × ℕ))
    → find_symbol key (assign_symbol c s symbols)
      ≡ (if same_code c key then some s else find_symbol key symbols)
unfolding find_symbol assign_symbol
find_symbol-assign_symbol c key s [] = refl
find_symbol-assign_symbol c key s ((x, k) ∷ symbols) =
    ground (arith, find_symbol-assign_symbol c key s symbols)

-- The bits of one code begin those of another.
pub record Prefix (p c : HuffmanCode) : Type 0 where
  pub shorter : p.length ≤ c.length
  pub begins : c.code / 2 ^ (c.length - p.length) ≡ p.code

abbrev pub Owns : ℕ → HuffmanCode → HuffmanTable → Type 0
Owns s c t =
    (find_symbol c t.decode_table ≡ some s)
    × (0 < c.length)
    × (c.length ≤ 32)
    × (c.code < 2 ^ c.length)

pub record IsFree (t : HuffmanTable) : Type 0 where
  pub own : (s : ℕ) (c : HuffmanCode) → find_code s t.encode_table ≡ some c → Owns s c t
  pub free :
      (c c' : HuffmanCode) (s s' : ℕ)
      → find_symbol c t.decode_table ≡ some s
      → find_symbol c' t.decode_table ≡ some s'
      → Prefix c c'
      → c.length ≡ c'.length

-- No code of the table begins this one or is begun by it.
pub record Fresh (p : HuffmanCode) (t : HuffmanTable) : Type 0 where
  pub below : (c : HuffmanCode) (s : ℕ) → find_symbol c t.decode_table ≡ some s → ¬ Prefix p c
  pub above : (c : HuffmanCode) (s : ℕ) → find_symbol c t.decode_table ≡ some s → ¬ Prefix c p

-- The new codes begin with this one.
pub record Grows (p : HuffmanCode) (t t' : HuffmanTable) : Type 0 where
  pub grown :
      (c : HuffmanCode) (s : ℕ)
      → find_symbol c t'.decode_table ≡ some s
      → (find_symbol c t.decode_table ≡ some s) ⊎ Prefix p c

pub same-Prefix : (p c : HuffmanCode) → same_code p c ≡ true → Prefix p c
same-Prefix p c h =
    let (code, length) = same_code-eq p c h in
    let zero_left : c.length - p.length ≡ 0 = omega (arith, length) in
    record {
      shorter = omega (arith, length);
      begins = ap (λ k. c.code / 2 ^ k) zero_left ∙ div-one c.code ∙ sym code;
    }

added : ℕ → HuffmanCode → HuffmanTable → HuffmanTable
added s p t = record {
  encode_table = assign_code s p t.encode_table;
  decode_table = assign_symbol p s t.decode_table;
}

-- A code of the new table is the new one or an old one.
added-cases :
    (s : ℕ) (p : HuffmanCode) (t : HuffmanTable) (c : HuffmanCode) (k : ℕ)
    → find_symbol c (added s p t).decode_table ≡ some k
    → (same_code p c ≡ true) ⊎ (find_symbol c t.decode_table ≡ some k)
unfolding added
added-cases s p t c k h = elim (Bool-cases (same_code p c)) [
  | inl q ↦ inl q
  | inr q ↦ inr (ground (arith, q, h, find_symbol-assign_symbol p c s t.decode_table))
]

added-Grows : (s : ℕ) (p : HuffmanCode) (t : HuffmanTable) → Grows p t (added s p t)
added-Grows s p t = record {
  grown =
      λ c k h. elim (added-cases s p t c k h) [ inl q ↦ inr (same-Prefix p c q) | inr q ↦ inl q ];
}

same_code-swap : (a b : HuffmanCode) → same_code a b ≡ true → same_code b a ≡ true
same_code-swap a b h = ground arith

Prefix-same : {a b c : HuffmanCode} → same_code b a ≡ true → Prefix a c → Prefix b c
Prefix-same {a} {b} {c} q h =
    let (code, length) = same_code-eq b a q in
    record {
      shorter = omega (arith, length, h.shorter);
      begins = ap (λ k. c.code / 2 ^ (c.length - k)) length ∙ h.begins ∙ sym code;
    }

Prefix-to : {a b c : HuffmanCode} → same_code b c ≡ true → Prefix a c → Prefix a b
Prefix-to {a} {b} {c} q h =
    let (code, length) = same_code-eq b c q in
    record {
      shorter = omega (arith, length, h.shorter);
      begins = ap₂ (λ n k. n / 2 ^ (k - a.length)) code length ∙ h.begins;
    }

added-IsFree :
    (s : ℕ) (p : HuffmanCode) {t : HuffmanTable}
    → IsFree t
    → Fresh p t
    → 0 < p.length
    → p.length ≤ 32
    → p.code < 2 ^ p.length
    → IsFree (added s p t)
unfolding added
added-IsFree s p {t} v f pos short word = record {
  own = λ k c h. elim (Bool-cases (s == k)) [
    | inl q ↦
        let same_s : s ≡ k = ground arith in
        let both : p ≡ c = ground (arith, q, h, find_code-assign_code k s p t.encode_table) in
        let mine : same_code p p ≡ true = ground arith in
        let stored : find_symbol p (assign_symbol p s t.decode_table) ≡ some s =
          find_symbol-assign_symbol p p s t.decode_table ∙ rw mine refl in
        subst (λ y. Owns k y (added s p t)) both
          (subst (λ j. Owns j p (added s p t)) same_s (stored, pos, short, word))
    | inr q ↦
        let old : find_code k t.encode_table ≡ some c =
          ground (arith, q, h, find_code-assign_code k s p t.encode_table) in
        let (stored, pos', short', word') = v.own k c old in
        (
          elim (Bool-cases (same_code p c)) [
            | inl r ↦ absurd (f.below c k stored (same-Prefix p c r))
            | inr r ↦ find_symbol-assign_symbol p c s t.decode_table ∙ rw r stored
          ],
          pos',
          short',
          word',
        )
  ];
  free = λ c c' k k' h h' below. elim (added-cases s p t c k h) [
    | inl q ↦ elim (added-cases s p t c' k' h') [
      | inl q' ↦ ground (arith, q, q')
      | inr old' ↦ absurd (f.below c' k' old' (Prefix-same q below))
    ]
    | inr old ↦ elim (added-cases s p t c' k' h') [
      | inl q' ↦ absurd (f.above c k old (Prefix-to q' below))
      | inr old' ↦ v.free c c' k k' old old' below
    ]
  ];
}

-- `addCode` of a code that is long enough and fits
pub add_code-IsFree :
    (s code length : ℕ) {t : HuffmanTable} {t' : HuffmanTable}
    → IsFree t
    → Fresh (record { code = code; length = length }) t
    → 0 < length
    → code < 2 ^ length
    → add_code s code length t ≡ some t'
    → IsFree t'
      × Grows (record { code = code; length = length }) t t'
      × ((k : ℕ) → has_symbol k t' ≡ (s == k || has_symbol k t))
unfolding add_code added has_symbol
add_code-IsFree s code length {t} {t'} v f pos word h = elim (Bool-cases (ltb 32 length)) [
  | inl p ↦ ground (arith, p)
  | inr p ↦
      let c : HuffmanCode = record { code = code; length = length } in
      let made : added s c t ≡ t' = ground (arith, p) in
      subst (λ u. IsFree u × Grows c t u × ((k : ℕ) → has_symbol k u ≡ (s == k || has_symbol k t)))
        made
        (
          added-IsFree s c v f pos (ground (arith, p)) word,
          added-Grows s c t,
          λ k. ground (arith, find_code-assign_code k s c t.encode_table),
        )
]

pub add_code-long :
    (s code length : ℕ) (t : HuffmanTable) → 32 < length → add_code s code length t ≡ none
unfolding add_code
add_code-long s code length t h = ground (arith, h)

pub add_code-some :
    (s code length : ℕ) (t : HuffmanTable)
    → length ≤ 32
    → (t' : HuffmanTable) × (add_code s code length t ≡ some t')
unfolding add_code added
add_code-some s code length t h =
    let short : ltb 32 length ≡ false = ground (arith, h) in
    (added s (record { code = code; length = length }) t, rw short refl)
