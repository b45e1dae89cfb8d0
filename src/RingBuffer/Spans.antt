-- ===== src/RingBuffer/Spans.antt =====
-- The spans that `writeSpans`, `readSpans` and the iovec forms hand out.
use galay_utils.Prelude.{
  ℕ, zero, suc, ◌+◌, ◌-◌, ◌%◌, ◌≤◌, ◌<◌, ◌≡◌, refl, ap, ap₂, sym, ◌∙◌, arith, length, List, [], ◌∷◌,
  ◌++◌, append-nil, take, take_whole, min, leb, Bool-cases, ◌⊎◌, true, false, inl, inr,
}
use galay_utils.Prelude.Arrays.{tabulate, tabulate-add, tabulate-ext, mod_once}
use native.Mathlib.Nat.{mod-eq_of_lt, mod-add-mod}
use galay_utils.RingBuffer.{
  RingBuffer, Span, is_full, write_spans, read_spans, get_write_iovecs, get_read_iovecs,
  span_unless_empty,
}
use galay_utils.RingBuffer.Valid.{IsValid, around, write_index_cases}

-- The indices of the memory that spans cover, in order.
abbrev pub indices : List Span → List ℕ
indices [] = []
indices (s ∷ spans) = tabulate s.count (λ i. s.offset + i) ++ indices spans

-- Two spans that a count of bytes from an index on falls into.
abbrev pub wrapped : ℕ → ℕ → ℕ → List Span
wrapped cap h n = span_unless_empty h (min n (cap - h)) ++ span_unless_empty 0 (n - min n (cap - h))

indices_span :
    (h n : ℕ) (rest : List Span)
    → indices (span_unless_empty h n ++ rest) ≡ tabulate n (λ i. h + i) ++ indices rest
indices_span h zero rest = refl
indices_span h (suc n) rest = ground arith

indices_single : (h n : ℕ) → indices (span_unless_empty h n) ≡ tabulate n (λ i. h + i)
indices_single h n =
    ap indices (sym (append-nil (span_unless_empty h n)))
    ∙ indices_span h n []
    ∙ append-nil (tabulate n (λ i. h + i))

pub indices-wrapped :
    (cap h n : ℕ) → h < cap → n ≤ cap → indices (wrapped cap h n) ≡ tabulate n (λ i. (h + i) % cap)
indices-wrapped cap h n hh hn =
    let a = min n (cap - h) in
    let b = n - min n (cap - h) in
    let front : tabulate a (λ i. h + i) ≡ tabulate a (λ i. (h + i) % cap) =
      tabulate-ext a _ _ (λ i p. sym (mod-eq_of_lt (omega arith))) in
    let back : tabulate b (λ i. 0 + i) ≡ tabulate b (λ i. (h + (a + i)) % cap) =
      tabulate-ext b _ _ (λ i p. ground (arith, mod_once (h + (a + i)) cap)) in
    let all : tabulate n (λ i. (h + i) % cap)
        ≡ tabulate a (λ i. (h + i) % cap) ++ tabulate b (λ i. (h + (a + i)) % cap) =
      ap (λ k. tabulate k (λ i. (h + i) % cap)) {x = n} {y = a + b} (omega arith)
      ∙ tabulate-add a b (λ i. (h + i) % cap) in
    indices_span h a (span_unless_empty 0 b) ∙ ap₂ ◌++◌ front (indices_single 0 b ∙ back) ∙ sym all

pub write_spans-eq :
    {r : RingBuffer}
    → IsValid r
    → write_spans r ≡ wrapped (length r.buffer) r.write_index (length r.buffer - r.size)
unfolding write_spans
write_spans-eq {r} v = ground (arith, write_index_cases v)

pub read_spans-eq :
    {r : RingBuffer} → IsValid r → read_spans r ≡ wrapped (length r.buffer) r.read_index r.size
unfolding read_spans
read_spans-eq {r} v = ground (arith, write_index_cases v)

pub read_in_range :
    {r : RingBuffer} → IsValid r → 0 < length r.buffer → r.read_index < length r.buffer
read_in_range v h = omega arith

pub write_in_range :
    {r : RingBuffer} → IsValid r → 0 < length r.buffer → r.write_index < length r.buffer
write_in_range {r} v h = ground (arith, write_index_cases v)

pub around_write :
    {r : RingBuffer}
    → IsValid r
    → (i : ℕ) → around r r.write_index i ≡ around r r.read_index (r.size + i)
around_write {r} v i = rw v.write_at (
    mod-add-mod (r.read_index + r.size) (length r.buffer) i
    ∙ ap (λ x. x % length r.buffer) (omega arith))

-- On a valid buffer the spans of `readSpans` and then those of `writeSpans` go once round the whole
-- memory, from the read index on: the first cover the bytes to be read, in order, the second cover
-- exactly the rest, from the write index on, and no byte lies in both.
pub spans_partition :
    {r : RingBuffer}
    → IsValid r
    → 0 < length r.buffer
    → (indices (read_spans r) ≡ tabulate r.size (around r r.read_index))
      × (indices (write_spans r) ≡ tabulate (length r.buffer - r.size) (around r r.write_index))
      × (indices (read_spans r) ++ indices (write_spans r)
          ≡ tabulate (length r.buffer) (around r r.read_index))
spans_partition {r} v h =
    let cap = length r.buffer in
    let reading : indices (read_spans r) ≡ tabulate r.size (around r r.read_index) =
      ap indices (read_spans-eq v)
      ∙ indices-wrapped cap r.read_index r.size (read_in_range v h) v.within in
    let writing : indices (write_spans r) ≡ tabulate (cap - r.size) (around r r.write_index) =
      ap indices (write_spans-eq v)
      ∙ indices-wrapped cap r.write_index (cap - r.size) (write_in_range v h) (omega arith) in
    let shifted : tabulate (cap - r.size) (around r r.write_index)
        ≡ tabulate (cap - r.size) (λ i. around r r.read_index (r.size + i)) =
      tabulate-ext (cap - r.size) _ _ (λ i p. around_write v i) in
    (
      reading,
      writing,
      ap₂ ◌++◌ reading (writing ∙ shifted)
          ∙ sym (tabulate-add r.size (cap - r.size) (around r r.read_index))
          ∙ ap (λ k. tabulate k (around r r.read_index)) (omega arith),
    )

length-write_spans : (r : RingBuffer) → length (write_spans r) ≤ 2
unfolding write_spans
length-write_spans r = ground arith

length-read_spans : (r : RingBuffer) → length (read_spans r) ≤ 2
unfolding read_spans
length-read_spans r = ground arith

-- The same two spans, in each form, where the free space starts at or after the read index.
module _ {r : RingBuffer} (v : IsValid r) where
  write_iovecs-full : (n : ℕ) → is_full r ≡ true → get_write_iovecs r (suc n) ≡ write_spans r
  unfolding get_write_iovecs write_spans
  write_iovecs-full n e = ground arith

  write_iovecs-before :
      (n : ℕ)
      → is_full r ≡ false
      → leb r.read_index r.write_index ≡ false
      → get_write_iovecs r (suc n) ≡ write_spans r
  unfolding get_write_iovecs write_spans
  write_iovecs-before n e h = ground arith

  write_iovecs-after :
      (n : ℕ)
      → is_full r ≡ false
      → leb r.read_index r.write_index ≡ true
      → get_write_iovecs r (suc (suc n)) ≡ write_spans r
  unfolding get_write_iovecs write_spans
  write_iovecs-after n e h = ground (arith, write_index_cases v)

  write_iovecs_one-after :
      is_full r ≡ false
      → leb r.read_index r.write_index ≡ true
      → get_write_iovecs r 1 ≡ take 1 (write_spans r)
  unfolding get_write_iovecs write_spans
  write_iovecs_one-after e h = ground (arith, write_index_cases v)

  write_after :
      (n : ℕ)
      → is_full r ≡ false
      → leb r.read_index r.write_index ≡ true
      → get_write_iovecs r (suc n) ≡ take (suc n) (write_spans r)
  write_after zero e h = write_iovecs_one-after e h
  write_after (suc n) e h =
      write_iovecs-after n e h
      ∙ sym (take_whole (suc (suc n)) _ (omega (arith, length-write_spans r)))

  one_span :
      (is_full r ≡ true) ⊎ (leb r.read_index r.write_index ≡ false) → length (write_spans r) ≤ 1
  unfolding write_spans
  one_span (inl e) = ground arith
  one_span (inr h) = ground arith

  write_iovecs-eq-take : (n : ℕ) → get_write_iovecs r n ≡ take n (write_spans r)
  write_iovecs-eq-take zero = unfold get_write_iovecs in refl
  write_iovecs-eq-take (suc n) = elim (Bool-cases (is_full r)) [
    | inl e ↦ write_iovecs-full n e ∙ sym (take_whole (suc n) _ (omega (arith, one_span (inl e))))
    | inr e ↦ elim (Bool-cases (leb r.read_index r.write_index)) [
      | inr h ↦
          write_iovecs-before n e h ∙ sym (take_whole (suc n) _ (omega (arith, one_span (inr h))))
      | inl h ↦ write_after n e h
    ]
  ]

read_iovecs-all :
    (n : ℕ) {r : RingBuffer} → IsValid r → get_read_iovecs r (suc (suc n)) ≡ read_spans r
unfolding get_read_iovecs read_spans
read_iovecs-all n {r} v = ground (arith, write_index_cases v)

read_iovecs-eq-take :
    (n : ℕ) {r : RingBuffer} → IsValid r → get_read_iovecs r n ≡ take n (read_spans r)
unfolding get_read_iovecs read_spans
read_iovecs-eq-take zero v = refl
read_iovecs-eq-take (suc zero) {r} v = ground (arith, write_index_cases v)
read_iovecs-eq-take (suc (suc n)) {r} v =
    read_iovecs-all n v
    ∙ sym (take_whole (suc (suc n)) (read_spans r) (omega (arith, length-read_spans r)))

-- On a valid buffer the iovecs are the first of the spans, as many as the array has room for.
pub iovecs_eq_take :
    (n : ℕ) {r : RingBuffer}
    → IsValid r
    → (get_write_iovecs r n ≡ take n (write_spans r))
      × (get_read_iovecs r n ≡ take n (read_spans r))
iovecs_eq_take n v = (write_iovecs-eq-take v n, read_iovecs-eq-take n v)
