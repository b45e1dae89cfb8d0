-- ===== src/RingBuffer/Valid.antt =====
-- The representation invariant of `RingBuffer`, kept by every operation that moves an index.
use galay_utils.Prelude.{
  dec_lt, ap, sym, ◌∙◌, Bool-cases, inl, inr, ◌==◌, ℕ_discrete, ℕ, ◌+◌, ◌-◌, ◌%◌, ◌^◌, ◌≤◌, ◌<◌,
  ◌≡◌, arith, length, length-replicate, some, List, get_or, min, ltb, if◌then◌else◌,
}
use galay_utils.Prelude.Arrays.{tabulate, mod_once}
use native.Mathlib.Nat.{mod-add-mod, mod-lt}
use galay_utils.RingBuffer.{writable, RingBuffer, capacity, init, produce, consume, clear}

-- A vector of bytes has fewer than 2 ^ 63 of them. A moved-from object has none.
pub record IsValid (r : RingBuffer) : Type 0 where
  pub fits : length r.buffer < 2 ^ 63
  pub within : r.size ≤ length r.buffer
  pub read_in : r.read_index ≤ length r.buffer - 1
  pub write_at : r.write_index ≡ (r.read_index + r.size) % length r.buffer

-- The index of the `i`th byte counted from `h`.
abbrev pub around : RingBuffer → ℕ → ℕ → ℕ
around r h i = (h + i) % length r.buffer

-- The bytes that wait to be read, oldest first.
abbrev pub contents : RingBuffer → List ℕ
contents r = tabulate r.size (λ i. get_or r.buffer (around r r.read_index i) 0)

-- A buffer that the constructor builds is valid, empty and of the capacity asked for.
pub init-IsValid :
    (n : ℕ) {r : RingBuffer}
    → n < 2 ^ 63
    → init n ≡ some r
    → IsValid r × (r.size ≡ 0) × (capacity r ≡ n)
unfolding init
init-IsValid n h e = ground (arith, length-replicate {A = ℕ} n 0)

-- Where the write index is, without a remainder.
pub write_index_cases :
    {r : RingBuffer}
    → IsValid r
    → r.write_index ≡ (
        if ltb (r.read_index + r.size) (length r.buffer)
        then r.read_index + r.size
        else r.read_index + r.size - length r.buffer)
write_index_cases {r} v = elim (ℕ_discrete (length r.buffer) 0) [
  | yes e ↦ ground arith
  | no ne ↦ ground (arith, mod_once (r.read_index + r.size) (length r.buffer))
]

-- `produce` and `consume` without the tests of their first line, and with no sum that wraps.
abbrev pub produced : ℕ → RingBuffer → RingBuffer
produced a r = record r { write_index = (r.write_index + a) % length r.buffer; size = r.size + a }

abbrev pub consumed : ℕ → RingBuffer → RingBuffer
consumed a r =
    if r.size - a == 0
    then record r { read_index = 0; write_index = 0; size = 0 }
    else record r { read_index = (r.read_index + a) % length r.buffer; size = r.size - a }

write_index-le : {r : RingBuffer} → IsValid r → r.write_index ≤ length r.buffer
write_index-le {r} v = ground (arith, write_index_cases v)

pub produce_pos :
    (n : ℕ) {r : RingBuffer}
    → IsValid r
    → 0 < n
    → 0 < length r.buffer
    → produce n r ≡ produced (min n (length r.buffer - r.size)) r
unfolding produce
produce_pos n {r} v hn hl =
    let sum : writable r ≡ length r.buffer - r.size = omega arith in
    ground (arith, sum, write_index-le v)

pub consume_pos :
    (n : ℕ) {r : RingBuffer}
    → IsValid r
    → 0 < n
    → 0 < length r.buffer
    → consume n r ≡ consumed (min n r.size) r
unfolding consume
consume_pos n {r} v hn hl = ground arith

produced-IsValid :
    (a : ℕ) {r : RingBuffer} → IsValid r → r.size + a ≤ length r.buffer → IsValid (produced a r)
produced-IsValid a {r} v h = record {
  fits = v.fits;
  within = h;
  read_in = v.read_in;
  write_at = rw v.write_at (
      mod-add-mod (r.read_index + r.size) (length r.buffer) a
      ∙ ap (λ x. x % length r.buffer) (omega arith));
}

consumed-IsValid :
    (a : ℕ) {r : RingBuffer} → IsValid r → 0 < length r.buffer → a ≤ r.size → IsValid (consumed a r)
consumed-IsValid a {r} v hl h =
    let write : r.write_index
        ≡ ((r.read_index + a) % length r.buffer + (r.size - a)) % length r.buffer =
      v.write_at
      ∙ ap (λ x. x % length r.buffer) (omega arith)
      ∙ sym (mod-add-mod (r.read_index + a) (length r.buffer) (r.size - a)) in
    elim (Bool-cases (r.size - a == 0)) [
      | inl e ↦ rw e (ground arith)
      | inr e ↦ rw e (record {
        fits = v.fits;
        within = omega arith;
        read_in = omega (arith, mod-lt (r.read_index + a) hl);
        write_at = write;
      })
    ]

dec_both : (n : ℕ) (r : RingBuffer) → Dec ((0 < n) × (0 < length r.buffer))
dec_both n r = elim (dec_lt 0 n) [
  | no h ↦ no (λ p. h p.0)
  | yes a ↦ elim (dec_lt 0 (length r.buffer)) [ no h ↦ no (λ p. h p.1) | yes b ↦ yes (a, b) ]
]

pub produce_idle : (n : ℕ) (r : RingBuffer) → ¬ ((0 < n) × (0 < length r.buffer)) → produce n r ≡ r
unfolding produce
produce_idle n r h = ground arith

pub consume_idle : (n : ℕ) (r : RingBuffer) → ¬ ((0 < n) × (0 < length r.buffer)) → consume n r ≡ r
unfolding consume
consume_idle n r h = ground arith

-- `produce` keeps a valid buffer valid, whatever number of bytes is announced.
pub produce-IsValid : (n : ℕ) {r : RingBuffer} → IsValid r → IsValid (produce n r)
produce-IsValid n {r} v = elim (dec_both n r) [
  | yes (hn, hl) ↦ rw (produce_pos n v hn hl) (produced-IsValid _ v (omega arith))
  | no h ↦ rw (produce_idle n r h) v
]

-- `consume` keeps a valid buffer valid, whatever number of bytes is announced.
pub consume-IsValid : (n : ℕ) {r : RingBuffer} → IsValid r → IsValid (consume n r)
consume-IsValid n {r} v = elim (dec_both n r) [
  | yes (hn, hl) ↦ rw (consume_pos n v hn hl) (consumed-IsValid _ v hl (omega arith))
  | no h ↦ rw (consume_idle n r h) v
]

pub clear-IsValid : {r : RingBuffer} → IsValid r → IsValid (clear r)
unfolding clear
clear-IsValid {r} v = ground arith
