-- ===== src/RingBuffer/Read.antt =====
-- `read` takes the oldest bytes off the waiting ones.
use galay_utils.Prelude.{
  ℕ, ◌+◌, ◌-◌, ◌%◌, ◌^◌, ◌≤◌, ◌<◌, ◌≡◌, refl, ap, ap₂, sym, ◌∙◌, arith, length, List, [], ◌++◌,
  append-nil, take, drop, get_or, min, ◌==◌, Bool-cases, ==_iff, inl, inr, true, ℕ_discrete,
}
use galay_utils.Prelude.Arrays.{
  tabulate, tabulate-add, tabulate-ext, mod_once, take-drop-eq-tabulate, take-tabulate,
  drop-tabulate,
}
use native.Mathlib.Nat.{mod-add-mod, mod-eq_of_lt}
use galay_utils.RingBuffer.{RingBuffer, read, read_spans, copy_out, consume}
use galay_utils.RingBuffer.Valid.{IsValid, around, contents, consume-IsValid, consume_pos, consumed}
use galay_utils.RingBuffer.Spans.{wrapped, read_spans-eq, read_in_range}

copy_out-wrapped :
    (cap h size n : ℕ) (memory : List ℕ)
    → h < cap
    → cap < 2 ^ 63
    → size ≤ cap
    → n ≤ size
    → 0 < n
    → copy_out (wrapped cap h size) n memory [] 0
      ≡ (take (min n (cap - h)) (drop h memory) ++ take (n - min n (cap - h)) memory, n)
unfolding copy_out
copy_out-wrapped cap h size n memory hh hc hs hn hp =
    ground (arith, append-nil (take (min n (cap - h)) (drop h memory)))

-- The two pieces are the bytes from `h` on, round the end.
pieces :
    (h n : ℕ) (memory : List ℕ)
    → h < length memory
    → n ≤ length memory
    → take (min n (length memory - h)) (drop h memory)
        ++ take (n - min n (length memory - h)) memory
      ≡ tabulate n (λ i. get_or memory ((h + i) % length memory) 0)
pieces h n memory hh hn =
    let cap = length memory in
    let c = min n (cap - h) in
    let byte = λ (i : ℕ). get_or memory ((h + i) % cap) 0 in
    let front : take c (drop h memory) ≡ tabulate c byte =
      take-drop-eq-tabulate memory h c 0 (omega arith)
      ∙ tabulate-ext c (λ i. get_or memory (h + i) 0) byte
          (λ i p. ap (λ j. get_or memory j 0) (sym (mod-eq_of_lt (omega arith)))) in
    let back : take (n - c) memory ≡ tabulate (n - c) (λ i. byte (c + i)) =
      take-drop-eq-tabulate memory 0 (n - c) 0 (omega arith)
      ∙ tabulate-ext (n - c) (λ i. get_or memory (0 + i) 0) (λ i. byte (c + i))
          (λ i p. ap (λ j. get_or memory j 0) (ground (arith, mod_once (h + (c + i)) cap))) in
    ap₂ ◌++◌ front back
    ∙ sym (tabulate-add c (n - c) byte)
    ∙ ap (λ k. tabulate k byte) (omega arith)

module _ {r : RingBuffer} (v : IsValid r) (n : ℕ) where
  abbrev amount : ℕ
  amount = min n r.size

  read_idle : amount ≡ 0 → read r true n ≡ (r, [], 0)
  unfolding read
  read_idle e = ground arith

  read_busy : 0 < amount → read r true n ≡ (consumed amount r, take amount (contents r), amount)
  unfolding read
  read_busy h =
      let inside = read_in_range v (omega arith) in
      let copy : copy_out (read_spans r) amount r.buffer [] 0 ≡ (take amount (contents r), amount) =
        rw
          (
            read_spans-eq v,
            take-tabulate amount r.size (λ i. get_or r.buffer (around r r.read_index i) 0)
                (omega arith),
          )
          (copy_out-wrapped (length r.buffer) r.read_index r.size amount r.buffer inside v.fits
              v.within (omega arith) h
            ∙ ap (λ (b : List ℕ). (b, amount))
                (pieces r.read_index amount r.buffer inside (omega arith))) in
      let whole : consume amount r ≡ consumed amount r =
        consume_pos amount v h (omega arith) ∙ ap (λ k. consumed k r) (omega arith) in
      rw copy (ground (arith, whole))

  later : ℕ → ℕ
  later i = get_or r.buffer (around r r.read_index (amount + i)) 0

  contents_left : drop amount (contents r) ≡ tabulate (r.size - amount) later
  unfolding later
  contents_left = drop-tabulate amount r.size _ (omega arith)

  later_index :
      (i : ℕ)
      → ((r.read_index + amount) % length r.buffer + i) % length r.buffer
        ≡ around r r.read_index (amount + i)
  later_index i =
      mod-add-mod (r.read_index + amount) (length r.buffer) i
      ∙ ap (λ x. x % length r.buffer) (omega arith)

  contents-consumed : contents (consumed amount r) ≡ drop amount (contents r)
  unfolding later
  contents-consumed = elim (Bool-cases (r.size - amount == 0)) [
    | inl e ↦
        rw e (sym (contents_left ∙ ap (λ k. tabulate k later) ((==_iff (r.size - amount) 0).0 e)))
    | inr e ↦ rw e (
        tabulate-ext (r.size - amount) _ later
          (λ i p. ap (λ j. get_or r.buffer j 0) (later_index i))
        ∙ sym contents_left)
  ]

-- On a valid buffer `read` with a target stores the oldest bytes there, as many as asked for and
-- waiting, returns their number and leaves the others waiting; the buffer stays valid.
pub read_lem :
    {r : RingBuffer} (n : ℕ)
    → IsValid r
    → let k = min n r.size in
      let (r', bytes, count) = read r true n in
      (count ≡ k) × (bytes ≡ take k (contents r)) × (contents r' ≡ drop k (contents r)) × IsValid r'
read_lem {r} n v = elim (ℕ_discrete (amount v n) 0) [
  | yes e ↦ rw (read_idle v n e) (rw e (refl, refl, refl, v))
  | no ne ↦
      let k = amount v n in
      let whole : consume k r ≡ consumed k r =
        consume_pos k v (omega arith) (omega arith) ∙ ap (λ m. consumed m r) (omega arith) in
      rw (read_busy v n (omega arith))
        (refl, refl, contents-consumed v n, rw whole at (consume-IsValid k v))
]
