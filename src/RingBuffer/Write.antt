-- ===== src/RingBuffer/Write.antt =====
-- `write` appends to the waiting bytes as much as there is room for.
use galay_utils.Prelude.{
  ℕ, ◌+◌, ◌-◌, ◌%◌, ◌^◌, ◌≤◌, ◌<◌, ◌≡◌, refl, ap, ap₂, sym, ◌∙◌, arith, length, List, ◌++◌,
  append-nil, take, drop, get_or, min, ltb, if◌then◌else◌, some, length-take, length-drop,
  ℕ_discrete,
}
use galay_utils.Prelude.Arrays.{
  tabulate, tabulate-add, tabulate-ext, mod_once, overwrite, overwrite-nil, length-overwrite,
  get_or-overwrite, get_or-take, get_or-drop, take-eq-tabulate,
}
use native.Mathlib.Nat.{add-mod_right}
use galay_utils.RingBuffer.{RingBuffer, write, write_spans, copy_in, produce, capacity, writable}
use galay_utils.RingBuffer.Valid.{IsValid, around, contents, produce-IsValid, produce_pos, produced}
use galay_utils.RingBuffer.Spans.{wrapped, write_spans-eq, around_write, write_in_range}

-- The memory after `n` bytes of the source were copied round the end from the index `w` on.
abbrev copied : ℕ → ℕ → ℕ → List ℕ → List ℕ → List ℕ
copied cap w n source memory =
    overwrite (overwrite memory w (take (min n (cap - w)) source)) 0
      (take (n - min n (cap - w)) (drop (min n (cap - w)) source))

copy_in-wrapped :
    (cap w free n : ℕ) (source memory : List ℕ)
    → w < cap
    → cap < 2 ^ 63
    → free ≤ cap
    → n ≤ free
    → 0 < n
    → copy_in (wrapped cap w free) n source memory 0 ≡ (copied cap w n source memory, n)
unfolding copy_in
copy_in-wrapped cap w free n source memory hw hc hf hn hp =
    ground (arith, overwrite-nil (overwrite memory w (take (min n (cap - w)) source)) 0)

-- What stands at each index afterwards, counted from `w` on round the end.
get_or-copied :
    (cap w n i : ℕ) (source memory : List ℕ)
    → w < cap
    → length memory ≡ cap
    → n ≤ cap
    → n ≤ length source
    → i < cap
    → get_or (copied cap w n source memory) ((w + i) % cap) 0
      ≡ (if ltb i n then get_or source i 0 else get_or memory ((w + i) % cap) 0)
get_or-copied cap w n i source memory hw hm hn hs hi =
    let c = min n (cap - w) in
    let j = (w + i) % cap in
    let front = take c source in
    let back = take (n - c) (drop c source) in
    let front_length : length front ≡ c = omega (arith, length-take c source) in
    let back_length : length back ≡ n - c =
      omega (arith, length-take (n - c) (drop c source), length-drop c source) in
    ground (
      arith,
      mod_once (w + i) cap,
      front_length,
      back_length,
      length-overwrite memory w front,
      get_or-overwrite (overwrite memory w front) 0 back j 0,
      get_or-overwrite memory w front j 0,
      get_or-take source c (j - w) 0,
      get_or-take (drop c source) (n - c) (j - 0) 0,
      get_or-drop source c (j - 0) 0,
    )

length-copied :
    (cap w n : ℕ) (source memory : List ℕ) → length (copied cap w n source memory) ≡ length memory
length-copied cap w n source memory =
    omega (arith, length-overwrite {0} {A = ℕ}, length-overwrite {0} {A = ℕ})

module _ {r : RingBuffer} (v : IsValid r) (source : List ℕ) where
  abbrev room : ℕ
  room = min (length source) (length r.buffer - r.size)

  write_idle : room ≡ 0 → write r (some source) ≡ (r, 0)
  unfolding write
  write_idle e = ground arith

  -- With the bytes in the memory, and before `produce`.
  abbrev filled : RingBuffer
  filled = record r { buffer = copied (length r.buffer) r.write_index room source r.buffer }

  filled-IsValid : IsValid filled
  filled-IsValid = record {
    fits = rw length-copied v.fits;
    within = rw length-copied v.within;
    read_in = rw length-copied v.read_in;
    write_at = rw length-copied v.write_at;
  }

  write_busy : 0 < room → write r (some source) ≡ (produce room filled, room)
  unfolding write
  write_busy h =
      let free : writable r ≡ length r.buffer - r.size = omega arith in
      let copy : copy_in (write_spans r) (min (length source) (writable r)) source r.buffer 0
          ≡ (filled.buffer, room) =
        rw (free, write_spans-eq v)
          (copy_in-wrapped (length r.buffer) r.write_index (length r.buffer - r.size) room source
            r.buffer (write_in_range v (omega arith)) v.fits (omega arith) (omega arith) h) in
      rw copy (ground arith)

  filled_length : length filled.buffer ≡ length r.buffer
  filled_length = length-copied (length r.buffer) r.write_index room source r.buffer

  produce-filled : 0 < room → produce room filled ≡ produced room filled
  produce-filled h =
      produce_pos room filled-IsValid h (omega (arith, filled_length))
      ∙ ap (λ n. produced n filled) (omega (arith, filled_length))

  write-produced : 0 < room → write r (some source) ≡ (produced room filled, room)
  write-produced h = write_busy h ∙ ap (λ b. (b, room)) (produce-filled h)

  produced-filled-IsValid : 0 < room → IsValid (produced room filled)
  produced-filled-IsValid h = rw (produce-filled h) at (produce-IsValid room filled-IsValid)

  -- The bytes that waited are untouched: they lie behind the free space, counted from its start.
  kept_byte :
      (i : ℕ)
      → 0 < room
      → i < r.size
      → get_or filled.buffer (around r r.read_index i) 0
        ≡ get_or r.buffer (around r r.read_index i) 0
  kept_byte i h hi =
      let cap = length r.buffer in
      let j = cap - r.size + i in
      let same : around r r.write_index j ≡ around r r.read_index i =
        around_write v j ∙ ap (λ x. x % cap) (omega arith) ∙ add-mod_right (r.read_index + i) cap in
      let at =
        get_or-copied cap r.write_index room j source r.buffer (write_in_range v (omega arith)) refl
          (omega arith) (omega arith) (omega arith) in
      ground (arith, at, same)

  new_byte :
      (i : ℕ)
      → i < room
      → get_or filled.buffer (around r r.read_index (r.size + i)) 0 ≡ get_or source i 0
  new_byte i hi =
      let at =
        get_or-copied (length r.buffer) r.write_index room i source r.buffer
          (write_in_range v (omega arith)) refl (omega arith) (omega arith) (omega arith) in
      ground (arith, at, around_write v i)

  contents-filled : 0 < room → contents (produced room filled) ≡ contents r ++ take room source
  contents-filled h =
      let cap = length r.buffer in
      let byte = λ (i : ℕ). get_or filled.buffer (around r r.read_index i) 0 in
      let caps : length filled.buffer ≡ cap =
        length-copied cap r.write_index room source r.buffer in
      ap (λ k. tabulate (r.size + room) (λ i. get_or filled.buffer ((r.read_index + i) % k) 0)) caps
      ∙ tabulate-add r.size room byte
      ∙ ap₂ ◌++◌ (tabulate-ext r.size byte _ (λ i p. kept_byte i h p)) (
          tabulate-ext room (λ i. byte (r.size + i)) (λ i. get_or source i 0) new_byte
          ∙ sym (take-eq-tabulate source room 0 (omega arith)))

-- On a valid buffer `write` appends the first bytes of its source to the waiting ones, as many as
-- there is room for, and returns their number; the buffer stays valid and keeps its capacity.
pub write_lem :
    {r : RingBuffer} (source : List ℕ)
    → IsValid r
    → let n = min (length source) (capacity r - r.size) in
      let (r', written) = write r (some source) in
      (written ≡ n)
      × (contents r' ≡ contents r ++ take n source)
      × IsValid r'
      × (capacity r' ≡ capacity r)
write_lem {r} source v = elim (ℕ_discrete (room v source) 0) [
  | yes e ↦ rw (write_idle v source e) (sym e, rw e (sym (append-nil (contents r))), v, refl)
  | no ne ↦ rw (write-produced v source (omega arith)) (
    refl,
    contents-filled v source (omega arith),
    produced-filled-IsValid v source (omega arith),
    length-copied (length r.buffer) r.write_index (room v source) source r.buffer,
  )
]
