-- ===== src/RingBuffer.antt =====
-- galay-utils/cache/ring_buffer.hpp: `RingBuffer`, a fixed-capacity byte queue over a vector.
-- A byte is a number that is only moved. A span is an offset into the vector with a length; an
-- output array of spans is the list of those filled in. A method that changes the object returns
-- the new object first. Modified-in-place memory of the caller is a list that is returned.
mod Valid
mod Spans
mod Write
mod Read
mod Fifo
mod Tests
use galay_utils.Prelude.{
  ℕ, ◌-◌, ◌%◌, ◌≤◌, ◌<◌, Bool, true, false, ◌&&◌, ◌||◌, List, [], ◌∷◌, ◌++◌, Option, none, some,
  min, ltb, leb, ◌==◌, if◌then◌else◌, length, take, drop, replicate, add_size, sub_size,
}
use galay_utils.Prelude.Arrays.{overwrite}

pub record RingBuffer : Type 0 where
  pub buffer : List ℕ
  pub read_index : ℕ
  pub write_index : ℕ
  pub size : ℕ

-- The vector is value-initialised; a capacity of 0 throws `std::invalid_argument`.
pub init : ℕ → Option RingBuffer
init capacity =
    if capacity == 0
    then none
    else some (record { buffer = replicate capacity 0; read_index = 0; write_index = 0; size = 0 })

-- The move constructor: the new object, and the source that stays behind.
pub move_from : RingBuffer → RingBuffer × RingBuffer
move_from other = (other, record { buffer = []; read_index = 0; write_index = 0; size = 0 })

abbrev pub readable : RingBuffer → ℕ
readable r = r.size

abbrev pub capacity : RingBuffer → ℕ
capacity r = length r.buffer

abbrev pub writable : RingBuffer → ℕ
writable r = sub_size (capacity r) r.size

abbrev pub is_empty : RingBuffer → Bool
is_empty r = r.size == 0

abbrev pub is_full : RingBuffer → Bool
is_full r = r.size == capacity r

pub record Span : Type 0 where
  pub offset : ℕ
  pub count : ℕ

abbrev span_unless_empty : ℕ → ℕ → List Span
span_unless_empty offset count =
    if ltb 0 count then record { offset = offset; count = count } ∷ [] else []

pub write_spans : RingBuffer → List Span
write_spans r =
    let remaining = writable r in
    let till_end = min remaining (sub_size (capacity r) r.write_index) in
    let till_read = min remaining (sub_size r.read_index r.write_index) in
    let rest = sub_size remaining till_end in
    if is_full r
    then []
    else if leb r.read_index r.write_index
    then span_unless_empty r.write_index till_end
      ++ (if ltb 0 rest && ltb 0 r.read_index
          then record { offset = 0; count = min rest r.read_index } ∷ []
          else [])
    else span_unless_empty r.write_index till_read

pub read_spans : RingBuffer → List Span
read_spans r =
    let remaining = readable r in
    let till_end = min remaining (sub_size (capacity r) r.read_index) in
    if is_empty r
    then []
    else if ltb r.read_index r.write_index
    then record { offset = r.read_index; count = remaining } ∷ []
    else span_unless_empty r.read_index till_end
      ++ span_unless_empty 0 (sub_size remaining till_end)

-- `count` is the number of entries filled so far; the first branch also stands for a null array.
pub get_write_iovecs : RingBuffer → ℕ → List Span
get_write_iovecs r max_iovecs =
    let remaining = writable r in
    let till_end = min remaining (sub_size (capacity r) r.write_index) in
    let till_read = min remaining (sub_size r.read_index r.write_index) in
    let first =
      if ltb 0 till_end && ltb 0 max_iovecs
      then record { offset = r.write_index; count = till_end } ∷ []
      else [] in
    let rest =
      if ltb 0 till_end && ltb 0 max_iovecs then sub_size remaining till_end else remaining in
    if max_iovecs == 0 || is_full r
    then []
    else if leb r.read_index r.write_index
    then first
      ++ (if ltb 0 rest && (ltb 0 r.read_index && ltb (length first) max_iovecs)
          then record { offset = 0; count = min rest r.read_index } ∷ []
          else [])
    else if ltb 0 max_iovecs
    then span_unless_empty r.write_index till_read
    else []

pub get_read_iovecs : RingBuffer → ℕ → List Span
get_read_iovecs r max_iovecs =
    let remaining = readable r in
    let till_end = min remaining (sub_size (capacity r) r.read_index) in
    let first =
      if ltb 0 till_end && ltb 0 max_iovecs
      then record { offset = r.read_index; count = till_end } ∷ []
      else [] in
    let rest =
      if ltb 0 till_end && ltb 0 max_iovecs then sub_size remaining till_end else remaining in
    if max_iovecs == 0 || is_empty r
    then []
    else if ltb r.read_index r.write_index
    then record { offset = r.read_index; count = remaining } ∷ []
    else first
      ++ (if ltb 0 rest && ltb (length first) max_iovecs
          then record { offset = 0; count = rest } ∷ []
          else [])

pub produce : ℕ → RingBuffer → RingBuffer
produce n r =
    let actual = min n (writable r) in
    if n == 0 || capacity r == 0 then r else record r {
      write_index = add_size r.write_index actual % capacity r;
      size = add_size r.size actual;
    }

abbrev rewind_if_empty : RingBuffer → RingBuffer
rewind_if_empty r = if r.size == 0 then record r { read_index = 0; write_index = 0 } else r

pub consume : ℕ → RingBuffer → RingBuffer
consume n r =
    let actual = min n (readable r) in
    if n == 0 || capacity r == 0
    then r
    else rewind_if_empty (record r {
      read_index = add_size r.read_index actual % capacity r;
      size = sub_size r.size actual;
    })

pub clear : RingBuffer → RingBuffer
clear r = record r { read_index = 0; write_index = 0; size = 0 }

-- The loop of `write` from the span `i` on: the memory and the bytes written so far.
copy_in : List Span → ℕ → List ℕ → List ℕ → ℕ → List ℕ × ℕ
copy_in [] to_write source memory written = (memory, written)
copy_in (s ∷ spans) to_write source memory written =
    let chunk = min s.count (sub_size to_write written) in
    let memory' = overwrite memory s.offset (take chunk (drop written source)) in
    let rest = copy_in spans to_write source memory' (add_size written chunk) in
    if ltb written to_write then rest else (memory, written)

-- `none` is a null pointer; `length` is the length of the list.
pub write : RingBuffer → Option (List ℕ) → RingBuffer × ℕ
write r none = (r, 0)
write r (some source) =
    let to_write = min (length source) (writable r) in
    let (memory, written) = copy_in (write_spans r) to_write source r.buffer 0 in
    if length source == 0 || is_full r
    then (r, 0)
    else (produce written (record r { buffer = memory }), written)

-- The loop of `read`: the bytes copied to the target so far.
copy_out : List Span → ℕ → List ℕ → List ℕ → ℕ → List ℕ × ℕ
copy_out [] to_read memory target read_bytes = (target, read_bytes)
copy_out (s ∷ spans) to_read memory target read_bytes =
    let chunk = min s.count (sub_size to_read read_bytes) in
    let target' = target ++ take chunk (drop s.offset memory) in
    let rest = copy_out spans to_read memory target' (add_size read_bytes chunk) in
    if ltb read_bytes to_read then rest else (target, read_bytes)

-- The object, the bytes stored through `data`, and the result; `data` is null if the flag is false.
pub read : RingBuffer → Bool → ℕ → RingBuffer × List ℕ × ℕ
read r has_target n =
    let to_read = min n (readable r) in
    let (bytes, read_bytes) = copy_out (read_spans r) to_read r.buffer [] 0 in
    if has_target && (ltb 0 n && ltb 0 r.size)
    then (consume read_bytes r, bytes, read_bytes)
    else (r, [], 0)
