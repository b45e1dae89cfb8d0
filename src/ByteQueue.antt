-- ===== src/ByteQueue.antt =====
-- galay-utils/cache/byte_queue_view.hpp: `ByteQueueView`. Bytes are numbers; a view is the list of the
-- bytes that it shows, and an empty view the empty list. Reserving memory changes no state.
mod Refine
mod Tests
use galay_utils.Prelude.{
  ℕ, zero, suc, ◌+◌, ◌-◌, ◌*◌, Bool, true, false, ◌&&◌, ◌||◌, List, [], ◌∷◌, ◌++◌, Option, none,
  some, length, take, drop, ltb, leb, ◌==◌, if◌then◌else◌,
}

pub record ByteQueueView : Type 0 where
  pub storage : List ℕ
  pub read_offset : ℕ

pub init_queue : ByteQueueView
init_queue = record { storage = []; read_offset = 0 }

abbrev pub compact_offset_threshold : ℕ
compact_offset_threshold = 4096

abbrev pub size : ByteQueueView → ℕ
size q = length q.storage - q.read_offset

pub clear : ByteQueueView → ByteQueueView
clear q = record { storage = []; read_offset = 0 }

pub append : List ℕ → ByteQueueView → ByteQueueView
append input q =
    let p = if q.read_offset == length q.storage then clear q else q in
    if length input == 0 then q else record p { storage = p.storage ++ input }

has_bytes : ℕ → ByteQueueView → Bool
has_bytes n q = leb n (size q)

is_empty_queue : ByteQueueView → Bool
is_empty_queue q = size q == 0

-- `data()`: the bytes from the pointer on, or a null pointer
start : ByteQueueView → Option (List ℕ)
start q = if is_empty_queue q then none else some (drop q.read_offset q.storage)

pub view : ℕ → ℕ → ByteQueueView → List ℕ
view offset n q =
    if ltb (size q) offset || ltb (size q - offset) n
    then []
    else if n == 0
    then []
    else take n (drop (q.read_offset + offset) q.storage)

pub compact_if_needed : ByteQueueView → ByteQueueView
compact_if_needed q =
    if q.read_offset == 0
    then q
    else if size q == 0
    then clear q
    else if ltb q.read_offset compact_offset_threshold && ltb (q.read_offset * 2) (length q.storage)
    then q
    else record { storage = take (size q) (drop q.read_offset q.storage); read_offset = 0 }

pub consume : ℕ → ByteQueueView → ByteQueueView
consume n q =
    if leb (size q) n
    then clear q
    else compact_if_needed (record q { read_offset = q.read_offset + n })
