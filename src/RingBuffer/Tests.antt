-- ===== src/RingBuffer/Tests.antt =====
-- Runs of a ring buffer of four bytes, and its theorems at them.
use galay_utils.Prelude.{◌≡◌, refl, arith, [], ◌∷◌, ◌++◌, some, none, true, take}
use galay_utils.Prelude.Arrays.{overwrite}
use galay_utils.RingBuffer.{
  RingBuffer, init, capacity, write_spans, read_spans, get_write_iovecs, get_read_iovecs, produce,
  consume, clear, copy_in, copy_out, write, read,
}
use galay_utils.RingBuffer.Valid.{IsValid, contents}
use galay_utils.RingBuffer.Spans.{indices, spans_partition, iovecs_eq_take}
use galay_utils.RingBuffer.Write.{write_lem}
use galay_utils.RingBuffer.Read.{read_lem}
use galay_utils.RingBuffer.Fifo.{run, queue, put, get, fifo_refines}

program : Unit {0}
unfolding init write_spans read_spans get_write_iovecs get_read_iovecs produce consume clear copy_in
    copy_out write read run
program = tt

-- 3 waits at the end of the memory, and 4 behind it at the start.
abbrev wrapped : RingBuffer
wrapped = record { buffer = 4 ∷ 1 ∷ 2 ∷ 3 ∷ []; read_index = 3; write_index = 1; size = 2 }

abbrev fresh : RingBuffer
fresh = record { buffer = 0 ∷ 0 ∷ 0 ∷ 0 ∷ []; read_index = 0; write_index = 0; size = 0 }

init-fresh : (init 4 ≡ some fresh) × (init 0 ≡ none)
unfolding program
init-fresh = (refl, refl)

contents-wrapped : contents wrapped ≡ 3 ∷ 4 ∷ []
contents-wrapped = refl

run-wrapped :
    run wrapped (put (5 ∷ 6 ∷ 7 ∷ []) ∷ get 3 ∷ get 3 ∷ [])
    ≡ ([], 2) ∷ (3 ∷ 4 ∷ 5 ∷ [], 3) ∷ (6 ∷ [], 1) ∷ []
unfolding program overwrite
run-wrapped = refl

wrapped-IsValid : IsValid wrapped
wrapped-IsValid = omega arith

spans_partition_example :
    (indices (read_spans wrapped) ≡ 3 ∷ 0 ∷ [])
    × (indices (write_spans wrapped) ≡ 1 ∷ 2 ∷ [])
    × (indices (read_spans wrapped) ++ indices (write_spans wrapped) ≡ 3 ∷ 0 ∷ 1 ∷ 2 ∷ [])
spans_partition_example = spans_partition wrapped-IsValid (omega arith)

iovecs_eq_take_example :
    (get_write_iovecs wrapped 1 ≡ take 1 (write_spans wrapped))
    × (get_read_iovecs wrapped 1 ≡ take 1 (read_spans wrapped))
iovecs_eq_take_example = iovecs_eq_take 1 wrapped-IsValid

write_lem_example :
    let (r', written) = write wrapped (some (5 ∷ 6 ∷ 7 ∷ [])) in
    (written ≡ 2) × (contents r' ≡ 3 ∷ 4 ∷ 5 ∷ 6 ∷ []) × IsValid r' × (capacity r' ≡ 4)
write_lem_example = write_lem (5 ∷ 6 ∷ 7 ∷ []) wrapped-IsValid

read_lem_example :
    let (r', bytes, count) = read wrapped true 1 in
    (count ≡ 1) × (bytes ≡ 3 ∷ []) × (contents r' ≡ 4 ∷ []) × IsValid r'
read_lem_example = read_lem 1 wrapped-IsValid

fifo_refines_example :
    run wrapped (put (5 ∷ 6 ∷ 7 ∷ []) ∷ get 3 ∷ [])
    ≡ queue 4 (3 ∷ 4 ∷ []) (put (5 ∷ 6 ∷ 7 ∷ []) ∷ get 3 ∷ [])
fifo_refines_example = fifo_refines (put (5 ∷ 6 ∷ 7 ∷ []) ∷ get 3 ∷ []) wrapped-IsValid
