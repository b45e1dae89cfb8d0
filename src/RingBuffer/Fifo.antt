-- ===== src/RingBuffer/Fifo.antt =====
-- No client can tell a ring buffer from a bounded queue of bytes.
use galay_utils.Prelude.{
  ℕ, ◌-◌, ◌≡◌, refl, arith, length, List, [], ◌∷◌, ◌++◌, take, drop, min, true, some,
}
use galay_utils.Prelude.Arrays.{length-tabulate}
use galay_utils.RingBuffer.{RingBuffer, write, read, clear, capacity, consume}
use galay_utils.RingBuffer.Valid.{IsValid, contents, clear-IsValid}
use galay_utils.RingBuffer.Write.{write_lem}
use galay_utils.RingBuffer.Read.{read_lem}

pub data Op : Type 0 where
  put : List ℕ → Op
  get : ℕ → Op
  wipe : Op

-- What each call gives back: the bytes stored in the target, and the number returned.
unfoldable pub run : RingBuffer → List Op → List (List ℕ × ℕ)
run r [] = []
run r (put source ∷ ops) = let (r', written) = write r (some source) in ([], written) ∷ run r' ops
run r (get n ∷ ops) = let (r', bytes, count) = read r true n in (bytes, count) ∷ run r' ops
run r (wipe ∷ ops) = ([], 0) ∷ run (clear r) ops

-- A queue of at most `cap` bytes: what does not fit is refused.
unfoldable pub queue : ℕ → List ℕ → List Op → List (List ℕ × ℕ)
queue cap q [] = []
queue cap q (put source ∷ ops) =
    let n = min (length source) (cap - length q) in ([], n) ∷ queue cap (q ++ take n source) ops
queue cap q (get n ∷ ops) = let k = min n (length q) in (take k q, k) ∷ queue cap (drop k q) ops
queue cap q (wipe ∷ ops) = ([], 0) ∷ queue cap [] ops

length-contents : (r : RingBuffer) → length (contents r) ≡ r.size
length-contents r = length-tabulate r.size _

capacity-read : (r : RingBuffer) (n : ℕ) → capacity (read r true n).0 ≡ capacity r
unfolding read consume
capacity-read r n = ground arith

-- Every sequence of writes, reads and clears on a valid buffer gives back what the queue of its
-- waiting bytes, bounded by its capacity, gives back.
pub fifo_refines :
    (ops : List Op) {r : RingBuffer} → IsValid r → run r ops ≡ queue (capacity r) (contents r) ops
unfolding run queue clear
fifo_refines [] v = refl
fifo_refines (put source ∷ ops) {r} v =
    let (count, bytes, valid, cap) = write_lem source v in
    rw (fifo_refines ops valid, length-contents r, count, bytes, cap)
fifo_refines (get n ∷ ops) {r} v =
    let (count, bytes, left, valid) = read_lem n v in
    rw (fifo_refines ops valid, length-contents r, count, bytes, left, capacity-read r n)
fifo_refines (wipe ∷ ops) {r} v = rw (fifo_refines ops (clear-IsValid v))
