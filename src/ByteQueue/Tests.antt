-- ===== src/ByteQueue/Tests.antt =====
-- A queue of bytes at concrete inputs.
use galay_utils.Prelude.{◌≡◌, ◌≤◌, ◌<◌, refl, arith, List, [], ◌∷◌, some}
use galay_utils.ByteQueue.{
  ByteQueueView, init_queue, size, clear, append, has_bytes, is_empty_queue, start, view,
  compact_if_needed, consume,
}
use galay_utils.ByteQueue.Refine.{Call, contents, views, list_views, queue_refines, consume_bounds}

program : Unit {0}
unfolding init_queue clear append has_bytes is_empty_queue start view compact_if_needed consume
program = tt

abbrev filled : ByteQueueView
filled = append (1 ∷ 2 ∷ 3 ∷ 4 ∷ 5 ∷ []) init_queue

kept_in_place : consume 2 filled ≡ record { storage = 1 ∷ 2 ∷ 3 ∷ 4 ∷ 5 ∷ []; read_offset = 2 }
unfolding program
kept_in_place = refl

compacted : consume 1 (consume 2 filled) ≡ record { storage = 4 ∷ 5 ∷ []; read_offset = 0 }
unfolding program
compacted = refl

shown : view 1 2 (consume 2 filled) ≡ 4 ∷ 5 ∷ []
unfolding program
shown = refl

too_long : view 2 2 (consume 2 filled) ≡ []
unfolding program
too_long = refl

pointed : start (consume 4 filled) ≡ some (5 ∷ [])
unfolding program
pointed = refl

abbrev calls : List Call
calls =
    Call.call_view 0 3 ∷ Call.call_consume 3 ∷ Call.call_append (6 ∷ []) ∷ Call.call_view 1 2 ∷ []

abbrev moved : ByteQueueView
moved = record { storage = 1 ∷ 2 ∷ 3 ∷ 4 ∷ 5 ∷ []; read_offset = 1 }

queue_refines_example : views calls moved ≡ list_views calls (contents moved)
queue_refines_example = queue_refines calls moved (omega arith)

consume_bounds_example :
    let p = consume 2 filled in (p.read_offset < 4096) × (p.read_offset ≤ size p)
consume_bounds_example = consume_bounds 2 filled
