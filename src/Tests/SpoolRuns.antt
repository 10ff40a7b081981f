-- ===== src/Tests/SpoolRuns.antt =====
-- Runs of the queue, and its theorems at them.
use xui_agent.Prelude.{
  ◌^◌, ◌+◌, ◌-◌, ◌≤◌, ◌<◌, ◌≡◌, ◌≢◌, ◌⊎◌, ◌↔◌, refl, sym, true, none, some, List, [], ◌∷◌, drop,
  arith, Outcome, ok, err,
}
use xui_agent.Spool.Bytes.{
  bytes_eq, bytes_lt, sequence_key, sequence_key-lt, big_endian, read_uint64, from_big_endian,
}
use xui_agent.Spool.Bolt.{Pair}
use xui_agent.Spool.Types.{EventBatch, Side, SpoolError, full, inconsistent, valid_kind}
use xui_agent.Spool.Store.{Limits, Db, stamp, drop_acked, enqueue_with, acknowledge, batch}
use xui_agent.Spool.Records.{initialize, empty_meta}
use xui_agent.Spool.Invariant.{Inv}
use xui_agent.Spool.Enqueue.{enqueue_with-Inv, enqueue_with-full_iff}
use xui_agent.Spool.Acknowledge.{acknowledge_drops, acknowledge-Inv}
use xui_agent.Spool.Batch.{IsPrefix, batch-IsPrefix}
use xui_agent.Spool.Refinement.{
  Op, offer, settle_to, Log, LogSteps, Refines, apply, apply_all, apply_all-Refines,
  initialize-Refines,
}
use xui_agent.Upload.{Reply, acked, upload_bytes, upload_once, backoff_after}
use xui_agent.Upload.Progress.{Uploaded, upload_once-Uploaded, backoff_after-min}
use Prim.Native.Nat.{min}
use xui_agent.Tests.SpoolModel.{sorted_bolt, plain_codec, sorted_put, sorted_delete, plain_encode}

abbrev small : Limits
small = record { node_id = 7; max_bytes = 100; max_events = 2 }

abbrev no_side : Side
no_side = record { checkpoints = λ k. none; counters = λ k. none }

abbrev fresh : Db (List Pair)
fresh = initialize (b's' ∷ []) (record { meta = empty_meta; events = []; side = no_side })

abbrev accept_side : Side → Outcome SpoolError Side
accept_side side = ok side

abbrev calls : List Op
calls =
    offer "access" 5 (some (1 ∷ [])) accept_side
    ∷ offer "route" 6 (some (2 ∷ [])) accept_side
    ∷ offer "route" 7 (some (3 ∷ [])) accept_side
    ∷ settle_to (b's' ∷ []) 1 9
    ∷ []

-- Two events, a third that finds the queue full, and an acknowledgement of the first.
abbrev ran : Db (List Pair)
ran = (apply_all sorted_bolt plain_codec small calls fresh).1

abbrev empty_log : Log
empty_log = record { stream = b's' ∷ []; accepted = []; acked = 0 }

ran_counts :
    (ran.meta.next_sequence ≡ 3)
    × (ran.meta.acked_sequence ≡ 1)
    × (ran.meta.pending_events ≡ 1)
    × (ran.meta.stream_id ≡ b's' ∷ [])
unfolding apply_all apply enqueue_with acknowledge initialize sorted_put sorted_delete plain_encode
    bytes_eq valid_kind stamp drop_acked bytes_lt sequence_key big_endian read_uint64
    from_big_endian
ran_counts = (refl, refl, refl, refl)

apply_all-Refines_example :
    (l : Log) × LogSteps plain_codec calls
      (apply_all sorted_bolt plain_codec small calls fresh).0
      empty_log
      l
    × Refines sorted_bolt plain_codec small ran l
unfolding initialize
apply_all-Refines_example =
    apply_all-Refines sorted_bolt plain_codec small calls fresh empty_log (omega arith)
      (omega arith) (initialize-Refines sorted_bolt plain_codec small (b's' ∷ []) no_side)

fresh-Inv : Inv sorted_bolt plain_codec small fresh
fresh-Inv = (initialize-Refines sorted_bolt plain_codec small (b's' ∷ []) no_side).inv

ran-Inv : Inv sorted_bolt plain_codec small ran
unfolding initialize
ran-Inv =
    (apply_all-Refines sorted_bolt plain_codec small calls fresh empty_log (omega arith)
      (omega arith) (initialize-Refines sorted_bolt plain_codec small (b's' ∷ []) no_side)).2.inv

enqueue_with-Inv_example :
    Inv sorted_bolt plain_codec small
      (enqueue_with sorted_bolt plain_codec small "access" 5 (some (1 ∷ [])) accept_side fresh).1
unfolding initialize
enqueue_with-Inv_example =
    enqueue_with-Inv sorted_bolt plain_codec small "access" 5 (some (1 ∷ [])) accept_side fresh
      (omega arith) (omega arith) fresh-Inv

enqueue_with-full_iff_example :
    ((enqueue_with sorted_bolt plain_codec small "access" 5 (some (1 ∷ [])) accept_side fresh).0
      ≡ err full)
    ↔ ((100 < fresh.meta.pending_bytes + 8) ⊎ (2 ≤ fresh.meta.pending_events))
unfolding initialize valid_kind plain_encode
enqueue_with-full_iff_example =
    enqueue_with-full_iff sorted_bolt plain_codec small "access" 5 (1 ∷ [])
      (0 ∷ 1 ∷ 5 ∷ 3 ∷ 7 ∷ 1 ∷ b's' ∷ 1 ∷ []) accept_side fresh no_side (omega arith) fresh-Inv refl
      (omega arith) (omega arith) (omega arith) refl (omega arith) refl

acknowledge_drops_example :
    let (r, d') = acknowledge sorted_bolt plain_codec small (b's' ∷ []) 2 9 ran in
    (r ≡ ok tt)
    × (d'.meta.acked_sequence ≡ 2)
    × (d'.meta.next_sequence ≡ ran.meta.next_sequence)
    × (d'.events ≡ drop (2 - ran.meta.acked_sequence) ran.events)
    × Inv sorted_bolt plain_codec small d'
acknowledge_drops_example =
    acknowledge_drops sorted_bolt plain_codec small (b's' ∷ []) 2 9 ran ran-Inv (sym ran_counts.3)
      (omega (arith, ran_counts)) (omega (arith, ran_counts))

acknowledge-Inv_example :
    Inv sorted_bolt plain_codec small
      (acknowledge sorted_bolt plain_codec small (b's' ∷ []) 2 9 ran).1
    × ((acknowledge sorted_bolt plain_codec small (b's' ∷ []) 2 9 ran).0 ≢ err inconsistent)
acknowledge-Inv_example = acknowledge-Inv sorted_bolt plain_codec small (b's' ∷ []) 2 9 ran ran-Inv

batch-IsPrefix_example :
    (b : EventBatch) × (batch sorted_bolt plain_codec small 500 0 ran ≡ ok b)
    × IsPrefix sorted_bolt plain_codec small 500 0 ran b
batch-IsPrefix_example = batch-IsPrefix sorted_bolt plain_codec small 500 0 ran ran-Inv

sequence_key-lt_example : bytes_lt (sequence_key 255) (sequence_key 256) ≡ true
sequence_key-lt_example = sequence_key-lt 255 256 (omega arith) (omega arith)

-- The server acknowledges the whole batch.
abbrev accept_all : EventBatch → Reply
accept_all b =
    acked (record { known_version = true; stream_id = b.stream_id; highest = b.last_sequence })

upload_once-Uploaded_example :
    (b : EventBatch) × (batch sorted_bolt plain_codec small 500 upload_bytes ran ≡ ok b)
    × Uploaded sorted_bolt plain_codec small
        (λ _. true)
        accept_all
        ran
        b
        (upload_once sorted_bolt plain_codec small (λ _. true) accept_all 9 ran)
upload_once-Uploaded_example =
    upload_once-Uploaded sorted_bolt plain_codec small (λ _. true) accept_all 9 ran ran-Inv

backoff_after-min_example : backoff_after 7 ≡ min (2 ^ 7) 60
backoff_after-min_example = backoff_after-min 7
