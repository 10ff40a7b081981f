-- ===== src/Tests/AccessRuns.antt =====
-- A log of two lines, and a queue that stores what it is sent.
use xui_agent.Prelude.{
  ℕ, arith, ◌≡◌, refl, true, false, Option, none, some, str_eq, List, [], ◌∷◌, ◌++◌, length,
  if◌then◌else◌, ok, err,
}
use xui_agent.Spool.Bytes.{Bytes}
use xui_agent.Spool.Types.{AccessCheckpoint, Side}
use xui_agent.Spool.Bolt.{Pair}
use xui_agent.Spool.Store.{Limits, Db}
use xui_agent.Spool.Records.{initialize, empty_meta}
use xui_agent.Spool.Refinement.{initialize-Refines}
use xui_agent.Access.Spooled.{spool_queue, drain-Settled}
use xui_agent.Tests.SpoolModel.{sorted_bolt, plain_codec}
use xui_agent.Access.Lines.{Slice, line_end, buffer_full, read_line, read_failed}
use xui_agent.Access.Anchor.{read_line-line_of, readable, line_of, line_bytes, ends}
use xui_agent.Access.Drain.{Queue, event, drain, advance}
use xui_agent.Access.Delivery.{Delivered}
use xui_agent.Access.Fuel.{ran_out, drain-fuel}
use xui_agent.Access.Collect.{anchor_matches}
use xui_agent.Access.Append.{anchor_matches-advance}

record Kept : Type 0 where
  at_checkpoint : Option AccessCheckpoint
  received : List Bytes

abbrev kept_queue : Queue ℕ
kept_queue = record {
  S = Kept;
  note = λ r s. s;
  save = λ c s. (ok tt, record s { at_checkpoint = some c });
  send = λ x c s. (ok tt, record { at_checkpoint = some c; received = s.received ++ x ∷ [] });
  Ready = λ n s. Unit {0};
  stored = λ s. s.at_checkpoint;
  sent = λ s. s.received;
  ready-fewer = λ m n s le h. tt;
  ready-note = λ n r s h. tt;
  ready-save = λ n c s h. tt;
  ready-send = λ n x c s h. tt;
  stored-note = λ r s. refl;
  sent-note = λ r s. refl;
  stored-save = λ c s. refl;
  sent-save = λ c s. refl;
  stored-send = λ x c s. refl;
  sent-send = λ n x c s h. refl;
}

abbrev toy_sum : Bytes → Bytes
toy_sum raw = length raw ∷ []

abbrev log_slices : List Slice
log_slices =
    buffer_full (b'a' ∷ b'b' ∷ []) ∷ line_end (b'c' ∷ 10 ∷ []) ∷ line_end (b'd' ∷ 10 ∷ []) ∷ []

abbrev beginning : AccessCheckpoint
beginning = record {
  device = 1;
  inode = 2;
  offset = 0;
  anchor_offset = 0;
  anchor_sha256 = [];
  initialized = true;
}

abbrev before_drain : Kept
before_drain = record { at_checkpoint = some beginning; received = [] }

read_line-line_of_example : (read_line log_slices).0 ≡ (
    if readable log_slices
    then ok (line_of (line_bytes log_slices) (ends log_slices))
    else err read_failed)
read_line-line_of_example = read_line-line_of log_slices

abbrev queue_limits : Limits
queue_limits = record { node_id = 7; max_bytes = 100; max_events = 5 }

abbrev first_side : Side
first_side = record {
  checkpoints = λ k. if str_eq k "xray-access-v1" then some beginning else none;
  counters = λ k. none;
}

abbrev fresh_queue : Db (List Pair)
fresh_queue = initialize (b's' ∷ []) (record { meta = empty_meta; events = []; side = first_side })

-- The same log over the event queue, with a clock that stands still.
drain-Settled_example :
    let queue = spool_queue sorted_bolt plain_codec queue_limits 5 (λ x. 5) in
    Delivered queue toy_sum event log_slices beginning fresh_queue
      (drain queue toy_sum event 4 (λ _. true) log_slices beginning fresh_queue).1
unfolding initialize
drain-Settled_example =
    drain-Settled sorted_bolt plain_codec queue_limits 5 (λ x. 5) toy_sum event 4 (λ _. true)
      log_slices beginning fresh_queue
      (initialize-Refines sorted_bolt plain_codec queue_limits (b's' ∷ []) first_side).inv
      (omega arith) (omega arith) refl

drain-fuel_example :
    ran_out (drain kept_queue toy_sum event 4 (λ _. true) log_slices beginning before_drain).0
    ≡ false
drain-fuel_example =
    drain-fuel kept_queue toy_sum event 4 (λ _. true) log_slices beginning before_drain
      (omega arith)

anchor_matches-advance_example :
    anchor_matches toy_sum
      ([] ++ ((b'd' ∷ 10 ∷ []) ++ (b'e' ∷ [])))
      (advance kept_queue toy_sum event beginning (line_of (b'd' ∷ 10 ∷ []) true))
    ≡ true
anchor_matches-advance_example =
    anchor_matches-advance kept_queue toy_sum event [] (b'd' ∷ 10 ∷ []) (b'e' ∷ []) beginning refl
      (omega arith)
