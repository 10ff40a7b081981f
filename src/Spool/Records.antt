-- ===== src/Spool/Records.antt =====
-- The smaller operations of internal/eventspool/store.go: opening, counters, checkpoints, status.
use xui_agent.Prelude.{
  ℕ, ◌+◌, ◌%◌, Bool, true, Option, some, String, List, [], ◌∷◌, take, length, ltb, ◌==◌, str_eq,
  if◌then◌else◌, Outcome, ok, err, ◌>>=◌, ◌>>◌, guard,
}
use xui_agent.Spool.Bytes.{Bytes, u64}
use xui_agent.Spool.Bolt.{Bolt, Pair}
use xui_agent.Spool.Types.{
  AccessCheckpoint, TrafficCounter, Meta, SpoolError, missing_key, not_exist, decode_failed,
  bad_node_id, relative_path, default_max_bytes, default_max_events,
}
use xui_agent.Spool.Store.{Codec, Limits, Db, or_error}

-- The tests and defaults of `Open`. `absolute` is `filepath.IsAbs(cfg.Path)`.
unfoldable pub open_limits : ℕ → Bool → ℕ → ℕ → Outcome SpoolError Limits
open_limits node_id absolute max_bytes max_events = do
  guard (ltb 0 node_id) bad_node_id
  guard absolute relative_path
  ok (record {
    node_id = node_id;
    max_bytes = if max_bytes == 0 then default_max_bytes else max_bytes;
    max_events = if max_events == 0 then default_max_events else max_events;
  })

abbrev pub empty_meta : Meta
empty_meta = record {
  stream_id = [];
  next_sequence = 0;
  acked_sequence = 0;
  pending_bytes = 0;
  pending_events = 0;
  dropped_route = 0;
  dropped_other = 0;
  last_drop_at = 0;
  last_ack_at = 0;
  last_error_at = 0;
  last_error_code = [];
  last_access_at = 0;
  last_route_at = 0;
  last_traffic_at = 0;
  last_online_at = 0;
}

-- `initialize`: `fresh` is what `randomStreamID` returns.
unfoldable pub initialize_meta : Bytes → Meta → Meta
initialize_meta fresh m =
    let named = if length m.stream_id == 0 then record m { stream_id = fresh } else m in
    if named.next_sequence == 0 then record named { next_sequence = 1 } else named

unfoldable pub record_drop_meta : String → ℕ → Meta → Meta
record_drop_meta kind now m =
    let counted =
      if str_eq kind "route"
      then record m { dropped_route = (m.dropped_route + 1) % u64 }
      else record m { dropped_other = (m.dropped_other + 1) % u64 } in
    record counted { last_drop_at = now }

-- `code` has been trimmed of white space.
unfoldable pub record_error_meta : Bytes → ℕ → Meta → Meta
record_error_meta code now m = record m { last_error_code = take 64 code; last_error_at = now }

module _ {Bucket : Type 0} where
  unfoldable pub initialize : Bytes → Db Bucket → Db Bucket
  unfolding initialize_meta
  initialize fresh d = record d { meta = initialize_meta fresh d.meta }

  unfoldable pub record_drop : String → ℕ → Db Bucket → Db Bucket
  unfolding record_drop_meta
  record_drop kind now d = record d { meta = record_drop_meta kind now d.meta }

  unfoldable pub record_error : Bytes → ℕ → Db Bucket → Db Bucket
  unfolding record_error_meta
  record_error code now d = record d { meta = record_error_meta code now d.meta }

  -- `blank` is `strings.TrimSpace(key) == ""`.
  unfoldable pub set_checkpoint :
      String → Bool → AccessCheckpoint → Db Bucket → Outcome SpoolError (Unit {0}) × Db Bucket
  set_checkpoint key blank checkpoint d = if blank then (err missing_key, d) else (
    ok tt,
    record d {
      side = record d.side {
        checkpoints = λ k. if str_eq k key then some checkpoint else d.side.checkpoints k;
      };
    },
  )

  unfoldable pub checkpoint : String → Db Bucket → Outcome SpoolError AccessCheckpoint
  checkpoint key d = or_error (d.side.checkpoints key) not_exist

  unfoldable pub traffic_counter : String → Db Bucket → Option TrafficCounter
  traffic_counter email d = d.side.counters email

pub record EventQueueInfo : Type 0 where
  pub enabled : Bool
  pub stream_id : Bytes
  pub pending_events : ℕ
  pub pending_bytes : ℕ
  pub highest_acked_sequence : ℕ
  pub oldest_queued_at : ℕ
  pub last_received_at : ℕ
  pub last_access_at : ℕ
  pub last_route_at : ℕ
  pub last_traffic_at : ℕ
  pub last_online_at : ℕ
  pub last_error_at : ℕ
  pub last_error_code : Bytes
  pub dropped_route : ℕ
  pub dropped_telemetry : ℕ
  pub last_drop_at : ℕ

module _ (bolt : Bolt) (codec : Codec) where
  -- When the event at the cursor's first pair was observed, 0 in an empty queue.
  unfoldable pub oldest_queued : List Pair → Outcome SpoolError ℕ
  oldest_queued [] = ok 0
  oldest_queued ((k, v) ∷ rest) = do
    event ← or_error (codec.decode v) decode_failed
    ok event.observed_at

  unfoldable pub info : Db bolt.Bucket → Outcome SpoolError EventQueueInfo
  unfolding oldest_queued
  info d = do
    oldest ← oldest_queued (bolt.pairs d.events)
    ok (record {
      enabled = true;
      stream_id = d.meta.stream_id;
      pending_events = d.meta.pending_events;
      pending_bytes = d.meta.pending_bytes;
      highest_acked_sequence = d.meta.acked_sequence;
      oldest_queued_at = oldest;
      last_received_at = d.meta.last_ack_at;
      last_access_at = d.meta.last_access_at;
      last_route_at = d.meta.last_route_at;
      last_traffic_at = d.meta.last_traffic_at;
      last_online_at = d.meta.last_online_at;
      last_error_at = d.meta.last_error_at;
      last_error_code = d.meta.last_error_code;
      dropped_route = d.meta.dropped_route;
      dropped_telemetry = d.meta.dropped_other;
      last_drop_at = d.meta.last_drop_at;
    })
