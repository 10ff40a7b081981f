-- ===== src/Spool/Types.antt =====
-- The records of internal/eventspool/store.go and protocol/v1/events.go.
use xui_agent.Prelude.{ℕ, ◌*◌, ◌^◌, Bool, Option, String, List, ◌||◌, str_eq}
use xui_agent.Spool.Bytes.{Bytes}

-- Limits of protocol/v1/events.go.
abbrev pub max_event_batch_events : ℕ
max_event_batch_events = 500

abbrev pub max_event_compressed_bytes : ℕ
max_event_compressed_bytes = 2 ^ 20

abbrev pub max_event_expanded_bytes : ℕ
max_event_expanded_bytes = 4 * 2 ^ 20

abbrev pub max_event_bytes : ℕ
max_event_bytes = 256 * 2 ^ 10

abbrev pub default_max_bytes : ℕ
default_max_bytes = 256 * 2 ^ 20

abbrev pub default_max_events : ℕ
default_max_events = 100000

pub record Event : Type 0 where
  pub sequence : ℕ
  pub event_id : Bytes
  pub kind : String
  pub observed_at : ℕ
  pub payload : Bytes

pub record EventBatch : Type 0 where
  pub version : String
  pub stream_id : Bytes
  pub first_sequence : ℕ
  pub last_sequence : ℕ
  pub events : List Event

pub record AccessCheckpoint : Type 0 where
  pub device : ℕ
  pub inode : ℕ
  pub offset : ℕ
  pub anchor_offset : ℕ
  pub anchor_sha256 : Bytes
  pub initialized : Bool

pub record TrafficCounter : Type 0 where
  pub runtime_id : String
  pub up_bytes : ℕ
  pub down_bytes : ℕ
  pub counter_epoch : ℕ

-- The bucket "meta", a field for each key. A key that is not set reads as 0 or as no bytes.
pub record Meta : Type 0 where
  pub stream_id : Bytes
  pub next_sequence : ℕ
  pub acked_sequence : ℕ
  pub pending_bytes : ℕ
  pub pending_events : ℕ
  pub dropped_route : ℕ
  pub dropped_other : ℕ
  pub last_drop_at : ℕ
  pub last_ack_at : ℕ
  pub last_error_at : ℕ
  pub last_error_code : Bytes
  pub last_access_at : ℕ
  pub last_route_at : ℕ
  pub last_traffic_at : ℕ
  pub last_online_at : ℕ

-- The buckets "checkpoints" and "traffic-counters".
pub record Side : Type 0 where
  pub checkpoints : String → Option AccessCheckpoint
  pub counters : String → Option TrafficCounter

pub data SpoolError : Type 0 where
  bad_node_id relative_path unsupported_kind missing_time encode_failed : SpoolError
  payload_size event_size full missing_key : SpoolError
  stream_mismatch ack_ahead inconsistent not_exist decode_failed : SpoolError

-- validKind
unfoldable pub valid_kind : String → Bool
valid_kind kind =
    str_eq kind "access"
    || str_eq kind "route"
    || str_eq kind "heartbeat"
    || str_eq kind "traffic_snapshot"
    || str_eq kind "online_snapshot"
