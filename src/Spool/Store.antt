-- ===== src/Spool/Store.antt =====
-- The operations of internal/eventspool/store.go. Each runs in one transaction of the database.
use xui_agent.Prelude.{
  ℕ, ◌+◌, ◌-◌, ◌%◌, ◌≡◌, not, ◌&&◌, ◌||◌, Option, none, some, String, List, [], ◌∷◌, length, ltb,
  leb, ◌==◌, str_eq, if◌then◌else◌, Outcome, ok, err, ◌>>=◌, ◌>>◌, guard,
}
use xui_agent.Spool.Bytes.{Bytes, u64, sequence_key, read_uint64, bytes_eq}
use xui_agent.Spool.Bolt.{Bolt, Pair}
use xui_agent.Spool.Types.{
  Event, EventBatch, AccessCheckpoint, TrafficCounter, Meta, Side, SpoolError, unsupported_kind,
  missing_time, encode_failed, payload_size, event_size, full, missing_key, stream_mismatch,
  ack_ahead, inconsistent, decode_failed, valid_kind, max_event_bytes, max_event_batch_events,
  max_event_expanded_bytes,
}

-- `json.Marshal` and `json.Unmarshal` of an event, and the digest that `eventID` takes.
pub record Codec : Type 0 where
  pub encode : Event → Option Bytes
  pub decode : Bytes → Option Event
  pub digest : ℕ → Bytes → Event → Bytes
  -- What is encoded is decoded to the same event.
  pub decode-encode : (e : Event) (raw : Bytes) → encode e ≡ some raw → decode raw ≡ some e

-- What `Store` holds beside the database.
pub record Limits : Type 0 where
  pub node_id : ℕ
  pub max_bytes : ℕ
  pub max_events : ℕ

abbrev pub or_error {ℓ} : {A : Type ℓ} → Option A → SpoolError → Outcome SpoolError A
or_error none e = err e
or_error (some a) e = ok a

-- `if key := kindTimestampKey(kind); key != nil { return putInt64(meta, key, …) }`
unfoldable pub stamp : String → ℕ → Meta → Meta
stamp kind now m =
    if str_eq kind "access"
    then record m { last_access_at = now }
    else if str_eq kind "route"
    then record m { last_route_at = now }
    else if str_eq kind "traffic_snapshot"
    then record m { last_traffic_at = now }
    else if str_eq kind "online_snapshot"
    then record m { last_online_at = now }
    else m

-- The three counters that `enqueue` puts for an event of so many bytes.
abbrev pub counted : ℕ → Meta → Meta
counted bytes m = record m {
  next_sequence = (m.next_sequence + 1) % u64;
  pending_bytes = (m.pending_bytes + bytes) % u64;
  pending_events = (m.pending_events + 1) % u64;
}

pub record Db (Bucket : Type 0) : Type 0 where
  pub meta : Meta
  pub events : Bucket
  pub side : Side

-- `db.Update`: an error of the closure rolls back all that it wrote.
abbrev pub update {ℓ} :
    {D : Type 0} {A : Type ℓ} → (D → Outcome SpoolError (A × D)) → D → Outcome SpoolError A × D
update f d = elim (f d) [ ok (a, d') ↦ (ok a, d') | err e ↦ (err e, d) ]

-- The limits that `Batch` falls back to.
abbrev pub clamp_limit : ℕ → ℕ → ℕ
clamp_limit most n = if n == 0 || ltb most n then most else n

abbrev pub last_of : Event → List Event → Event
last_of e [] = e
last_of e (e' ∷ es) = last_of e' es

-- The batch of the events that the loop took.
abbrev pub make_batch : Bytes → List Event → EventBatch
make_batch stream_id [] = record {
  version = "1";
  stream_id = stream_id;
  first_sequence = 0;
  last_sequence = 0;
  events = [];
}
make_batch stream_id (e ∷ es) = record {
  version = "1";
  stream_id = stream_id;
  first_sequence = e.sequence;
  last_sequence = (last_of e es).sequence;
  events = e ∷ es;
}

module _ (bolt : Bolt) (codec : Codec) (s : Limits) where
  open bolt use {Bucket, put, delete, pairs}
  open codec use {encode, decode, digest}
  open s use {node_id, max_bytes, max_events}

  -- The closure that `enqueue` hands to `db.Update`, without its side effect's buckets.
  abbrev pub seal : String → ℕ → Bytes → Meta → Event
  seal kind now payload m =
      let event : Event = record {
        sequence = m.next_sequence;
        event_id = [];
        kind = kind;
        observed_at = now;
        payload = payload;
      } in
      record event { event_id = digest node_id m.stream_id event }

  enqueue_tx :
      String
      → ℕ
      → Bytes
      → (Side → Outcome SpoolError Side)
      → Db Bucket
      → Outcome SpoolError (Event × Db Bucket)
  enqueue_tx kind now payload effect d = do
    let m = d.meta
    let event = seal kind now payload m
    encoded ← or_error (encode event) encode_failed
    guard (leb (length encoded) max_event_bytes) event_size
    guard
        (not (
          ltb max_bytes ((length encoded + m.pending_bytes) % u64)
          || leb max_events m.pending_events))
        full
    side' ← effect d.side
    ok (
      event,
      record {
        meta = stamp kind now (counted (length encoded) m);
        events = put d.events (sequence_key m.next_sequence) encoded;
        side = side';
      },
    )

  -- `payload` is what `json.Marshal` made of the value, and 0 is a time that is not set.
  unfoldable pub enqueue_with :
      String
      → ℕ
      → Option Bytes
      → (Side → Outcome SpoolError Side)
      → Db Bucket
      → Outcome SpoolError Event × Db Bucket
  unfolding enqueue_tx
  enqueue_with kind now payload effect d =
      elim (do
        guard (valid_kind kind) unsupported_kind
        guard (ltb 0 now) missing_time
        raw ← or_error payload encode_failed
        guard (ltb 0 (length raw) && leb (length raw) max_event_bytes) payload_size
        enqueue_tx kind now raw effect d) [ ok (event, d') ↦ (ok event, d') | err e ↦ (err e, d) ]

  unfoldable pub enqueue :
      String → ℕ → Option Bytes → Db Bucket → Outcome SpoolError Event × Db Bucket
  unfolding enqueue_with
  enqueue kind now payload d = enqueue_with kind now payload (λ side. ok side) d

  abbrev pub put_checkpoint : String → AccessCheckpoint → Side → Side
  put_checkpoint key checkpoint side = record side {
    checkpoints = λ k. if str_eq k key then some checkpoint else side.checkpoints k;
  }

  unfoldable pub enqueue_with_checkpoint :
      String
      → ℕ
      → Option Bytes
      → String
      → AccessCheckpoint
      → Db Bucket
      → Outcome SpoolError Event × Db Bucket
  unfolding enqueue_with
  enqueue_with_checkpoint kind now payload key checkpoint d =
      enqueue_with kind now payload
        (λ side. if str_eq key "" then err missing_key else ok (put_checkpoint key checkpoint side))
        d

  abbrev pub put_counters : List (String × TrafficCounter) → Side → Side
  put_counters [] side = side
  put_counters ((email, counter) ∷ rest) side =
      put_counters rest
        (record side { counters = λ k. if str_eq k email then some counter else side.counters k })

  unfoldable pub enqueue_traffic_snapshot :
      ℕ
      → Option Bytes
      → List (String × TrafficCounter)
      → Db Bucket
      → Outcome SpoolError Event × Db Bucket
  unfolding enqueue_with
  enqueue_traffic_snapshot now payload counters d =
      enqueue_with "traffic_snapshot" now payload (λ side. ok (put_counters counters side)) d

  -- The loop of `Acknowledge`. A cursor that deletes what it stands on goes on to the next pair.
  unfoldable pub drop_acked : ℕ → List Pair → Bucket → ℕ → ℕ → Outcome SpoolError (Bucket × ℕ × ℕ)
  drop_acked sequence [] b bytes count = ok (b, bytes, count)
  drop_acked sequence ((k, v) ∷ rest) b bytes count =
      if leb (read_uint64 k) sequence
      then (if ltb bytes (length v) || count == 0
          then err inconsistent
          else drop_acked sequence rest (delete b k) (bytes - length v) (count - 1))
      else ok (b, bytes, count)

  -- What `Acknowledge` puts after its loop.
  abbrev pub settled : ℕ → ℕ → Bucket × ℕ × ℕ → Db Bucket → Db Bucket
  settled sequence now left d = record d {
    meta = record d.meta {
      acked_sequence = sequence;
      pending_bytes = left.1;
      pending_events = left.2;
      last_ack_at = now;
      last_error_code = [];
    };
    events = left.0;
  }

  unfoldable pub acknowledge : Bytes → ℕ → ℕ → Db Bucket → Outcome SpoolError (Unit {0}) × Db Bucket
  acknowledge stream_id sequence now = update λ d. do
    let m = d.meta
    guard (bytes_eq stream_id m.stream_id) stream_mismatch
    guard (ltb sequence m.next_sequence) ack_ahead
    if ltb sequence m.acked_sequence then ok (tt, d) else do
      left ← drop_acked sequence (pairs d.events) d.events m.pending_bytes m.pending_events
      ok (tt, settled sequence now left d)

  -- The loop of `Batch`, from a cursor's position: `count` events of `total` bytes are taken.
  unfoldable pub collect : ℕ → ℕ → List Pair → ℕ → ℕ → Outcome SpoolError (List Event)
  collect most_events most_bytes [] count total = ok []
  collect most_events most_bytes ((k, v) ∷ rest) count total =
      let later = collect most_events most_bytes rest (count + 1) (total + length v) in
      if ltb count most_events
      then (if ltb most_bytes (total + length v) && ltb 0 count
          then ok []
          else (do event ← or_error (decode v) decode_failed; es ← later; ok (event ∷ es)))
      else ok []

  unfoldable pub batch : ℕ → ℕ → Db Bucket → Outcome SpoolError EventBatch
  batch most_events most_bytes d = do
    events ←
        collect (clamp_limit max_event_batch_events most_events)
          (clamp_limit max_event_expanded_bytes most_bytes) (pairs d.events) 0 0
    ok (make_batch d.meta.stream_id events)
