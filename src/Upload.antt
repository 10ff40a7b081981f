-- ===== src/Upload.antt =====
-- The uploader of queued events, internal/telemetry/uploader.go. JSON, gzip and the HTTP client are in
-- the arguments: does a batch fit its limit, and what comes back for it.
pub mod Progress
use xui_agent.Prelude.{
  ℕ, zero, suc, ◌+◌, ◌*◌, ◌^◌, ◌≡◌, Bool, true, false, ◌&&◌, ◌||◌, not, length, ltb, ◌==◌,
  if◌then◌else◌, Outcome, ok, err,
}
use xui_agent.Spool.Bytes.{Bytes, bytes_eq}
use xui_agent.Spool.Bolt.{Bolt}
use xui_agent.Spool.Types.{EventBatch, SpoolError, max_event_batch_events}
use xui_agent.Spool.Store.{Codec, Limits, Db, acknowledge, batch}

pub data UploadError : Type 0 where
  queue_failed : SpoolError → UploadError
  too_large unavailable bad_reply bad_status contract_mismatch not_reached exceeded : UploadError

-- `known_version` is the test of the acknowledgement's version.
pub record Ack : Type 0 where
  pub known_version : Bool
  pub stream_id : Bytes
  pub highest : ℕ

-- What a request comes to: no response, a body that cannot be read, is too long or is no
-- acknowledgement, a status other than 200, or an acknowledgement.
pub data Reply : Type 0 where
  no_answer unreadable refused : Reply
  acked : Ack → Reply

abbrev pub upload_bytes : ℕ
upload_bytes = 512 * 2 ^ 10

module _ (bolt : Bolt) (codec : Codec) (s : Limits) (fits : EventBatch → Bool)
    (post : EventBatch → Reply) where
  open bolt use {Bucket}

  abbrev pub End : Type 0
  End = Outcome UploadError Bool × Db Bucket

  abbrev pub acknowledged : Outcome SpoolError (Unit {0}) × Db Bucket → End
  acknowledged (ok u, d) = (ok true, d)
  acknowledged (err e, d) = (err (queue_failed e), d)

  unfoldable pub settle : EventBatch → Ack → ℕ → Db Bucket → End
  settle b a now d =
      if not a.known_version || not (bytes_eq a.stream_id b.stream_id)
      then (err contract_mismatch, d)
      else if ltb a.highest b.first_sequence
      then (err not_reached, d)
      else if ltb b.last_sequence a.highest
      then (err exceeded, d)
      else acknowledged (acknowledge bolt codec s a.stream_id a.highest now d)

  abbrev pub answered : EventBatch → Reply → ℕ → Db Bucket → End
  answered b no_answer now d = (err unavailable, d)
  answered b unreadable now d = (err bad_reply, d)
  answered b refused now d = (err bad_status, d)
  answered b (acked a) now d = settle b a now d

  abbrev pub sent : Outcome SpoolError EventBatch → ℕ → Db Bucket → End
  sent (err e) now d = (err (queue_failed e), d)
  sent (ok b) now d =
      if length b.events == 0
      then (ok false, d)
      else if fits b
      then answered b (post b) now d
      else (err too_large, d)

  unfoldable pub upload_once : ℕ → Db Bucket → End
  unfolding settle
  upload_once now d = sent (batch bolt codec s max_event_batch_events upload_bytes d) now d

-- The delay in seconds behind a failure, and the next one.
unfoldable pub next_backoff : ℕ → ℕ
next_backoff backoff = if ltb 60 (backoff * 2) then 60 else backoff * 2

unfoldable pub backoff_after : ℕ → ℕ
backoff_after zero = 1
backoff_after (suc failures) = next_backoff (backoff_after failures)
