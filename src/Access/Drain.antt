-- ===== src/Access/Drain.antt =====
-- `drain` of internal/telemetry/access.go, over an interface of the event queue. The slices are what
-- the reader returns from the checkpoint's offset on.
use xui_agent.Prelude.{
  ℕ, zero, suc, ◌+◌, ◌-◌, ◌≤◌, ◌≡◌, Bool, Option, some, List, [], ◌∷◌, ◌++◌, length, drop, ltb,
  ◌==◌, if◌then◌else◌, Outcome, ok, err,
}
use xui_agent.Spool.Bytes.{Bytes}
use xui_agent.Spool.Types.{AccessCheckpoint}
use xui_agent.Access.Lines.{Slice, Line, ReadError, read_line, anchor_bytes}

-- What `drain` and `collectOnce` report: access_line_too_long, access_parse_failed, access_rotation_gap.
pub data Report : Type 0 where
  line_too_long parse_failed rotation_gap : Report

-- The three calls that the collector makes of the queue. `note` is `RecordError`, whose own error is not
-- looked at; `save` is `SetCheckpoint`, `send` is `EnqueueWithCheckpoint`.
pub record Queue (E : Type 0) : Type 1 where
  pub S : Type 0
  pub note : Report → S → S
  pub save : AccessCheckpoint → S → Outcome E (Unit {0}) × S
  pub send : Bytes → AccessCheckpoint → S → Outcome E (Unit {0}) × S
  -- The queue is consistent and can number so many more events.
  pub Ready : ℕ → S → Type 0
  -- The stored checkpoint, and the events that are there, oldest first.
  pub stored : S → Option AccessCheckpoint
  pub sent : S → List Bytes
  pub ready-fewer : (m n : ℕ) (s : S) → m ≤ n → Ready n s → Ready m s
  pub ready-note : (n : ℕ) (r : Report) (s : S) → Ready n s → Ready n (note r s)
  pub ready-save : (n : ℕ) (c : AccessCheckpoint) (s : S) → Ready n s → Ready n (save c s).1
  pub ready-send :
      (n : ℕ) (x : Bytes) (c : AccessCheckpoint) (s : S) → Ready (suc n) s → Ready n (send x c s).1
  pub stored-note : (r : Report) (s : S) → stored (note r s) ≡ stored s
  pub sent-note : (r : Report) (s : S) → sent (note r s) ≡ sent s
  pub stored-save :
      (c : AccessCheckpoint) (s : S)
      → stored (save c s).1 ≡ elim (save c s).0 [ ok _ ↦ some c | err _ ↦ stored s ]
  pub sent-save : (c : AccessCheckpoint) (s : S) → sent (save c s).1 ≡ sent s
  pub stored-send :
      (x : Bytes) (c : AccessCheckpoint) (s : S)
      → stored (send x c s).1 ≡ elim (send x c s).0 [ ok _ ↦ some c | err _ ↦ stored s ]
  pub sent-send :
      (n : ℕ) (x : Bytes) (c : AccessCheckpoint) (s : S)
      → Ready (suc n) s
      → sent (send x c s).1 ≡ elim (send x c s).0 [ ok _ ↦ sent s ++ x ∷ [] | err _ ↦ sent s ]

-- `parseAccessLine` of a line without its newline: an error, a line of Xray's own API that is not kept, or an event.
pub data Parsed : Type 0 where
  unrecognized skipped : Parsed
  event : Bytes → Parsed

pub data DrainError (E : Type 0) : Type 0 where
  cancelled read_error out_of_fuel : DrainError E
  queue_error : E → DrainError E

-- `checkpointWithLineAnchor`
unfoldable pub with_line_anchor : (Bytes → Bytes) → AccessCheckpoint → Bytes → AccessCheckpoint
with_line_anchor sha256_hex c line =
    let kept =
      if ltb anchor_bytes (length line) then drop (length line - anchor_bytes) line else line in
    record c { anchor_offset = c.offset - length kept; anchor_sha256 = sha256_hex kept }

module _ {E : Type 0} (queue : Queue E) (sha256_hex : Bytes → Bytes) (parse : Bytes → Parsed) where
  open queue use {S, note, save, send}

  -- The checkpoint behind a line.
  abbrev pub advance : AccessCheckpoint → Line → AccessCheckpoint
  advance c l = with_line_anchor sha256_hex (record c { offset = c.offset + l.bytes_read }) l.anchor

  unfoldable pub handle_parsed : Parsed → AccessCheckpoint → S → Outcome E (Unit {0}) × S
  handle_parsed unrecognized c s = save c (note parse_failed s)
  handle_parsed skipped c s = save c s
  handle_parsed (event x) c s = send x c s

  -- The part of the loop behind a complete line, with the new checkpoint.
  unfoldable pub handle_line : Line → AccessCheckpoint → S → Outcome E (Unit {0}) × S
  unfolding handle_parsed
  handle_line l c s =
      if l.too_long then save c (note line_too_long s) else handle_parsed (parse l.data_bytes) c s

  abbrev pub next :
      Outcome E (Unit {0}) × S
      → (S → Outcome (DrainError E) Bool × S)
      → Outcome (DrainError E) Bool × S
  next (ok _, s) rest = rest s
  next (err e, s) rest = (err (queue_error e), s)

  abbrev pub on_line :
      Outcome ReadError Line × List Slice
      → (Line → List Slice → S → Outcome (DrainError E) Bool × S)
      → S
      → Outcome (DrainError E) Bool × S
  on_line (err e, rs) rest s = (err read_error, s)
  on_line (ok l, rs) rest s = if l.complete then rest l rs s else (ok (l.bytes_read == 0), s)

  -- `live` says for each iteration whether the context is alive at its start.
  unfoldable pub drain :
      ℕ → (ℕ → Bool) → List Slice → AccessCheckpoint → S → Outcome (DrainError E) Bool × S
  unfolding handle_line
  drain zero live rs c s = (err out_of_fuel, s)
  drain (suc fuel) live rs c s =
      let continue =
        on_line (read_line rs)
          (λ l rs' s'.
            next (handle_line l (advance c l) s') (λ s''. drain fuel live rs' (advance c l) s''))
          s in
      if live fuel then continue else (err cancelled, s)
