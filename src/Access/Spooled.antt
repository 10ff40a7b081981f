-- ===== src/Access/Spooled.antt =====
-- The collector of the access log over the event queue: internal/telemetry/access.go with
-- internal/eventspool/store.go. The clock and the time of an event are arguments.
use mathlib.Core.List.{map-append}
use xui_agent.Prelude.{
  ℕ, suc, arith, ◌+◌, ◌<◌, ◌≡◌, refl, sym, ap, ◌∙◌, subst, Bool, false, Option, none, some, String,
  List, [], ◌∷◌, ◌++◌, map, Outcome, ok, err, str_eq, if◌then◌else◌,
}
use xui_agent.Spool.Bytes.{Bytes, u64, sequence_key}
use xui_agent.Spool.Bolt.{Bolt, Pair}
use xui_agent.Spool.Types.{Event, AccessCheckpoint, Side, SpoolError, missing_key}
use xui_agent.Spool.Store.{Codec, Limits, Db, put_checkpoint, enqueue_with, enqueue_with_checkpoint}
use xui_agent.Spool.Records.{record_error, set_checkpoint}
use xui_agent.Spool.Invariant.{Inv, FitsWord}
use xui_agent.Spool.Enqueue.{
  Accepted, Accepted-Inv, pairs-Accepted, enqueue_with-Accepted, enqueue_with-err,
}
use xui_agent.Access.Lines.{Slice}
use xui_agent.Access.Drain.{Queue, Report, line_too_long, parse_failed, rotation_gap, Parsed, drain}
use xui_agent.Access.Delivery.{Delivered, drain-Delivered}

abbrev access_key : String
access_key = "xray-access-v1"

-- "access_line_too_long", "access_parse_failed" and "access_rotation_gap"
abbrev access_code : Report → Bytes
access_code line_too_long =
    b'a' ∷ b'c' ∷ b'c' ∷ b'e' ∷ b's' ∷ b's' ∷ b'_' ∷ b'l' ∷ b'i' ∷ b'n' ∷ b'e' ∷ b'_' ∷ b't' ∷ b'o'
    ∷ b'o' ∷ b'_' ∷ b'l' ∷ b'o' ∷ b'n' ∷ b'g' ∷ []
access_code parse_failed =
    b'a' ∷ b'c' ∷ b'c' ∷ b'e' ∷ b's' ∷ b's' ∷ b'_' ∷ b'p' ∷ b'a' ∷ b'r' ∷ b's' ∷ b'e' ∷ b'_' ∷ b'f'
    ∷ b'a' ∷ b'i' ∷ b'l' ∷ b'e' ∷ b'd' ∷ []
access_code rotation_gap =
    b'a' ∷ b'c' ∷ b'c' ∷ b'e' ∷ b's' ∷ b's' ∷ b'_' ∷ b'r' ∷ b'o' ∷ b't' ∷ b'a' ∷ b't' ∷ b'i' ∷ b'o'
    ∷ b'n' ∷ b'_' ∷ b'g' ∷ b'a' ∷ b'p' ∷ []

module _ (bolt : Bolt) (codec : Codec) (s : Limits) (now : ℕ) (observed : Bytes → ℕ) where
  abbrev without_event :
      {A D : Type 0} → Outcome SpoolError A × D → Outcome SpoolError (Unit {0}) × D
  without_event (ok a, d) = (ok tt, d)
  without_event (err e, d) = (err e, d)

  unfoldable pub note_report : Report → Db bolt.Bucket → Db bolt.Bucket
  unfolding record_error
  note_report r d = record_error (access_code r) now d

  unfoldable pub save_checkpoint :
      AccessCheckpoint → Db bolt.Bucket → Outcome SpoolError (Unit {0}) × Db bolt.Bucket
  unfolding set_checkpoint
  save_checkpoint c d = set_checkpoint access_key false c d

  unfoldable pub send_event :
      Bytes → AccessCheckpoint → Db bolt.Bucket → Outcome SpoolError (Unit {0}) × Db bolt.Bucket
  unfolding enqueue_with_checkpoint
  send_event x c d =
      without_event
        (enqueue_with_checkpoint bolt codec s "access" (observed x) (some x) access_key c d)

  abbrev payload_of : Pair → Bytes
  payload_of p = elim (codec.decode p.1) [ none ↦ [] | some e ↦ e.payload ]

  abbrev pub payloads : Db bolt.Bucket → List Bytes
  payloads d = map payload_of (bolt.pairs d.events)

  abbrev pub last_checkpoint : Db bolt.Bucket → Option AccessCheckpoint
  last_checkpoint d = d.side.checkpoints access_key

  abbrev pub Ready : ℕ → Db bolt.Bucket → Type 0
  Ready n d = Inv bolt codec s d × FitsWord s × (d.meta.next_sequence + n < u64)

  -- What a `send` has done: all of it or nothing.
  abbrev Sent :
      ℕ
      → Bytes
      → AccessCheckpoint
      → Db bolt.Bucket
      → Outcome SpoolError (Unit {0}) × Db bolt.Bucket
      → Type 0
  Sent n x c d (ok _, d') =
      Ready n d' × (last_checkpoint d' ≡ some c) × (payloads d' ≡ payloads d ++ x ∷ [])
  Sent n x c d (err e, d') = d' ≡ d

  abbrev effect : AccessCheckpoint → Side → Outcome SpoolError Side
  effect c side =
      if str_eq access_key ""
      then err missing_key
      else ok (put_checkpoint bolt codec s access_key c side)

  checkpoint-effect :
      (x : Bytes) (c : AccessCheckpoint) (d : Db bolt.Bucket) (event : Event)
      → (enqueue_with bolt codec s "access" (observed x) (some x) (effect c) d).0 ≡ ok event
      → last_checkpoint (enqueue_with bolt codec s "access" (observed x) (some x) (effect c) d).1
        ≡ some c
  unfolding enqueue_with
  checkpoint-effect x c d event h = ground arith

  payload_of-decoded : (p : Pair) (e : Event) → codec.decode p.1 ≡ some e → payload_of p ≡ e.payload
  payload_of-decoded p e h = ap (λ o. elim o [ none ↦ [] | some e' ↦ e'.payload ]) h

  pub send-Sent :
      (n : ℕ) (x : Bytes) (c : AccessCheckpoint) (d : Db bolt.Bucket)
      → Ready (suc n) d
      → Sent n x c d (send_event x c d)
  unfolding send_event
  send-Sent n x c d (inv, fits, room) =
      go (enqueue_with bolt codec s "access" (observed x) (some x) (effect c) d) refl
    where
      go :
          (r : Outcome SpoolError Event × Db bolt.Bucket)
          → enqueue_with bolt codec s "access" (observed x) (some x) (effect c) d ≡ r
          → Sent n x c d (without_event r)
      go (err e, d') h =
          sym (ap (λ y. y.1) h)
          ∙ enqueue_with-err bolt codec s "access" (observed x) (some x) (effect c) d e
              (ap (λ y. y.0) h)
      go (ok event, d') h =
          let (encoded, a') =
            enqueue_with-Accepted bolt codec s "access" (observed x) x (effect c) d event
              (ap (λ y. y.0) h) in
          let a : Accepted bolt codec s "access" (observed x) x encoded d event d' =
            subst (Accepted bolt codec s "access" (observed x) x encoded d event) (ap (λ y. y.1) h)
              a' in
          let decoded = codec.decode-encode event encoded a.is_encoding in
          (
            (Accepted-Inv bolt codec s fits (omega arith) inv a, fits, omega (arith, a.next)),
            subst (λ y. last_checkpoint y ≡ some c) (ap (λ y. y.1) h)
                (checkpoint-effect x c d event (ap (λ y. y.0) h)),
            rw (pairs-Accepted bolt codec s inv a, map-append)
                (ap (λ p. payloads d ++ p ∷ [])
                  (payload_of-decoded (sequence_key d.meta.next_sequence, encoded) event decoded
                    ∙ ap (λ (e : Event). e.payload) a.sealed)),
          )

  pub Sent-Ready :
      (n : ℕ) (x : Bytes) (c : AccessCheckpoint) (d : Db bolt.Bucket)
      → Ready (suc n) d
      → (r : Outcome SpoolError (Unit {0}) × Db bolt.Bucket) → Sent n x c d r
      → Ready n r.1
  Sent-Ready n x c d (inv, fits, room) (ok u, d') h = h.0
  Sent-Ready n x c d (inv, fits, room) (err e, d') h =
      subst (Ready n) (sym h) (inv, fits, omega arith)

  pub Sent-payloads :
      (n : ℕ) (x : Bytes) (c : AccessCheckpoint) (d : Db bolt.Bucket)
      (r : Outcome SpoolError (Unit {0}) × Db bolt.Bucket)
      → Sent n x c d r
      → payloads r.1 ≡ elim r.0 [ ok _ ↦ payloads d ++ x ∷ [] | err _ ↦ payloads d ]
  Sent-payloads n x c d (ok u, d') h = h.2
  Sent-payloads n x c d (err e, d') h = ap payloads h

  pub sent_checkpoint :
      (x : Bytes) (c : AccessCheckpoint) (d : Db bolt.Bucket)
      → last_checkpoint (send_event x c d).1
        ≡ elim (send_event x c d).0 [ ok _ ↦ some c | err _ ↦ last_checkpoint d ]
  unfolding send_event
  sent_checkpoint x c d =
      go (enqueue_with bolt codec s "access" (observed x) (some x) (effect c) d) refl
    where
      go :
          (r : Outcome SpoolError Event × Db bolt.Bucket)
          → enqueue_with bolt codec s "access" (observed x) (some x) (effect c) d ≡ r
          → last_checkpoint (without_event r).1
            ≡ elim (without_event r).0 [ ok _ ↦ some c | err _ ↦ last_checkpoint d ]
      go (err e, d') h = ap last_checkpoint (
          sym (ap (λ y. y.1) h)
          ∙ enqueue_with-err bolt codec s "access" (observed x) (some x) (effect c) d e
              (ap (λ y. y.0) h))
      go (ok event, d') h =
          subst (λ y. last_checkpoint y ≡ some c) (ap (λ y. y.1) h)
            (checkpoint-effect x c d event (ap (λ y. y.0) h))

  -- The side buckets and the last error do not count.
  aside :
      (d : Db bolt.Bucket) (side : Side) (code : Bytes) (at : ℕ)
      → Inv bolt codec s d
      → Inv bolt codec s (record d {
        meta = record d.meta { last_error_code = code; last_error_at = at };
        side = side;
      })
  aside d side code at i = record {
    consecutive = i.consecutive;
    next_exact = i.next_exact;
    bytes_exact = i.bytes_exact;
    events_exact = i.events_exact;
    bytes_bounded = i.bytes_bounded;
    events_bounded = i.events_bounded;
    next_bounded = i.next_bounded;
  }

  pub saved-Ready :
      (n : ℕ) (c : AccessCheckpoint) (d : Db bolt.Bucket)
      → Ready n d
      → Ready n (save_checkpoint c d).1
  unfolding save_checkpoint
  saved-Ready n c d (inv, fits, room) =
      (aside d _ d.meta.last_error_code d.meta.last_error_at inv, fits, room)

  pub reported-Ready :
      (n : ℕ) (r : Report) (d : Db bolt.Bucket) → Ready n d → Ready n (note_report r d)
  unfolding note_report
  reported-Ready n r d (inv, fits, room) = (aside d d.side _ now inv, fits, room)

  pub reported_same :
      (r : Report) (d : Db bolt.Bucket)
      → (last_checkpoint (note_report r d) ≡ last_checkpoint d)
        × (payloads (note_report r d) ≡ payloads d)
  unfolding note_report
  reported_same r d = (refl, refl)

  pub saved_checkpoint :
      (c : AccessCheckpoint) (d : Db bolt.Bucket)
      → (last_checkpoint (save_checkpoint c d).1
          ≡ elim (save_checkpoint c d).0 [ ok _ ↦ some c | err _ ↦ last_checkpoint d ])
        × (payloads (save_checkpoint c d).1 ≡ payloads d)
  unfolding save_checkpoint
  saved_checkpoint c d = (ground arith, refl)

  -- The event queue as the collector uses it.
  abbrev pub spool_queue : Queue SpoolError
  spool_queue = record {
    S = Db bolt.Bucket;
    note = note_report;
    save = save_checkpoint;
    send = send_event;
    Ready = Ready;
    stored = last_checkpoint;
    sent = payloads;
    ready-fewer = λ m n d le h. (h.0, h.1, omega (arith, h.2));
    ready-note = reported-Ready;
    ready-save = saved-Ready;
    ready-send = λ n x c d h. Sent-Ready n x c d h (send_event x c d) (send-Sent n x c d h);
    stored-note = λ r d. (reported_same r d).0;
    sent-note = λ r d. (reported_same r d).1;
    stored-save = λ c d. (saved_checkpoint c d).0;
    sent-save = λ c d. (saved_checkpoint c d).1;
    stored-send = sent_checkpoint;
    sent-send = λ n x c d h. Sent-payloads n x c d (send_event x c d) (send-Sent n x c d h);
  }

  -- Let a consistent event queue, with limits that fit 64 bits and sequence numbers left for the rounds
  -- of the drain, hold the checkpoint that the drain starts from. However the drain ends, by the end of
  -- the file, a cancellation, a read error or an error of the queue: the lines from the checkpoint up to
  -- some line are settled, which is to say that exactly their events were queued behind those that were
  -- there, in order, and that the stored checkpoint is the one behind them. The queue is consistent.
  pub drain-Settled :
      (sha256_hex : Bytes → Bytes) (parse : Bytes → Parsed) (fuel : ℕ) (live : ℕ → Bool)
      (rs : List Slice) (c : AccessCheckpoint) (d : Db bolt.Bucket)
      → Inv bolt codec s d
      → FitsWord s
      → d.meta.next_sequence + fuel < u64
      → d.side.checkpoints access_key ≡ some c
      → Delivered spool_queue sha256_hex parse rs c d
          (drain spool_queue sha256_hex parse fuel live rs c d).1
  drain-Settled sha256_hex parse fuel live rs c d inv fits room start =
      drain-Delivered spool_queue sha256_hex parse fuel live rs c d start (inv, fits, room)
