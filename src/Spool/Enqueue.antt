-- ===== src/Spool/Enqueue.antt =====
-- `Enqueue` and its variants of internal/eventspool/store.go: what an accepted event changes, when
-- one is refused, and that the queue stays consistent.
use xui_agent.Prelude.{
  ℕ, suc, ◌+◌, ◌%◌, ◌≤◌, ◌<◌, ◌≡◌, refl, ap, true, Option, none, some, String, [], ◌∷◌, ◌++◌,
  length, length-append, arith, Outcome, ok, err, Option-cases, inl, inr, ◌⊎◌, ◌↔◌,
}
use xui_agent.Spool.Bytes.{Bytes, u64, sequence_key}
use xui_agent.Spool.Bolt.{Bolt}
use xui_agent.Spool.Types.{Event, Meta, Side, SpoolError, max_event_bytes, valid_kind, full}
use xui_agent.Spool.Store.{Codec, Limits, Db, counted, seal, stamp, enqueue_with}
use xui_agent.Spool.Invariant.{
  Consecutive-append, Consecutive-bytes_lt, size, size-append, FitsWord, Inv,
}

-- Setting a timestamp leaves the counters alone.
stamp-counters :
    (kind : String) (now : ℕ) (m : Meta)
    → ((stamp kind now m).next_sequence ≡ m.next_sequence)
      × ((stamp kind now m).acked_sequence ≡ m.acked_sequence)
      × ((stamp kind now m).pending_bytes ≡ m.pending_bytes)
      × ((stamp kind now m).pending_events ≡ m.pending_events)
      × ((stamp kind now m).stream_id ≡ m.stream_id)
unfolding stamp
stamp-counters kind now m = ground arith

module _ (bolt : Bolt) (codec : Codec) (s : Limits) where
  -- What an accepted event has changed.
  pub record Accepted (kind : String) (now : ℕ) (raw encoded : Bytes) (d : Db bolt.Bucket)
      (event : Event) (d' : Db bolt.Bucket) : Type 0 where
    pub is_encoding : codec.encode event ≡ some encoded
    pub sealed : event ≡ seal bolt codec s kind now raw d.meta
    pub small : length encoded ≤ max_event_bytes
    pub bytes_fit : (length encoded + d.meta.pending_bytes) % u64 ≤ s.max_bytes
    pub events_fit : d.meta.pending_events < s.max_events
    pub appended : d'.events ≡ bolt.put d.events (sequence_key d.meta.next_sequence) encoded
    pub next : d'.meta.next_sequence ≡ (d.meta.next_sequence + 1) % u64
    pub acked : d'.meta.acked_sequence ≡ d.meta.acked_sequence
    pub bytes : d'.meta.pending_bytes ≡ (d.meta.pending_bytes + length encoded) % u64
    pub events : d'.meta.pending_events ≡ (d.meta.pending_events + 1) % u64
    pub stream : d'.meta.stream_id ≡ d.meta.stream_id

  pub enqueue_with-Accepted :
      (kind : String) (now : ℕ) (raw : Bytes) (effect : Side → Outcome SpoolError Side)
      (d : Db bolt.Bucket) (event : Event)
      → (enqueue_with bolt codec s kind now (some raw) effect d).0 ≡ ok event
      → (encoded : Bytes) × Accepted kind now raw encoded d event
          (enqueue_with bolt codec s kind now (some raw) effect d).1
  unfolding enqueue_with
  enqueue_with-Accepted kind now raw effect d event h =
      elim (Option-cases (codec.encode (seal bolt codec s kind now raw d.meta))) [
        | inl e ↦ absurd (ground arith)
        | inr (encoded, e) ↦
            (encoded, ground (arith, stamp-counters kind now (counted (length encoded) d.meta)))
      ]

module _ (bolt : Bolt) (codec : Codec) (s : Limits) where
  -- The queue after an accepted event: the same pairs, and the new one behind them.
  pub pairs-Accepted :
      {kind : String} {now : ℕ} {raw encoded : Bytes} {d d' : Db bolt.Bucket} {event : Event}
      → Inv bolt codec s d
      → Accepted bolt codec s kind now raw encoded d event d'
      → bolt.pairs d'.events
        ≡ bolt.pairs d.events ++ (sequence_key d.meta.next_sequence, encoded) ∷ []
  pairs-Accepted {encoded = encoded} {d = d} i a = rw a.appended (
      bolt.pairs-put_last d.events (sequence_key d.meta.next_sequence) encoded (
        Consecutive-bytes_lt codec (suc d.meta.acked_sequence) (bolt.pairs d.events)
          d.meta.next_sequence i.consecutive (omega arith) i.next_bounded))

  pub Accepted-Inv :
      {kind : String} {now : ℕ} {raw encoded : Bytes} {d d' : Db bolt.Bucket} {event : Event}
      → FitsWord s
      → d.meta.next_sequence + 1 < u64
      → Inv bolt codec s d
      → Accepted bolt codec s kind now raw encoded d event d'
      → Inv bolt codec s d'
  Accepted-Inv {encoded = encoded} {d = d} {d' = d'} {event = event} fits room i a =
      let ps = bolt.pairs d.events in
      let key = sequence_key d.meta.next_sequence in
      let walk = pairs-Accepted i a in
      let longer : length (bolt.pairs d'.events) ≡ length ps + 1 =
        rw walk (length-append ps ((key, encoded) ∷ [])) in
      let larger : size (bolt.pairs d'.events) ≡ size ps + length encoded =
        rw walk (omega (arith, size-append ps ((key, encoded) ∷ []))) in
      let numbered : event.sequence ≡ d.meta.next_sequence =
        ap (λ (e : Event). e.sequence) a.sealed in
      record {
        consecutive =
            rw (walk, a.acked)
              (Consecutive-append codec (suc d.meta.acked_sequence) ps ((key, encoded) ∷ [])
                i.consecutive
                (
                  ap sequence_key (omega arith),
                  (event, codec.decode-encode event encoded a.is_encoding, omega arith),
                  tt,
                ));
        next_exact = omega arith;
        bytes_exact = omega arith;
        events_exact = omega arith;
        bytes_bounded = omega arith;
        events_bounded = omega arith;
        next_bounded = omega arith;
      }

  pub enqueue_with-err :
      (kind : String) (now : ℕ) (payload : Option Bytes) (effect : Side → Outcome SpoolError Side)
      (d : Db bolt.Bucket) (e : SpoolError)
      → (enqueue_with bolt codec s kind now payload effect d).0 ≡ err e
      → (enqueue_with bolt codec s kind now payload effect d).1 ≡ d
  unfolding enqueue_with
  enqueue_with-err kind now payload effect d e h = ground arith

  pub enqueue_with-none :
      (kind : String) (now : ℕ) (effect : Side → Outcome SpoolError Side) (d : Db bolt.Bucket)
      (event : Event)
      → ¬ ((enqueue_with bolt codec s kind now none effect d).0 ≡ ok event)
  unfolding enqueue_with
  enqueue_with-none kind now effect d event h = ground arith

  -- A call of `enqueue` leaves a consistent queue consistent, whether the event is accepted, refused
  -- or fails in its side effect, as long as sequence numbers are left.
  pub enqueue_with-Inv :
      (kind : String) (now : ℕ) (payload : Option Bytes) (effect : Side → Outcome SpoolError Side)
      (d : Db bolt.Bucket)
      → FitsWord s
      → d.meta.next_sequence + 1 < u64
      → Inv bolt codec s d
      → Inv bolt codec s (enqueue_with bolt codec s kind now payload effect d).1
  enqueue_with-Inv kind now payload effect d fits room i =
      go payload (enqueue_with bolt codec s kind now payload effect d).0 refl
    where
      go :
          (p : Option Bytes) (r : Outcome SpoolError Event)
          → (enqueue_with bolt codec s kind now p effect d).0 ≡ r
          → Inv bolt codec s (enqueue_with bolt codec s kind now p effect d).1
      go p (err e) h = rw (enqueue_with-err kind now p effect d e h) i
      go none (ok event) h = absurd (enqueue_with-none kind now effect d event h)
      go (some raw) (ok event) h =
          Accepted-Inv fits room i
            (enqueue_with-Accepted bolt codec s kind now raw effect d event h).1

  -- An event that is valid and small is refused as `full` exactly when its bytes pass the limit or
  -- as many events as allowed are pending: the test does not wrap at 64 bits.
  pub enqueue_with-full_iff :
      (kind : String) (now : ℕ) (raw encoded : Bytes) (effect : Side → Outcome SpoolError Side)
      (d : Db bolt.Bucket) (side' : Side)
      → FitsWord s
      → Inv bolt codec s d
      → valid_kind kind ≡ true
      → 0 < now
      → 0 < length raw
      → length raw ≤ max_event_bytes
      → codec.encode (seal bolt codec s kind now raw d.meta) ≡ some encoded
      → length encoded ≤ max_event_bytes
      → effect d.side ≡ ok side'
      → ((enqueue_with bolt codec s kind now (some raw) effect d).0 ≡ err full) ↔ (
          (s.max_bytes < d.meta.pending_bytes + length encoded)
          ⊎ (s.max_events ≤ d.meta.pending_events))
  unfolding enqueue_with
  enqueue_with-full_iff kind now raw encoded effect d side' fits i v t p q c l f =
      let wraps : (length encoded + d.meta.pending_bytes) % u64
          ≡ length encoded + d.meta.pending_bytes =
        omega arith in
      ground arith
