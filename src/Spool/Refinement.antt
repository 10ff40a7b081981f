-- ===== src/Spool/Refinement.antt =====
-- The queue of internal/eventspool refines a log: all events ever accepted, in order, of which a
-- prefix has been acknowledged.
use mathlib.Core.List.{map-append}
use native.Mathlib.Nat.{zero-add, suc-add}
use native.Mathlib.Decide.{dec_lt}
use xui_agent.Prelude.{
  ℕ, zero, suc, ◌+◌, ◌-◌, ◌≤◌, ◌<◌, ◌≡◌, ◌≢◌, subst, if◌then◌else◌, true, false, refl, ◌∙◌, ap, sym,
  inl, inr, Bool-cases, Bool, Option, none, some, String, List, [], ◌∷◌, ◌++◌, map, length,
  length-append, drop, drop-append, arith, Outcome, ok, err,
}
use xui_agent.Spool.Bytes.{Bytes, u64, bytes_eq, bytes_eq_iff}
use xui_agent.Spool.Bolt.{Bolt, Pair}
use xui_agent.Spool.Types.{
  Event, AccessCheckpoint, Side, SpoolError, missing_key, stream_mismatch, ack_ahead,
}
use xui_agent.Spool.Store.{Codec, Limits, Db, enqueue_with, acknowledge}
use xui_agent.Spool.Records.{record_drop, record_error, set_checkpoint, initialize, empty_meta}
use xui_agent.Spool.Invariant.{Inv, FitsWord}
use xui_agent.Spool.Enqueue.{
  Accepted, Accepted-Inv, pairs-Accepted, enqueue_with-Accepted, enqueue_with-err,
  enqueue_with-none,
}
use xui_agent.Spool.Acknowledge.{acknowledge_drops, acknowledge_else}

-- One call of the store.
pub data Op : Type 0 where
  offer : String → ℕ → Option Bytes → (Side → Outcome SpoolError Side) → Op
  settle_to : Bytes → ℕ → ℕ → Op
  drop_event : String → ℕ → Op
  report : Bytes → ℕ → Op
  checkpoint : String → Bool → AccessCheckpoint → Op

-- What a call returns: the event that was stored, no error, or an error.
pub data Answer : Type 0 where
  stored : Event → Answer
  fine : Answer
  refused : SpoolError → Answer

-- The stream, all events that were ever accepted, encoded, and how many of them are acknowledged.
pub record Log : Type 0 where
  pub stream : Bytes
  pub accepted : List Bytes
  pub acked : ℕ

-- An event of this kind, time and payload, behind so many others.
pub record IsNext (kind : String) (now : ℕ) (raw : Bytes) (before : ℕ) (event : Event)
    : Type 0 where
  pub same_kind : event.kind ≡ kind
  pub same_time : event.observed_at ≡ now
  pub same_payload : event.payload ≡ raw
  pub numbered : event.sequence ≡ suc before

-- What a call does to the log, and what it returns.
pub data LogStep (codec : Codec) : Op → Answer → Log → Log → Type 0 where
  accept :
      {kind : String} {now : ℕ} {raw : Bytes} {effect : Side → Outcome SpoolError Side} (l : Log)
      (event : Event) (v : Bytes)
      → IsNext kind now raw (length l.accepted) event
      → codec.decode v ≡ some event
      → LogStep codec
          (offer kind now (some raw) effect)
          (stored event)
          l
          (record l { accepted = l.accepted ++ v ∷ [] })
  refuse :
      {kind : String} {now : ℕ} {payload : Option Bytes} {effect : Side → Outcome SpoolError Side}
      (l : Log) (e : SpoolError)
      → LogStep codec (offer kind now payload effect) (refused e) l l
  settle :
      {id : Bytes} {sequence now : ℕ} (l : Log)
      → id ≡ l.stream
      → l.acked ≤ sequence
      → sequence ≤ length l.accepted
      → LogStep codec (settle_to id sequence now) fine l (record l { acked = sequence })
  stale :
      {id : Bytes} {sequence now : ℕ} (l : Log)
      → id ≡ l.stream
      → sequence < l.acked
      → LogStep codec (settle_to id sequence now) fine l l
  other_stream :
      {id : Bytes} {sequence now : ℕ} (l : Log)
      → id ≢ l.stream
      → LogStep codec (settle_to id sequence now) (refused stream_mismatch) l l
  ahead :
      {id : Bytes} {sequence now : ℕ} (l : Log)
      → id ≡ l.stream
      → length l.accepted < sequence
      → LogStep codec (settle_to id sequence now) (refused ack_ahead) l l
  dropped : {kind : String} {now : ℕ} (l : Log) → LogStep codec (drop_event kind now) fine l l
  reported : {code : Bytes} {now : ℕ} (l : Log) → LogStep codec (report code now) fine l l
  checked :
      {key : String} {blank : Bool} {c : AccessCheckpoint} (l : Log) (a : Answer)
      → a ≡ (if blank then refused missing_key else fine)
      → LogStep codec (checkpoint key blank c) a l l

pub data LogSteps (codec : Codec) : List Op → List Answer → Log → Log → Type 0 where
  here : (l : Log) → LogSteps codec [] [] l l
  next :
      {op : Op} {ops : List Op} {a : Answer} {as' : List Answer} {l m n : Log}
      → LogStep codec op a l m
      → LogSteps codec ops as' m n
      → LogSteps codec (op ∷ ops) (a ∷ as') l n

abbrev pub values : List Pair → List Bytes
values ps = map (λ p. p.1) ps

drop-drop {ℓ} : {A : Type ℓ} (m n : ℕ) (xs : List A) → drop n (drop m xs) ≡ drop (m + n) xs
drop-drop zero n xs = rw zero-add
drop-drop (suc m) zero [] = rw suc-add
drop-drop (suc m) (suc n) [] = rw suc-add
drop-drop (suc m) n (x ∷ xs) = rw suc-add (drop-drop m n xs)

values-drop : (n : ℕ) (ps : List Pair) → values (drop n ps) ≡ drop n (values ps)
values-drop zero ps = refl
values-drop (suc n) [] = refl
values-drop (suc n) (p ∷ ps) = values-drop n ps

length-values : (ps : List Pair) → length (values ps) ≡ length ps
length-values [] = refl
length-values (p ∷ ps) = ap suc (length-values ps)

module _ (bolt : Bolt) (codec : Codec) (s : Limits) where
  abbrev answer_event : Outcome SpoolError Event × Db bolt.Bucket → Answer × Db bolt.Bucket
  answer_event (ok event, d) = (stored event, d)
  answer_event (err e, d) = (refused e, d)

  abbrev answer_unit : Outcome SpoolError (Unit {0}) × Db bolt.Bucket → Answer × Db bolt.Bucket
  answer_unit (ok u, d) = (fine, d)
  answer_unit (err e, d) = (refused e, d)

  unfoldable pub apply : Op → Db bolt.Bucket → Answer × Db bolt.Bucket
  apply (offer kind now payload effect) d =
      answer_event (enqueue_with bolt codec s kind now payload effect d)
  apply (settle_to stream_id sequence now) d =
      answer_unit (acknowledge bolt codec s stream_id sequence now d)
  apply (drop_event kind now) d = (fine, record_drop kind now d)
  apply (report code now) d = (fine, record_error code now d)
  apply (checkpoint key blank c) d = answer_unit (set_checkpoint key blank c d)

  unfoldable pub apply_all : List Op → Db bolt.Bucket → List Answer × Db bolt.Bucket
  apply_all [] d = ([], d)
  apply_all (op ∷ ops) d =
      let (a, d') = apply op d in let (rest, d'') = apply_all ops d' in (a ∷ rest, d'')

  -- The database stands for the log: what is queued is what is accepted and not acknowledged.
  pub record Refines (d : Db bolt.Bucket) (l : Log) : Type 0 where
    pub inv : Inv bolt codec s d
    pub queued : values (bolt.pairs d.events) ≡ drop l.acked l.accepted
    pub acked_exact : d.meta.acked_sequence ≡ l.acked
    pub next_exact : d.meta.next_sequence ≡ suc (length l.accepted)
    pub stream_exact : d.meta.stream_id ≡ l.stream

  -- One operation is one step of the log.
  abbrev Simulates : Log → Op → Answer × Db bolt.Bucket → Type 0
  Simulates l op (a, d') = (l' : Log) × LogStep codec op a l l' × Refines d' l'

  Accepted-Simulates :
      {kind : String} {now : ℕ} {raw encoded : Bytes} {effect : Side → Outcome SpoolError Side}
      {d d' : Db bolt.Bucket} {event : Event} (l : Log)
      → FitsWord s
      → d.meta.next_sequence + 1 < u64
      → Refines d l
      → Accepted bolt codec s kind now raw encoded d event d'
      → Simulates l (offer kind now (some raw) effect) (stored event, d')
  Accepted-Simulates {encoded = encoded} {d = d} {event = event} l fits room r a = (
    record l { accepted = l.accepted ++ encoded ∷ [] },
    accept l event encoded
        (record {
          same_kind = ap (λ (e : Event). e.kind) a.sealed;
          same_time = ap (λ (e : Event). e.observed_at) a.sealed;
          same_payload = ap (λ (e : Event). e.payload) a.sealed;
          numbered = ap (λ (e : Event). e.sequence) a.sealed ∙ r.next_exact;
        })
        (codec.decode-encode event encoded a.is_encoding),
    record {
      inv = Accepted-Inv bolt codec s fits room r.inv a;
      queued =
          rw (pairs-Accepted bolt codec s r.inv a, map-append, r.queued)
            (sym (drop-append l.acked l.accepted (encoded ∷ []) (omega arith)));
      acked_exact = a.acked ∙ r.acked_exact;
      next_exact = omega (arith, length-append l.accepted (encoded ∷ []));
      stream_exact = a.stream ∙ r.stream_exact;
    },
  )

  offer-Simulates :
      (kind : String) (now : ℕ) (payload : Option Bytes) (effect : Side → Outcome SpoolError Side)
      (d : Db bolt.Bucket) (l : Log)
      → FitsWord s
      → d.meta.next_sequence + 1 < u64
      → Refines d l
      → Simulates l
          (offer kind now payload effect)
          (answer_event (enqueue_with bolt codec s kind now payload effect d))
  offer-Simulates kind now payload effect d l fits room r =
      go payload (enqueue_with bolt codec s kind now payload effect d) refl
    where
      go :
          (p : Option Bytes) (x : Outcome SpoolError Event × Db bolt.Bucket)
          → enqueue_with bolt codec s kind now p effect d ≡ x
          → Simulates l (offer kind now p effect) (answer_event x)
      go p (err e, d') h = (
        l,
        refuse l e,
        subst (λ x. Refines x l)
            (sym (enqueue_with-err bolt codec s kind now p effect d e (ap (λ y. y.0) h))
              ∙ ap (λ y. y.1) h)
            r,
      )
      go none (ok event, d') h =
          absurd (enqueue_with-none bolt codec s kind now effect d event (ap (λ y. y.0) h))
      go (some raw) (ok event, d') h =
          let (encoded, accepted) =
            enqueue_with-Accepted bolt codec s kind now raw effect d event (ap (λ y. y.0) h) in
          Accepted-Simulates l fits room r
            (subst (Accepted bolt codec s kind now raw encoded d event) (ap (λ y. y.1) h) accepted)

  acknowledge-stream :
      (stream_id : Bytes) (sequence now : ℕ) (d : Db bolt.Bucket)
      → (acknowledge bolt codec s stream_id sequence now d).1.meta.stream_id ≡ d.meta.stream_id
  unfolding acknowledge
  acknowledge-stream stream_id sequence now d = ground arith

  settled-Simulates :
      (stream_id : Bytes) (sequence now : ℕ) (d : Db bolt.Bucket) (l : Log)
      → Refines d l
      → stream_id ≡ d.meta.stream_id
      → d.meta.acked_sequence ≤ sequence
      → sequence < d.meta.next_sequence
      → Simulates l
          (settle_to stream_id sequence now)
          (answer_unit (acknowledge bolt codec s stream_id sequence now d))
  settled-Simulates stream_id sequence now d l r same le lt =
      go (acknowledge bolt codec s stream_id sequence now d)
        (acknowledge-stream stream_id sequence now d)
        (acknowledge_drops bolt codec s stream_id sequence now d r.inv same le lt)
    where
      go :
          (x : Outcome SpoolError (Unit {0}) × Db bolt.Bucket)
          → x.1.meta.stream_id ≡ d.meta.stream_id
          → (x.0 ≡ ok tt)
            × (x.1.meta.acked_sequence ≡ sequence)
            × (x.1.meta.next_sequence ≡ d.meta.next_sequence)
            × (bolt.pairs x.1.events
                ≡ drop (sequence - d.meta.acked_sequence) (bolt.pairs d.events))
            × Inv bolt codec s x.1
          → Simulates l (settle_to stream_id sequence now) (answer_unit x)
      go (err e, d') n h = absurd (ground (arith, h.0))
      go (ok u, d') n (_, acked, next', walk, inv) = (
        record l { acked = sequence },
        settle l (same ∙ r.stream_exact) (omega (arith, r.acked_exact))
            (omega (arith, r.next_exact)),
        record {
          inv = inv;
          queued =
              rw (walk, values-drop, r.queued, drop-drop)
                (ap (λ n. drop n l.accepted) (omega (arith, r.acked_exact)));
          acked_exact = acked;
          next_exact = next' ∙ r.next_exact;
          stream_exact = n ∙ r.stream_exact;
        },
      )

  settle-Simulates :
      (stream_id : Bytes) (sequence now : ℕ) (d : Db bolt.Bucket) (l : Log)
      → Refines d l
      → Simulates l
          (settle_to stream_id sequence now)
          (answer_unit (acknowledge bolt codec s stream_id sequence now d))
  settle-Simulates stream_id sequence now d l r =
      let (mismatch, above, old) = acknowledge_else bolt codec s stream_id sequence now d in
      let named = r.stream_exact in
      elim (Bool-cases (bytes_eq stream_id d.meta.stream_id)) [
        | inr ne ↦
            let other : stream_id ≢ d.meta.stream_id =
              λ e. cc (ne, (bytes_eq_iff stream_id d.meta.stream_id).1 e) in
            rw (mismatch other) (l, other_stream l (λ e. other (e ∙ sym named)), r)
        | inl same' ↦
            let same = (bytes_eq_iff stream_id d.meta.stream_id).0 same' in
            elim (dec_lt sequence d.meta.next_sequence) [
              | no ge ↦
                  rw (above same (omega arith))
                    (l, ahead l (same ∙ named) (omega (arith, r.next_exact)), r)
              | yes lt ↦ elim (dec_lt sequence d.meta.acked_sequence) [
                | yes before ↦
                    rw (old same lt before)
                      (l, stale l (same ∙ named) (omega (arith, r.acked_exact)), r)
                | no le ↦ settled-Simulates stream_id sequence now d l r same (omega arith) lt
              ]
            ]
      ]

  Inv-Refines :
      {d d' : Db bolt.Bucket} {l : Log}
      → Refines d l
      → d'.events ≡ d.events
      → d'.meta.acked_sequence ≡ d.meta.acked_sequence
      → d'.meta.next_sequence ≡ d.meta.next_sequence
      → d'.meta.pending_bytes ≡ d.meta.pending_bytes
      → d'.meta.pending_events ≡ d.meta.pending_events
      → d'.meta.stream_id ≡ d.meta.stream_id
      → Refines d' l
  Inv-Refines r e a n b c t = record {
    inv = record {
      consecutive = rw (e, a) r.inv.consecutive;
      next_exact = rw e (omega arith);
      bytes_exact = rw e (omega arith);
      events_exact = rw e (omega arith);
      bytes_bounded = omega arith;
      events_bounded = omega arith;
      next_bounded = omega arith;
    };
    queued = rw e r.queued;
    acked_exact = omega arith;
    next_exact = omega arith;
    stream_exact = t ∙ r.stream_exact;
  }

  checkpoint-Simulates :
      (key : String) (blank : Bool) (c : AccessCheckpoint) (d : Db bolt.Bucket) (l : Log)
      → Refines d l
      → Simulates l (checkpoint key blank c) (answer_unit (set_checkpoint key blank c d))
  unfolding set_checkpoint
  checkpoint-Simulates key true c d l r = (l, checked l _ refl, r)
  checkpoint-Simulates key false c d l r =
      (l, checked l _ refl, Inv-Refines r refl refl refl refl refl refl)

  apply-Simulates :
      (op : Op) (d : Db bolt.Bucket) (l : Log)
      → FitsWord s
      → d.meta.next_sequence + 1 < u64
      → Refines d l
      → Simulates l op (apply op d)
  unfolding apply
  apply-Simulates (offer kind now payload effect) d l fits room r =
      offer-Simulates kind now payload effect d l fits room r
  apply-Simulates (settle_to stream_id sequence now) d l fits room r =
      settle-Simulates stream_id sequence now d l r
  apply-Simulates (drop_event kind now) d l fits room r = (
    l,
    dropped l,
    unfold record_drop in
        Inv-Refines r (ground arith) (ground arith) (ground arith) (ground arith) (ground arith)
          (ground arith),
  )
  apply-Simulates (report code now) d l fits room r =
      (l, reported l, unfold record_error in Inv-Refines r refl refl refl refl refl refl)
  apply-Simulates (checkpoint key blank c) d l fits room r = checkpoint-Simulates key blank c d l r

  LogStep-length :
      {op : Op} {a : Answer} {l l' : Log}
      → LogStep codec op a l l'
      → length l'.accepted ≤ length l.accepted + 1
  LogStep-length (accept l event v h k) = omega (arith, length-append l.accepted (v ∷ []))
  LogStep-length (refuse l e) = omega arith
  LogStep-length (settle l e h k) = omega arith
  LogStep-length (stale l e h) = omega arith
  LogStep-length (other_stream l h) = omega arith
  LogStep-length (ahead l e h) = omega arith
  LogStep-length (dropped l) = omega arith
  LogStep-length (reported l) = omega arith
  LogStep-length (checked l a e) = omega arith

  -- From a database that stands for a log, with limits that fit 64 bits and sequence numbers left for
  -- all calls: after any list of calls, of any arguments, the database stands for the log that the
  -- steps of these calls, with what they returned, lead to; the queued events are the accepted ones
  -- without the acknowledged prefix. An event that Enqueue returns is the one asked for, with the next
  -- sequence, and is at the end of the log; a refused one leaves the log as it was. An acknowledgement
  -- moves the prefix to its sequence; one of an older sequence changes nothing; and one for another
  -- stream or behind the last event is refused.
  pub apply_all-Refines :
      (ops : List Op) (d : Db bolt.Bucket) (l : Log)
      → FitsWord s
      → d.meta.next_sequence + length ops < u64
      → Refines d l
      → let (as', d') = apply_all ops d in (l' : Log) × LogSteps codec ops as' l l' × Refines d' l'
  unfolding apply_all
  apply_all-Refines [] d l fits room r = (l, here l, r)
  apply_all-Refines (op ∷ ops) d l fits room r =
      let (m, step, r') = apply-Simulates op d l fits (omega arith) r in
      let grown = LogStep-length step in
      let (l', steps, r'') = apply_all-Refines ops (apply op d).1 m fits (omega arith) r' in
      (l', next step steps, r'')

  -- A database that was just created holds the empty log.
  pub initialize-Refines :
      (fresh : Bytes) (side : Side)
      → Refines
          (initialize fresh (record { meta = empty_meta; events = bolt.empty; side = side }))
          (record { stream = fresh; accepted = []; acked = 0 })
  unfolding initialize
  initialize-Refines fresh side = record {
    inv = record {
      consecutive = rw bolt.pairs-empty tt;
      next_exact = rw bolt.pairs-empty refl;
      bytes_exact = rw bolt.pairs-empty refl;
      events_exact = rw bolt.pairs-empty refl;
      bytes_bounded = omega arith;
      events_bounded = omega arith;
      next_bounded = omega arith;
    };
    queued = rw bolt.pairs-empty refl;
    acked_exact = refl;
    next_exact = refl;
    stream_exact = refl;
  }
