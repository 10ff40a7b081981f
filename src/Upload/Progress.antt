-- ===== src/Upload/Progress.antt =====
-- One upload: what each reply of the server comes to. The delays between uploads.
use native.Mathlib.Nat.{pow-suc}
use Prim.Native.Nat.{min}
use xui_agent.Prelude.{
  ℕ, zero, suc, arith, ◌-◌, ◌^◌, ◌≤◌, ◌<◌, ◌≡◌, refl, ◌∙◌, Bool, true, false, ◌||◌, not, drop, ◌≢◌,
  [], ◌∷◌, length, ltb, ◌==◌, Outcome, ok, err, Bool-cases, inl, inr, List,
}
use xui_agent.Spool.Bytes.{bytes_eq, bytes_eq_iff}
use xui_agent.Spool.Bolt.{Bolt, Pair}
use xui_agent.Spool.Types.{EventBatch, SpoolError, max_event_batch_events}
use xui_agent.Spool.Store.{Codec, Limits, Db, acknowledge, batch}
use xui_agent.Spool.Invariant.{Inv}
use xui_agent.Spool.Batch.{IsPrefix, batch-IsPrefix}
use xui_agent.Spool.Acknowledge.{acknowledge_drops}
use xui_agent.Upload.{
  UploadError, Ack, Reply, no_answer, unreadable, refused, acked, upload_bytes, acknowledged, End,
  too_large, settle, answered, sent, upload_once, next_backoff, backoff_after,
}

-- The delay doubles from one second up to one minute.
pub backoff_after-min : (failures : ℕ) → backoff_after failures ≡ min (2 ^ failures) 60
unfolding backoff_after next_backoff
backoff_after-min zero = refl
backoff_after-min (suc k) = rw (backoff_after-min k) (ground (arith, pow-suc 2 k))

module _ (bolt : Bolt) (codec : Codec) (s : Limits) (fits : EventBatch → Bool)
    (post : EventBatch → Reply) where
  -- The acknowledgement is of the known version, for the stream of the batch and of one of its events.
  pub record Acceptable (b : EventBatch) (a : Ack) : Type 0 where
    pub known : a.known_version ≡ true
    pub same_stream : a.stream_id ≡ b.stream_id
    pub reached : b.first_sequence ≤ a.highest
    pub within : a.highest ≤ b.last_sequence

  -- The queue with the events up to `highest` removed.
  pub record Removed (d : Db bolt.Bucket) (highest : ℕ) (d' : Db bolt.Bucket) : Type 0 where
    pub inv : Inv bolt codec s d'
    pub same_next : d'.meta.next_sequence ≡ d.meta.next_sequence
    pub forward : d.meta.acked_sequence < highest
    pub at_highest : d'.meta.acked_sequence ≡ highest
    pub left : bolt.pairs d'.events ≡ drop (highest - d.meta.acked_sequence) (bolt.pairs d.events)

  -- What an upload of the batch comes to.
  pub data Uploaded (d : Db bolt.Bucket) (b : EventBatch)
      : End bolt codec s fits post → Type 0 where
    nothing_queued : bolt.pairs d.events ≡ [] → Uploaded d b (ok false, d)
    oversized : 0 < length b.events → fits b ≡ false → Uploaded d b (err too_large, d)
    unanswered :
        0 < length b.events
        → fits b ≡ true
        → ((a : Ack) → post b ≢ acked a)
        → (e : UploadError) → Uploaded d b (err e, d)
    unacceptable :
        0 < length b.events
        → fits b ≡ true
        → (a : Ack) → post b ≡ acked a
        → ¬ Acceptable b a
        → (e : UploadError) → Uploaded d b (err e, d)
    acknowledged_to :
        0 < length b.events
        → fits b ≡ true
        → (a : Ack) → post b ≡ acked a
        → Acceptable b a
        → (d' : Db bolt.Bucket) → Removed d a.highest d'
        → Uploaded d b (ok true, d')

  module _ (now : ℕ) (d : Db bolt.Bucket) (i : Inv bolt codec s d) (b : EventBatch)
      (p : IsPrefix bolt codec s max_event_batch_events upload_bytes d b)
      (some_events : 0 < length b.events) (small : fits b ≡ true) where
    last-next : b.last_sequence < d.meta.next_sequence
    last-next =
        let taken = p.taken.few in
        let last = p.last_exact some_events in let first = i.next_exact in omega arith

    removed :
        (a : Ack)
        → post b ≡ acked a
        → Acceptable b a
        → Uploaded d b (
            acknowledged bolt codec s fits post
              (acknowledge bolt codec s a.stream_id a.highest now d))
    removed a q k =
        let first = p.first_exact some_events in
        let low = k.reached in
        let high = k.within in
        let last = last-next in
        go (acknowledge bolt codec s a.stream_id a.highest now d)
          (acknowledge_drops bolt codec s a.stream_id a.highest now d i (k.same_stream ∙ p.named)
            (omega arith) (omega arith))
          (omega arith)
      where
        go :
            (x : Outcome SpoolError (Unit {0}) × Db bolt.Bucket)
            → (x.0 ≡ ok tt)
              × (x.1.meta.acked_sequence ≡ a.highest)
              × (x.1.meta.next_sequence ≡ d.meta.next_sequence)
              × (bolt.pairs x.1.events
                  ≡ drop (a.highest - d.meta.acked_sequence) (bolt.pairs d.events))
              × Inv bolt codec s x.1
            → d.meta.acked_sequence < a.highest
            → Uploaded d b (acknowledged bolt codec s fits post x)
        go (ok u, d') (r, at_sequence, next, left, inv) more =
            acknowledged_to some_events small a q k d' (record {
              inv = inv;
              same_next = next;
              forward = more;
              at_highest = at_sequence;
              left = left;
            })
        go (err e, d') h more = absurd (ground (arith, h.0))

    settle-Uploaded :
        (a : Ack) → post b ≡ acked a → Uploaded d b (settle bolt codec s fits post b a now d)
    unfolding settle
    settle-Uploaded a q =
        elim (Bool-cases (not a.known_version || not (bytes_eq a.stream_id b.stream_id))) [
          | inl e ↦ rw e (
              unacceptable some_events small a q
                (λ k.
                  let same = (bytes_eq_iff a.stream_id b.stream_id).1 k.same_stream in
                  let known = k.known in absurd (ground (arith, e, same, known)))
                _)
          | inr ne ↦ rw ne (elim (Bool-cases (ltb a.highest b.first_sequence)) [
            | inl e ↦ rw e (
                unacceptable some_events small a q
                  (λ k. let low = k.reached in absurd (ground (arith, e, low))) _)
            | inr high ↦ rw high (elim (Bool-cases (ltb b.last_sequence a.highest)) [
              | inl e ↦ rw e (
                  unacceptable some_events small a q
                    (λ k. let top = k.within in absurd (ground (arith, e, top))) _)
              | inr low ↦ rw low (
                  removed a q (record {
                    known = ground (arith, ne);
                    same_stream = (bytes_eq_iff a.stream_id b.stream_id).0 (ground (arith, ne));
                    reached = ground (arith, high);
                    within = ground (arith, low);
                  }))
            ])
          ])
        ]

    answered-Uploaded :
        (r : Reply) → post b ≡ r → Uploaded d b (answered bolt codec s fits post b r now d)
    answered-Uploaded no_answer q = unanswered some_events small (λ a h. cc (q, h)) _
    answered-Uploaded unreadable q = unanswered some_events small (λ a h. cc (q, h)) _
    answered-Uploaded refused q = unanswered some_events small (λ a h. cc (q, h)) _
    answered-Uploaded (acked a) q = settle-Uploaded a q

  no_pairs : (ps : List Pair) → length ps ≡ 0 → ps ≡ []
  no_pairs [] h = refl
  no_pairs (p ∷ ps) h = absurd (omega arith)

  -- From a consistent queue an upload sends the batch of its first events. An empty queue is left as it
  -- is, without an error. If the batch does not fit, no acknowledgement comes back, or the one that does
  -- is of an unknown version, for another stream, or of a sequence outside the batch, the upload is an
  -- error and the queue is as it was. Otherwise it succeeds: it records the acknowledged sequence,
  -- removes exactly the events up to it, at least one, assigns no sequence, and leaves the queue
  -- consistent.
  pub upload_once-Uploaded :
      (now : ℕ) (d : Db bolt.Bucket)
      → Inv bolt codec s d
      → (b : EventBatch) × (batch bolt codec s max_event_batch_events upload_bytes d ≡ ok b)
        × Uploaded d b (upload_once bolt codec s fits post now d)
  unfolding upload_once
  upload_once-Uploaded now d i =
      let (b, run, first) = batch-IsPrefix bolt codec s max_event_batch_events upload_bytes d i in
      (b, run, rw run (at_batch b first))
    where
      at_batch :
          (b : EventBatch)
          → IsPrefix bolt codec s max_event_batch_events upload_bytes d b
          → Uploaded d b (sent bolt codec s fits post (ok b) now d)
      at_batch b p = elim (Bool-cases (length b.events == 0)) [
        | inl e ↦
            rw e (nothing_queued (no_pairs (bolt.pairs d.events) (p.progress (ground (arith, e)))))
        | inr some_events ↦ rw some_events (elim (Bool-cases (fits b)) [
          | inl e ↦
              rw e (answered-Uploaded now d i b p (ground (arith, some_events)) e (post b) refl)
          | inr ne ↦ rw ne (oversized (ground (arith, some_events)) ne)
        ])
      ]
