-- ===== src/Spool/Acknowledge.antt =====
-- `Acknowledge` of internal/eventspool/store.go: it drops exactly the acknowledged events.
use native.Mathlib.Nat.{add-zero}
use native.Mathlib.Decide.{dec_lt}
use mathlib.Core.Path.{subst}
use xui_agent.Prelude.{
  ℕ, zero, suc, ◌+◌, ◌-◌, ◌≤◌, ◌<◌, ◌≡◌, refl, ◌∙◌, ap, sym, ◌≢◌, inl, inr, Bool-cases, List, [],
  ◌∷◌, length, length-drop, drop, arith, ok, err,
}
use xui_agent.Spool.Bytes.{
  Bytes, u64, sequence_key, read_uint64, read-sequence_key, bytes_eq, bytes_eq_iff,
}
use xui_agent.Spool.Bolt.{Bolt, Pair}
use xui_agent.Spool.Types.{stream_mismatch, ack_ahead, inconsistent}
use xui_agent.Spool.Store.{Codec, Limits, Db, settled, drop_acked, acknowledge}
use xui_agent.Spool.Invariant.{Consecutive, size, Inv}

pub size-drop : (n : ℕ) (ps : List Pair) → size (drop n ps) ≤ size ps
size-drop zero ps = omega arith
size-drop (suc n) [] = omega arith
size-drop (suc n) ((k, v) ∷ ps) = omega (arith, size-drop n ps)

module _ (codec : Codec) where
  pub Consecutive-drop :
      (n first : ℕ) (ps : List Pair)
      → n ≤ length ps
      → Consecutive codec first ps
      → Consecutive codec (first + n) (drop n ps)
  Consecutive-drop zero first ps le h = subst (λ m. Consecutive codec m ps) (sym (add-zero first)) h
  Consecutive-drop (suc n) first [] le h = absurd (omega arith)
  Consecutive-drop (suc n) first ((k, v) ∷ ps) le h =
      subst (λ m. Consecutive codec m (drop n ps)) (omega arith)
        (Consecutive-drop n (suc first) ps (omega arith) h.2)

key_of : {k : Bytes} {n : ℕ} → k ≡ sequence_key n → n < u64 → read_uint64 k ≡ n
key_of {n = n} e h = ap read_uint64 e ∙ read-sequence_key n h

module _ (bolt : Bolt) (codec : Codec) (s : Limits) where
  -- From a consistent queue that starts at `first`, the loop drops the `n` events up to `sequence`.
  drop_acked-eq :
      (n sequence first : ℕ) (ps : List Pair) (b : bolt.Bucket)
      → first + n ≡ suc sequence
      → n ≤ length ps
      → first + length ps ≤ u64
      → Consecutive codec first ps
      → bolt.pairs b ≡ ps
      → (b' : bolt.Bucket) × (drop_acked bolt codec s sequence ps b (size ps) (length ps)
          ≡ ok (b', size (drop n ps), length (drop n ps)))
        × (bolt.pairs b' ≡ drop n ps)
  unfolding drop_acked
  drop_acked-eq zero sequence first [] b e le room c w = (b, refl, w)
  drop_acked-eq zero sequence first ((k, v) ∷ ps) b e le room c w =
      let key : read_uint64 k ≡ first = key_of c.0 (omega arith) in (b, ground arith, w)
  drop_acked-eq (suc n) sequence first [] b e le room c w = absurd (omega arith)
  drop_acked-eq (suc n) sequence first ((k, v) ∷ ps) b e le room c w =
      let (b', run, left) =
        drop_acked-eq n sequence (suc first) ps (bolt.delete b k) (omega arith) (omega arith)
          (omega arith) c.2 (bolt.pairs-delete_first b k v ps w) in
      let key : read_uint64 k ≡ first = key_of c.0 (omega arith) in
      let bytes : length v + size ps - length v ≡ size ps = omega arith in
      let count : suc (length ps) - 1 ≡ length ps = omega arith in (b', ground (arith, run), left)

  acknowledge-settled :
      (stream_id : Bytes) (sequence now : ℕ) (d : Db bolt.Bucket) (left : bolt.Bucket × ℕ × ℕ)
      → stream_id ≡ d.meta.stream_id
      → d.meta.acked_sequence ≤ sequence
      → sequence < d.meta.next_sequence
      → drop_acked bolt codec s sequence
          (bolt.pairs d.events)
          d.events
          d.meta.pending_bytes
          d.meta.pending_events
        ≡ ok left
      → acknowledge bolt codec s stream_id sequence now d
        ≡ (ok tt, settled bolt codec s sequence now left d)
  unfolding acknowledge
  acknowledge-settled stream_id sequence now d left same le lt run =
      ground (arith, (bytes_eq_iff stream_id d.meta.stream_id).1 same)

  -- After the loop has dropped the first `n` pairs, what is put makes the queue consistent again.
  settled-Inv :
      (n sequence now : ℕ) (d : Db bolt.Bucket) (b : bolt.Bucket)
      → d.meta.acked_sequence + n ≡ sequence
      → sequence < d.meta.next_sequence
      → Inv bolt codec s d
      → bolt.pairs b ≡ drop n (bolt.pairs d.events)
      → Inv bolt codec s (
          settled bolt codec s sequence now
            (b, size (drop n (bolt.pairs d.events)), length (drop n (bolt.pairs d.events)))
            d)
  settled-Inv n sequence now d b e lt i walk =
      let ps = bolt.pairs d.events in
      let kept =
        Consecutive-drop codec n (suc d.meta.acked_sequence) ps (omega arith) i.consecutive in
      record {
        consecutive = rw walk (subst (λ m. Consecutive codec m (drop n ps)) (omega arith) kept);
        next_exact = rw walk (omega (arith, length-drop n ps));
        bytes_exact = rw walk;
        events_exact = rw walk;
        bytes_bounded = omega (arith, size-drop n ps);
        events_bounded = omega (arith, length-drop n ps);
        next_bounded = i.next_bounded;
      }

  -- An acknowledgement of a pending event succeeds: the queue then starts behind that event, and
  -- is consistent.
  pub acknowledge_drops :
      (stream_id : Bytes) (sequence now : ℕ) (d : Db bolt.Bucket)
      → Inv bolt codec s d
      → stream_id ≡ d.meta.stream_id
      → d.meta.acked_sequence ≤ sequence
      → sequence < d.meta.next_sequence
      → let (r, d') = acknowledge bolt codec s stream_id sequence now d in
        (r ≡ ok tt)
        × (d'.meta.acked_sequence ≡ sequence)
        × (d'.meta.next_sequence ≡ d.meta.next_sequence)
        × (bolt.pairs d'.events ≡ drop (sequence - d.meta.acked_sequence) (bolt.pairs d.events))
        × Inv bolt codec s d'
  acknowledge_drops stream_id sequence now d i same le lt =
      let n = sequence - d.meta.acked_sequence in
      let e : d.meta.acked_sequence + n ≡ sequence = omega arith in
      go (
        drop_acked-eq n sequence (suc d.meta.acked_sequence) (bolt.pairs d.events) d.events
          (omega arith) (omega arith) (omega arith) i.consecutive refl)
    where
      go :
          (b : bolt.Bucket) × (drop_acked bolt codec s sequence
                (bolt.pairs d.events)
                d.events
                (size (bolt.pairs d.events))
                (length (bolt.pairs d.events))
              ≡ ok (
                b,
                size (drop (sequence - d.meta.acked_sequence) (bolt.pairs d.events)),
                length (drop (sequence - d.meta.acked_sequence) (bolt.pairs d.events)),
              ))
            × (bolt.pairs b ≡ drop (sequence - d.meta.acked_sequence) (bolt.pairs d.events))
          → let (r, d') = acknowledge bolt codec s stream_id sequence now d in
            (r ≡ ok tt)
            × (d'.meta.acked_sequence ≡ sequence)
            × (d'.meta.next_sequence ≡ d.meta.next_sequence)
            × (bolt.pairs d'.events ≡ drop (sequence - d.meta.acked_sequence) (bolt.pairs d.events))
            × Inv bolt codec s d'
      go (b, run, walk) =
          let n = sequence - d.meta.acked_sequence in
          let ps = bolt.pairs d.events in
          rw
            (acknowledge-settled stream_id sequence now d (b, size (drop n ps), length (drop n ps))
              same le lt (rw (i.bytes_exact, i.events_exact) run))
            (refl, refl, refl, walk, settled-Inv n sequence now d b (omega arith) lt i walk)

  -- An acknowledgement that is not of a pending event changes nothing: one for another stream and
  -- one past the last assigned sequence are errors, and an old one is accepted.
  pub acknowledge_else :
      (stream_id : Bytes) (sequence now : ℕ) (d : Db bolt.Bucket)
      → (stream_id ≢ d.meta.stream_id
          → acknowledge bolt codec s stream_id sequence now d ≡ (err stream_mismatch, d))
        × (stream_id ≡ d.meta.stream_id
            → d.meta.next_sequence ≤ sequence
            → acknowledge bolt codec s stream_id sequence now d ≡ (err ack_ahead, d))
        × (stream_id ≡ d.meta.stream_id
            → sequence < d.meta.next_sequence
            → sequence < d.meta.acked_sequence
            → acknowledge bolt codec s stream_id sequence now d ≡ (ok tt, d))
  unfolding acknowledge
  acknowledge_else stream_id sequence now d = (
    λ e. ground (arith, bytes_eq_iff stream_id d.meta.stream_id),
    λ e h. ground (arith, bytes_eq_iff stream_id d.meta.stream_id),
    λ e h g. ground (arith, bytes_eq_iff stream_id d.meta.stream_id),
  )

  -- Whatever is acknowledged, the queue stays consistent, and the loop meets no inconsistency.
  pub acknowledge-Inv :
      (stream_id : Bytes) (sequence now : ℕ) (d : Db bolt.Bucket)
      → Inv bolt codec s d
      → Inv bolt codec s (acknowledge bolt codec s stream_id sequence now d).1
        × ((acknowledge bolt codec s stream_id sequence now d).0 ≢ err inconsistent)
  acknowledge-Inv stream_id sequence now d i =
      let (mismatch, ahead, old) = acknowledge_else stream_id sequence now d in
      elim (Bool-cases (bytes_eq stream_id d.meta.stream_id)) [
        | inr ne ↦
            rw (mismatch (λ e. cc (ne, (bytes_eq_iff stream_id d.meta.stream_id).1 e))) (i, λ e. cc)
        | inl eq' ↦
            let same = (bytes_eq_iff stream_id d.meta.stream_id).0 eq' in
            elim (dec_lt sequence d.meta.next_sequence) [
              | no ge ↦ rw (ahead same (omega arith)) (i, λ e. cc)
              | yes lt ↦ elim (dec_lt sequence d.meta.acked_sequence) [
                | yes stale ↦ rw (old same lt stale) (i, λ e. cc)
                | no le ↦
                    let (r, _, _, _, i') =
                      acknowledge_drops stream_id sequence now d i same (omega arith) lt in
                    (i', λ e. cc (r, e))
              ]
            ]
      ]
