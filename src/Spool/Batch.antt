-- ===== src/Spool/Batch.antt =====
-- `Batch` of internal/eventspool/store.go: the longest run of queued events that fits the limits.
use native.Mathlib.Decide.{dec_lt}
use xui_agent.Prelude.{
  ℕ, zero, suc, ◌+◌, ◌≤◌, ◌<◌, ◌≡◌, refl, ◌⊎◌, inl, inr, Bool-cases, some, List, [], ◌∷◌, length,
  take, arith, ltb, ok, ◌&&◌,
}
use xui_agent.Spool.Bolt.{Bolt, Pair}
use xui_agent.Spool.Types.{Event, EventBatch, max_event_batch_events, max_event_expanded_bytes}
use xui_agent.Spool.Store.{Codec, Limits, Db, collect, batch, last_of, make_batch, clamp_limit}
use xui_agent.Spool.Invariant.{Consecutive, size, Inv}

-- The events are numbered `first`, `first + 1`, ….
abbrev pub Numbered : ℕ → List Event → Type 0
Numbered first [] = Unit
Numbered first (e ∷ es) = (e.sequence ≡ first) × Numbered (suc first) es

-- The events decode the first queued values, in order.
abbrev pub Decodes : Codec → List Pair → List Event → Type 0
Decodes codec ps [] = Unit
Decodes codec [] (e ∷ es) = ⊥
Decodes codec ((k, v) ∷ ps) (e ∷ es) = (codec.decode v ≡ some e) × Decodes codec ps es

size-take_zero : (n : ℕ) (ps : List Pair) → n ≡ 0 → size (take n ps) ≡ 0
size-take_zero zero ps e = refl
size-take_zero (suc n) ps e = absurd (omega arith)

module _ (bolt : Bolt) (codec : Codec) (s : Limits) where
  -- What the loop takes from a consistent queue, with `count` events of `total` bytes taken before.
  pub record Taken (most_events most_bytes : ℕ) (ps : List Pair) (count total first : ℕ)
      (es : List Event) : Type 0 where
    pub decodes : Decodes codec ps es
    pub numbered : Numbered first es
    pub few : length es ≤ length ps
    pub count_bounded : (length es ≡ 0) ⊎ (count + length es ≤ most_events)
    pub bytes_bounded :
        (length es ≡ 0)
        ⊎ (total + size (take (length es) ps) ≤ most_bytes)
        ⊎ ((count ≡ 0) × (length es ≡ 1))
    -- It stops at the end of the queue or at a limit.
    pub maximal :
        (length es ≡ length ps)
        ⊎ (most_events ≤ count + length es)
        ⊎ ((0 < count + length es) × (most_bytes < total + size (take (suc (length es)) ps)))

  collect-Taken :
      (most_events most_bytes : ℕ) (ps : List Pair) (count total first : ℕ)
      → Consecutive codec first ps
      → (es : List Event) × (collect bolt codec s most_events most_bytes ps count total ≡ ok es)
        × Taken most_events most_bytes ps count total first es
  unfolding collect
  collect-Taken most_events most_bytes [] count total first c = (
    [],
    refl,
    record {
      decodes = tt;
      numbered = tt;
      few = omega arith;
      count_bounded = inl refl;
      bytes_bounded = inl refl;
      maximal = inl refl;
    },
  )
  collect-Taken most_events most_bytes ((k, v) ∷ ps) count total first c =
      let (e, decoded, number) = c.1 in
      let (es, run, t) =
        collect-Taken most_events most_bytes ps (count + 1) (total + length v) (suc first) c.2 in
      elim (dec_lt count most_events) [
        | no many ↦ (
          [],
          ground arith,
          record {
            decodes = tt;
            numbered = tt;
            few = omega arith;
            count_bounded = inl refl;
            bytes_bounded = inl refl;
            maximal = inr (inl (omega arith));
          },
        )
        | yes few ↦ elim (Bool-cases (ltb most_bytes (total + length v) && ltb 0 count)) [
          | inl full ↦ (
            [],
            ground arith,
            record {
              decodes = tt;
              numbered = tt;
              few = omega arith;
              count_bounded = inl refl;
              bytes_bounded = inl refl;
              maximal = inr (inr (ground arith, ground arith));
            },
          )
          | inr room ↦ (
            e ∷ es,
            ground (arith, run, decoded),
            record {
              decodes = (decoded, t.decodes);
              numbered = (number, t.numbered);
              few = omega (arith, t.few);
              count_bounded = ground (arith, t.count_bounded);
              bytes_bounded = ground (arith, t.bytes_bounded, size-take_zero (length es) ps);
              maximal = ground (arith, t.maximal);
            },
          )
        ]
      ]

last_of-sequence :
    (first : ℕ) (e : Event) (es : List Event)
    → Numbered first (e ∷ es)
    → (last_of e es).sequence ≡ first + length es
last_of-sequence first e [] h = omega arith
last_of-sequence first e (e' ∷ es) h = omega (arith, last_of-sequence (suc first) e' es h.1)

clamp_limit_bounds :
    (most n : ℕ) → 0 < most → (0 < clamp_limit most n) × (clamp_limit most n ≤ most)
clamp_limit_bounds most n h = ground arith

module _ (bolt : Bolt) (codec : Codec) (s : Limits) where
  -- What a batch promises of the queue that it was read from.
  pub record IsPrefix (most_events most_bytes : ℕ) (d : Db bolt.Bucket) (b : EventBatch)
      : Type 0 where
    pub named : b.stream_id ≡ d.meta.stream_id
    pub taken :
        Taken bolt codec s
          (clamp_limit max_event_batch_events most_events)
          (clamp_limit max_event_expanded_bytes most_bytes)
          (bolt.pairs d.events)
          0
          0
          (suc d.meta.acked_sequence)
          b.events
    pub progress : (length b.events ≡ 0) → (length (bolt.pairs d.events) ≡ 0)
    pub first_exact : 0 < length b.events → b.first_sequence ≡ suc d.meta.acked_sequence
    pub last_exact : 0 < length b.events → b.last_sequence ≡ d.meta.acked_sequence + length b.events

  make_batch-IsPrefix :
      (most_events most_bytes : ℕ) (d : Db bolt.Bucket) (es : List Event)
      → Taken bolt codec s
          (clamp_limit max_event_batch_events most_events)
          (clamp_limit max_event_expanded_bytes most_bytes)
          (bolt.pairs d.events)
          0
          0
          (suc d.meta.acked_sequence)
          es
      → IsPrefix most_events most_bytes d (make_batch d.meta.stream_id es)
  make_batch-IsPrefix most_events most_bytes d [] t = record {
    named = refl;
    taken = t;
    progress = λ z.
        ground
          (arith, t.maximal, clamp_limit_bounds max_event_batch_events most_events (omega arith));
    first_exact = λ h. absurd (omega arith);
    last_exact = λ h. absurd (omega arith);
  }
  make_batch-IsPrefix most_events most_bytes d (e ∷ es) t = record {
    named = refl;
    taken = t;
    progress = λ z. absurd (omega arith);
    first_exact = λ h. t.numbered.0;
    last_exact = λ h. omega (arith, last_of-sequence (suc d.meta.acked_sequence) e es t.numbered);
  }

  -- A batch of a consistent queue always succeeds, whatever limits are asked for. It holds the first
  -- queued events in order and nothing else, stops only at a limit or at the end of the queue, is
  -- empty only if the queue is, and names the sequences of its first and last event.
  pub batch-IsPrefix :
      (most_events most_bytes : ℕ) (d : Db bolt.Bucket)
      → Inv bolt codec s d
      → (b : EventBatch) × (batch bolt codec s most_events most_bytes d ≡ ok b)
        × IsPrefix most_events most_bytes d b
  unfolding batch
  batch-IsPrefix most_events most_bytes d i =
      let (es, run, t) =
        collect-Taken bolt codec s (clamp_limit max_event_batch_events most_events)
          (clamp_limit max_event_expanded_bytes most_bytes) (bolt.pairs d.events) 0 0
          (suc d.meta.acked_sequence) i.consecutive in
      (make_batch d.meta.stream_id es, rw run, make_batch-IsPrefix most_events most_bytes d es t)
