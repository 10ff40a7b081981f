-- ===== src/Spool/Invariant.antt =====
-- What holds of the queue's database between two transactions.
use mathlib.Core.Path.{subst}
use native.Mathlib.Nat.{add-zero}
use xui_agent.Prelude.{
  ℕ, suc, ◌+◌, ◌≤◌, ◌<◌, ◌≡◌, true, some, List, [], ◌∷◌, ◌++◌, length, All, arith,
}
use xui_agent.Spool.Bytes.{u64, bytes_lt, sequence_key, sequence_key-lt}
use xui_agent.Spool.Bolt.{Bolt, Pair}
use xui_agent.Spool.Types.{Event, max_event_bytes}
use xui_agent.Spool.Store.{Codec, Limits, Db}

-- The bytes that the queued values take.
abbrev pub size : List Pair → ℕ
size [] = 0
size ((k, v) ∷ rest) = length v + size rest

module _ (codec : Codec) where
  -- The pairs are the events `first`, `first + 1`, … in order, each under the key of its sequence.
  abbrev pub Consecutive : ℕ → List Pair → Type 0
  Consecutive first [] = Unit
  Consecutive first ((k, v) ∷ rest) =
      (k ≡ sequence_key first)
      × ((e : Event) × (codec.decode v ≡ some e) × (e.sequence ≡ first))
      × Consecutive (suc first) rest

  pub Consecutive-append :
      (first : ℕ) (ps qs : List Pair)
      → Consecutive first ps
      → Consecutive (first + length ps) qs
      → Consecutive first (ps ++ qs)
  Consecutive-append first [] qs h k = subst (λ n. Consecutive n qs) (add-zero first) k
  Consecutive-append first ((key, v) ∷ ps) qs h k = (
    h.0,
    h.1,
    Consecutive-append (suc first) ps qs h.2 (subst (λ n. Consecutive n qs) (omega arith) k),
  )

  -- A new sequence has a key behind all that are queued.
  pub Consecutive-bytes_lt :
      (first : ℕ) (ps : List Pair) (n : ℕ)
      → Consecutive first ps
      → first + length ps ≤ n
      → n < u64
      → All (λ (p : Pair). bytes_lt p.0 (sequence_key n) ≡ true) ps
  Consecutive-bytes_lt first [] n h le lt = tt
  Consecutive-bytes_lt first ((k, v) ∷ ps) n h le lt = (
    rw h.0 (sequence_key-lt first n (omega arith) lt),
    Consecutive-bytes_lt (suc first) ps n h.2 (omega arith) lt,
  )

pub size-append : (ps qs : List Pair) → size (ps ++ qs) ≡ size ps + size qs
size-append [] qs = omega arith
size-append ((k, v) ∷ ps) qs = omega (arith, size-append ps qs)

-- The limits leave room for one more event in 64 bits, as internal/config makes sure of.
abbrev pub FitsWord : Limits → Type 0
FitsWord s = s.max_bytes + max_event_bytes < u64

module _ (bolt : Bolt) (codec : Codec) (s : Limits) where
  -- The queue holds exactly the events behind the acknowledged one, and is counted exactly.
  pub record Inv (d : Db bolt.Bucket) : Type 0 where
    pub consecutive : Consecutive codec (suc d.meta.acked_sequence) (bolt.pairs d.events)
    pub next_exact :
        d.meta.next_sequence ≡ suc (d.meta.acked_sequence + length (bolt.pairs d.events))
    pub bytes_exact : d.meta.pending_bytes ≡ size (bolt.pairs d.events)
    pub events_exact : d.meta.pending_events ≡ length (bolt.pairs d.events)
    pub bytes_bounded : d.meta.pending_bytes ≤ s.max_bytes
    pub events_bounded : d.meta.pending_events ≤ s.max_events
    pub next_bounded : d.meta.next_sequence < u64
