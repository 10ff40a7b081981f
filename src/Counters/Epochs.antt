-- ===== src/Counters/Epochs.antt =====
-- The order of the counters of a user, from one collection to the next.
use xui_agent.Prelude.{
  ◌+◌, ◌%◌, ◌≤◌, ◌<◌, ◌≡◌, ◌⊎◌, ◌∙◌, arith, true, some, List, [], ◌∷◌, length, All, All-map, inl,
  inr, String, str_eq, str_eq_refl,
}
use xui_agent.Spool.Bytes.{u64}
use xui_agent.Spool.Types.{TrafficCounter}
use xui_agent.Counters.{TrafficPair, next_epoch, next_counter, collect_all}

-- A counter of a later epoch, or of the same one with amounts that are not smaller.
abbrev pub NotBehind : TrafficCounter → TrafficCounter → Type 0
NotBehind c d =
    (c.counter_epoch < d.counter_epoch)
    ⊎ ((c.counter_epoch ≡ d.counter_epoch)
        × ((c.up_bytes ≤ d.up_bytes) × (c.down_bytes ≤ d.down_bytes)))

NotBehind-trans : (c d e : TrafficCounter) → NotBehind c d → NotBehind d e → NotBehind c e
NotBehind-trans c d e (inl x) (inl y) = inl (omega arith)
NotBehind-trans c d e (inl x) (inr y) = let same = y.0 in inl (omega arith)
NotBehind-trans c d e (inr x) (inl y) = let same = x.0 in inl (omega arith)
NotBehind-trans c d e (inr x) (inr y) =
    inr (x.0 ∙ y.0, (omega (arith, x.1.0, y.1.0), omega (arith, x.1.1, y.1.1)))

module _ (runtime : String) where
  next_epoch-Behind :
      (p : TrafficCounter) (v : TrafficPair)
      → str_eq p.runtime_id runtime ≡ true
      → p.counter_epoch + 1 < u64
      → ((p.counter_epoch < next_epoch runtime (some p) v)
          ⊎ ((p.counter_epoch ≡ next_epoch runtime (some p) v)
              × ((p.up_bytes ≤ v.up) × (p.down_bytes ≤ v.down))))
        × (next_epoch runtime (some p) v ≤ p.counter_epoch + 1)
  unfolding next_epoch
  next_epoch-Behind p v same fits =
      let small : (p.counter_epoch + 1) % u64 ≡ p.counter_epoch + 1 = omega arith in ground arith

  next_counter-NotBehind :
      (p : TrafficCounter) (v : TrafficPair)
      → str_eq p.runtime_id runtime ≡ true
      → p.counter_epoch + 1 < u64
      → NotBehind p (next_counter runtime (some p) v)
  unfolding next_counter
  next_counter-NotBehind p v same fits = (next_epoch-Behind p v same fits).0

  -- Let the queue hold a counter of this run of Xray, with an epoch that leaves room for the collections.
  -- Whatever Xray then reports, each later counter is not behind it: its epoch is later, or it is the same
  -- and no amount is smaller.
  pub collect_all-NotBehind :
      (p : TrafficCounter) (vs : List TrafficPair)
      → str_eq p.runtime_id runtime ≡ true
      → p.counter_epoch + length vs < u64
      → All (NotBehind p) (collect_all runtime (some p) vs)
  unfolding collect_all next_counter
  collect_all-NotBehind p [] same fits = tt
  collect_all-NotBehind p (v ∷ vs) same fits =
      let next = next_counter runtime (some p) v in
      let one : p.counter_epoch + 1 < u64 = omega arith in
      let step = next_counter-NotBehind p v same one in
      let near = (next_epoch-Behind p v same one).1 in
      let here : str_eq runtime runtime ≡ true = str_eq_refl runtime in
      let rest = collect_all-NotBehind next vs here (omega arith) in
      (step, All-map (λ d. NotBehind-trans p next d step) (collect_all runtime (some next) vs) rest)
