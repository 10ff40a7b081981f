-- ===== src/Counters.antt =====
-- The epochs of the traffic counters that internal/telemetry/xray.go collects.
pub mod Epochs
use xui_agent.Prelude.{
  ℕ, suc, ◌+◌, ◌-◌, ◌*◌, ◌^◌, ◌%◌, Bool, true, false, ◌&&◌, ◌||◌, not, Option, none, some, List, [],
  ◌∷◌, ◌++◌, length, take, String, str_eq, ltb, leb, ◌==◌, if◌then◌else◌,
}
use xui_agent.Spool.Bytes.{Bytes, u64}
use xui_agent.Spool.Types.{TrafficCounter}

pub record TrafficPair : Type 0 where
  pub up : ℕ
  pub down : ℕ

-- The epoch of a user's counters, from what the queue has stored for the user. A counter that went back
-- in one run of Xray begins another epoch.
unfoldable pub next_epoch : String → Option TrafficCounter → TrafficPair → ℕ
next_epoch runtime none values = 0
next_epoch runtime (some p) values =
    if str_eq p.runtime_id runtime
    then if ltb values.up p.up_bytes || ltb values.down p.down_bytes
      then (p.counter_epoch + 1) % u64
      else p.counter_epoch
    else 0

-- What `collectTraffic` stores for a user.
unfoldable pub next_counter : String → Option TrafficCounter → TrafficPair → TrafficCounter
unfolding next_epoch
next_counter runtime previous values = record {
  runtime_id = runtime;
  up_bytes = values.up;
  down_bytes = values.down;
  counter_epoch = next_epoch runtime previous values;
}

-- The counters that are stored, one collection after the other.
unfoldable pub collect_all : String → Option TrafficCounter → List TrafficPair → List TrafficCounter
unfolding next_counter
collect_all runtime previous [] = []
collect_all runtime previous (v ∷ vs) =
    next_counter runtime previous v
    ∷ collect_all runtime (some (next_counter runtime previous v)) vs
