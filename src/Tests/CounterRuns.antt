-- ===== src/Tests/CounterRuns.antt =====
-- A counter that goes back: an instance of the theorem of Counters.Epochs.
use xui_agent.Prelude.{refl, some, List, [], ◌∷◌, All, arith}
use xui_agent.Spool.Types.{TrafficCounter}
use xui_agent.Counters.{TrafficPair, collect_all}
use xui_agent.Counters.Epochs.{NotBehind, collect_all-NotBehind}

abbrev stored : TrafficCounter
stored = record { runtime_id = "1700000000"; up_bytes = 100; down_bytes = 20; counter_epoch = 0 }

abbrev reported : List TrafficPair
reported = record { up = 150; down = 20 } ∷ record { up = 10; down = 0 } ∷ []

collect_all-NotBehind_example :
    All (NotBehind stored) (collect_all "1700000000" (some stored) reported)
collect_all-NotBehind_example =
    collect_all-NotBehind "1700000000" stored reported refl (omega arith)
