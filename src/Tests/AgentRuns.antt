-- ===== src/Tests/AgentRuns.antt =====
-- A managed agent that is asked for a newer configuration: an instance of the theorems of Agent.
use xui_agent.Prelude.{arith, ◌≡◌, refl, true, false, none, some, [], ◌∷◌, All}
use xui_agent.Tests.XrayModel.{toy_env, old_state, new_request, old_disk}
use xui_agent.Tests.XrayRuns.{old_valid, old_named, old_Live}
use xui_agent.Tests.BinaryModel.{binary_env, binary_disk}
use xui_agent.Tests.UpdateRuns.{agent_env, agent_disk}
use xui_agent.Xray.Upgrade.{Safe}
use xui_agent.Xray.Upgrade.Safety.{requested}
use xui_agent.Io.{World, Meets}
use xui_agent.Agent.Machine.{Machine, Setting, Command, apply_config}
use xui_agent.Agent.Commands.{execute_command}
use xui_agent.Agent.Answers.{Answered, execute_command-Answered}
use xui_agent.Agent.Session.{
  Envelope, Round, hello_ack, heartbeat_ack, Ran, Acknowledged, run_session, run_session-Quiet,
}
use xui_agent.Agent.Applies.{Applies, execute_command-Applies}

abbrev setting : Setting
setting = record {
  managed = true;
  config_env = toy_env;
  binary_env = binary_env;
  agent_env = agent_env;
  releases = record { goos = []; goarch = []; manifest_of = λ _. none; archive_of = λ _ _. none };
  agent_releases = record {
    goos = [];
    goarch = [];
    manifest_of = λ _. none;
    archive_of = λ _ _. none;
    installed_assets = none;
  };
  version = b'v' ∷ [];
  now = 2000;
  collects_events = false;
}

abbrev machine : Machine
machine = record { config = old_disk; binary = binary_disk; agent = agent_disk }

abbrev command : Command
command = record {
  id = b'c' ∷ [];
  kind = apply_config;
  issued_at = 1990;
  expires_at = 2100;
  config_payload = some new_request;
  version_payload = none;
}

abbrev machine_world : World Machine
machine_world = record { faults = []; state = machine }

execute_command-Answered_example :
    Meets
      (Answered setting command machine)
      (λ _ _. ⊥)
      (λ _. Unit {0})
      (execute_command setting command machine_world).0
      (execute_command setting command machine_world).1.state
execute_command-Answered_example = execute_command-Answered setting command machine_world

execute_command-Applies_example :
    Meets
      (λ x s.
        Applies setting old_state new_request x s.config
        × ((s.binary ≡ binary_disk) × (s.agent ≡ agent_disk)))
      (λ _ _. ⊥)
      (λ s.
        Safe toy_env old_state (requested toy_env new_request) 1000 s.config
        × ((s.binary ≡ binary_disk) × (s.agent ≡ agent_disk)))
      (execute_command setting command machine_world).0
      (execute_command setting command machine_world).1.state
execute_command-Applies_example =
    execute_command-Applies setting old_state new_request command machine_world old_valid old_named
      (omega arith) (omega arith) (omega arith) refl refl refl refl refl old_Live

abbrev hello : Envelope
hello = record {
  same_version = true;
  kind = hello_ack;
  hello = some 30;
  ack = none;
  result_ack = none;
}

-- The acknowledgement brings the command; the one of its result is lost.
abbrev round : Round
round = record {
  sent = true;
  message_id = b'm' ∷ [];
  reply = some (record {
    same_version = true;
    kind = heartbeat_ack;
    hello = none;
    ack = some (b'm' ∷ [], some command);
    result_ack = none;
  });
  result_sent = true;
  result_reply = none;
  cancelled = false;
}

run_session-Quiet_example :
    Meets
      (Ran setting machine_world.state (All Acknowledged (round ∷ [])) true)
      (λ _ _. ⊥)
      (λ _. Unit {0})
      (run_session setting (some hello) (round ∷ []) true machine_world).0
      (run_session setting (some hello) (round ∷ []) true machine_world).1.state
run_session-Quiet_example = run_session-Quiet setting (some hello) (round ∷ []) true machine_world
