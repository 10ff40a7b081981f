-- ===== src/Tests/XrayRuns.antt =====
-- Runs of `Apply` and `Recover`, and the theorems about them at a concrete disk.
use xui_agent.Prelude.{arith, ◌≡◌, ◌⊎◌, inl, inr, refl, true, none, some, [], ◌∷◌}
use xui_agent.Spool.Bytes.{bytes_eq}
use xui_agent.Xray.Target.{version_target, validate_target, target_metadata}
use xui_agent.Xray.Target.RoundTrip.{target_metadata-version_target, is_hex-lower}
use xui_agent.Xray.Disk.{holds, AppliedState, Disk, find_version}
use xui_agent.Xray.Digits.{all_bytes, to_lower, padded, is_hex}
use xui_agent.Xray.Validate.{valid_request, clean_request, clean_digest, is_space}
use xui_agent.Xray.Files.{valid_applied, has_metadata}
use xui_agent.Xray.Apply.{apply, recover}
use xui_agent.Xray.Upgrade.{IsUpgrade, upgrade_pending, Settled, Live, Safe, midway, Concluded}
use xui_agent.Xray.Upgrade.Versions.{bytes_eq_refl, bytes_eq_sym}
use xui_agent.Xray.Upgrade.Safety.{requested, apply-Safe, request-IsUpgrade, has_metadata-intro}
use xui_agent.Xray.Upgrade.Recovery.{recover-Safe}
use xui_agent.Tests.XrayModel.{
  toy_digest, toy_digest-IsDigest, toy_env, old_config, new_config, old_state, old_file, new_file,
  new_request, old_disk, undisturbed,
}
use xui_agent.Io.{World, Meets}

target_metadata-version_target_example :
    (validate_target (version_target 1 (toy_digest old_config)) ≡ true)
    × (target_metadata (version_target 1 (toy_digest old_config)) ≡ some (1, toy_digest old_config))
target_metadata-version_target_example =
    target_metadata-version_target 1 (toy_digest old_config) (omega arith) (omega arith)
      (toy_digest-IsDigest old_config)

pub old_named : has_metadata old_state.target 1 (toy_digest old_config) ≡ true
old_named =
    has_metadata-intro old_state.target 1 (toy_digest old_config)
      target_metadata-version_target_example.1

pub old_valid : valid_applied old_state ≡ true
unfolding valid_applied
old_valid = ground (
  arith,
  target_metadata-version_target_example.0,
  (toy_digest-IsDigest old_config).0,
  is_hex-lower (toy_digest old_config) (toy_digest-IsDigest old_config).1,
)

found_old : find_version old_state.target old_disk.versions ≡ some old_file
unfolding find_version
found_old = ground (arith, bytes_eq_refl old_state.target)

pub old_Live : Live toy_env old_state old_disk
old_Live = record {
  settled = record {
    no_pending = refl;
    linked = refl;
    recorded = refl;
    intact = record {
      file = old_file;
      found = found_old;
      is_regular = refl;
      digest = bytes_eq_refl (toy_digest old_config);
    };
  };
  serves = refl;
}

apply-Safe_example :
    Meets
      (Concluded toy_env old_state (requested toy_env new_request) 1000)
      (λ _. Safe toy_env old_state (requested toy_env new_request) 1000)
      (Safe toy_env old_state (requested toy_env new_request) 1000)
      (apply toy_env new_request undisturbed).0
      (apply toy_env new_request undisturbed).1.state
apply-Safe_example =
    apply-Safe toy_env old_state new_request undisturbed old_valid old_named (omega arith)
      (omega arith) (omega arith) old_Live

new_valid : valid_request toy_env (clean_request new_request) ≡ true
unfolding valid_request clean_request all_bytes clean_digest to_lower padded is_space is_hex
    bytes_eq
new_valid = refl

abbrev new_state : AppliedState
new_state = requested toy_env new_request

is_upgrade : IsUpgrade old_state new_state 1000
is_upgrade =
    request-IsUpgrade toy_env old_state new_request old_valid old_named (omega arith) (omega arith)
      (omega arith) new_valid

new_digest : bytes_eq (toy_digest new_config) new_state.config_digest ≡ true
unfolding clean_request all_bytes clean_digest to_lower padded is_space is_hex bytes_eq
new_digest = refl

-- The process was killed behind the switch of the link.
abbrev interrupted : Disk
interrupted = record old_disk {
  current = some new_state.target;
  previous = some old_state.target;
  pending = holds (upgrade_pending old_state new_state 1000);
  versions = (old_state.target, old_file) ∷ (new_state.target, new_file) ∷ [];
  running = none;
}

found_new : find_version new_state.target interrupted.versions ≡ some new_file
unfolding find_version
found_new = ground (
  arith,
  bytes_eq_refl new_state.target,
  bytes_eq_sym new_state.target old_state.target is_upgrade.other_target,
)

interrupted-Safe : Safe toy_env old_state new_state 1000 interrupted
unfolding find_version
interrupted-Safe = midway (record {
  is_pending = refl;
  link = inr refl;
  state = inl refl;
  old_intact = record {
    file = old_file;
    found = ground (arith, bytes_eq_refl old_state.target);
    is_regular = refl;
    digest = bytes_eq_refl (toy_digest old_config);
  };
  new_intact = record {
    file = new_file;
    found = found_new;
    is_regular = refl;
    digest = new_digest;
  };
})

abbrev restarted : World Disk
restarted = record { faults = []; state = interrupted }

recover-Safe_example :
    Meets
      (λ _ s. Settled toy_env old_state s ⊎ Settled toy_env new_state s)
      (λ _. Safe toy_env old_state new_state 1000)
      (Safe toy_env old_state new_state 1000)
      (recover toy_env restarted).0
      (recover toy_env restarted).1.state
recover-Safe_example =
    recover-Safe toy_env old_state new_state 1000 restarted refl is_upgrade interrupted-Safe
