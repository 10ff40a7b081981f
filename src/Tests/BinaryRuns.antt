-- ===== src/Tests/BinaryRuns.antt =====
-- Runs of the model of internal/xrayupdate on concrete inputs, and instances of its theorems.
use xui_agent.Prelude.{ℕ, ◌≡◌, ◌↔◌, ◌⊎◌, refl, true, some, List, [], All, inl, ok}
use xui_agent.Spool.Bytes.{Bytes, bytes_eq}
use xui_agent.Xray.Digits.{is_hex, all_bytes, padded}
use xui_agent.Xray.Target.{validate_target, target_name, after_prefix, contains}
use xui_agent.Release.{valid_token}
use xui_agent.Retention.{member}
use xui_agent.Tests.BinaryModel.{
  binary_env, old_version, new_version, command_id, old_digest, new_digest, old_applied, state_of,
  bundle_of, file_of, interrupted_disk, binary_disk, new_entries, binary_world,
}
use xui_agent.Binary.Manifest.{
  xray_name, geoip_name, geosite_name, required_files, valid_version, entry_limit, validate_archive,
  check_entries, all_seen,
}
use xui_agent.Binary.Disk.{AppliedState, Bundle, Disk, find_version}
use xui_agent.Binary.Bundle.{secure_file, valid_bundle_state, bundle_target}
use xui_agent.Binary.Files.{valid_applied}
use xui_agent.Binary.Manifest.Accepted.{IsArchive, validate_archive-IsArchive}
use xui_agent.Binary.Install.{install_archive, applied_of, recover}
use xui_agent.Binary.Upgrade.{
  IsListed, IsIntact, IsUpdate, Settled, new_link, Safe, midway, Concluded,
}
use xui_agent.Binary.Upgrade.Safety.{install_archive-Safe}
use xui_agent.Binary.Upgrade.Recovery.{recover_update-Safe}
use xui_agent.Io.{World, Meets}

accepted : validate_archive new_entries ≡ ok tt
unfolding validate_archive check_entries all_seen member find_version bytes_eq
accepted = refl

abbrev new_applied : AppliedState
new_applied =
    applied_of binary_env new_version new_version new_digest (bundle_target new_version new_digest)

is_update : IsUpdate command_id old_applied new_applied
unfolding valid_applied valid_version valid_token all_bytes is_hex padded validate_target
    target_name after_prefix contains bytes_eq
is_update = record { named = refl; valid_old = refl; valid_new = refl; other_target = refl }

file_of-IsListed :
    (version digest name : Bytes) (mode : ℕ)
    → find_version name (state_of version digest).digests ≡ some old_digest
    → find_version name (bundle_of version digest).files ≡ some (file_of mode)
    → secure_file binary_env name (file_of mode) ≡ true
    → IsListed binary_env (bundle_of version digest) (state_of version digest) name
unfolding bytes_eq padded
file_of-IsListed version digest name mode recorded there secure = record {
  want = old_digest;
  recorded = recorded;
  long = refl;
  verified = record { file = file_of mode; there = there; secure = secure; digest = refl };
}

bundle_of-IsListed :
    (version digest : Bytes)
    → All (IsListed binary_env (bundle_of version digest) (state_of version digest)) required_files
unfolding find_version bytes_eq secure_file entry_limit
bundle_of-IsListed version digest = (
  file_of-IsListed version digest xray_name 448 refl refl refl,
  (
    file_of-IsListed version digest geoip_name 384 refl refl refl,
    (file_of-IsListed version digest geosite_name 384 refl refl refl, tt),
  ),
)

old_whole :
    (versions : List (Bytes × Bundle))
    → find_version old_applied.target versions ≡ some (bundle_of old_version old_digest)
    → IsIntact binary_env old_applied versions
unfolding bytes_eq valid_bundle_state valid_version valid_token all_bytes is_hex padded
old_whole versions found = record {
  state = state_of old_version old_digest;
  is_bundle = record {
    bundle = bundle_of old_version old_digest;
    found = found;
    is_secure = refl;
    stored = refl;
    valid = refl;
    complete = bundle_of-IsListed old_version old_digest;
  };
  same = refl;
}

old-IsIntact : IsIntact binary_env old_applied binary_disk.versions
unfolding find_version bytes_eq padded
old-IsIntact = old_whole binary_disk.versions refl

still-IsIntact : IsIntact binary_env old_applied (interrupted_disk new_applied).versions
unfolding find_version bytes_eq padded
still-IsIntact = old_whole (interrupted_disk new_applied).versions refl

new-IsIntact : IsIntact binary_env new_applied (interrupted_disk new_applied).versions
unfolding find_version bytes_eq valid_bundle_state valid_version valid_token all_bytes is_hex padded
new-IsIntact = record {
  state = state_of new_version new_digest;
  is_bundle = record {
    bundle = bundle_of new_version new_digest;
    found = refl;
    is_secure = refl;
    stored = refl;
    valid = refl;
    complete = bundle_of-IsListed new_version new_digest;
  };
  same = refl;
}

interrupted_Safe : Safe binary_env command_id old_applied new_applied (interrupted_disk new_applied)
interrupted_Safe = midway (record {
  is_pending = refl;
  link = new_link refl;
  state = inl refl;
  old_intact = still-IsIntact;
  new_intact = new-IsIntact;
})

abbrev interrupted_world : World Disk
interrupted_world = record { faults = []; state = interrupted_disk new_applied }

old_Settled : Settled binary_env old_applied binary_disk
old_Settled = record { no_pending = refl; linked = refl; recorded = refl; intact = old-IsIntact }

install_archive-Safe_example :
    Meets
      (Concluded binary_env command_id old_applied new_applied)
      (λ _. Safe binary_env command_id old_applied new_applied)
      (Safe binary_env command_id old_applied new_applied)
      (install_archive binary_env command_id new_version new_version new_digest true new_entries
        binary_world).0
      (install_archive binary_env command_id new_version new_version new_digest true new_entries
        binary_world).1.state
install_archive-Safe_example =
    install_archive-Safe binary_env command_id new_version new_version new_digest true new_entries
      old_applied binary_world is_update old_Settled

recover_update-Safe_example :
    Meets
      (λ _ s. Settled binary_env old_applied s ⊎ Settled binary_env new_applied s)
      (λ _. Safe binary_env command_id old_applied new_applied)
      (Safe binary_env command_id old_applied new_applied)
      (recover binary_env interrupted_world).0
      (recover binary_env interrupted_world).1.state
recover_update-Safe_example =
    recover_update-Safe binary_env command_id old_applied new_applied interrupted_world is_update
      interrupted_Safe

validate_archive-IsArchive_example : (validate_archive new_entries ≡ ok tt) ↔ IsArchive new_entries
validate_archive-IsArchive_example = validate_archive-IsArchive new_entries
