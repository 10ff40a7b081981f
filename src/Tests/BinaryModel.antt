-- ===== src/Tests/BinaryModel.antt =====
-- A bundle that is applied, and the release of another one.
use xui_agent.Prelude.{ℕ, true, none, some, List, [], ◌∷◌}
use xui_agent.Spool.Bytes.{Bytes}
use xui_agent.Tests.XrayModel.{toy_digest, toy_digest-IsDigest}
use xui_agent.Binary.Manifest.{Entry, xray_name, geoip_name, geosite_name, license_name}
use xui_agent.Binary.Disk.{missing, holds, AppliedState, BundleState, BundleFile, Bundle, Disk, Env}
use xui_agent.Binary.Bundle.{bundle_target}
use xui_agent.Binary.Upgrade.{update_pending}
use xui_agent.Io.{World}

abbrev pub binary_env : Env
binary_env = record {
  sha256_hex = toy_digest;
  sha256_hex-IsDigest = toy_digest-IsDigest;
  applied_config = holds tt;
  reports_version = λ _ _. true;
  accepts_config = λ _. true;
  now = 1000;
}

abbrev pub old_version : Bytes
old_version = b'v' ∷ b'1' ∷ []

abbrev pub new_version : Bytes
new_version = b'v' ∷ b'2' ∷ []

abbrev pub command_id : Bytes
command_id = b'c' ∷ []

abbrev pub old_digest : Bytes
old_digest = toy_digest (1 ∷ [])

abbrev pub new_digest : Bytes
new_digest = toy_digest (1 ∷ 2 ∷ [])

abbrev pub old_applied : AppliedState
old_applied = record {
  version = old_version;
  xray_version = old_version;
  archive_digest = old_digest;
  target = bundle_target old_version old_digest;
  applied_at = 500;
}

abbrev pub state_of : Bytes → Bytes → BundleState
state_of version digest = record {
  version = version;
  xray_version = version;
  archive_digest = digest;
  digests =
      (xray_name, toy_digest (1 ∷ []))
      ∷ (geoip_name, toy_digest (1 ∷ []))
      ∷ (geosite_name, toy_digest (1 ∷ []))
      ∷ [];
}

abbrev pub file_of : ℕ → BundleFile
file_of mode = record { content = 1 ∷ []; regular = true; mode = mode }

abbrev pub bundle_of : Bytes → Bytes → Bundle
bundle_of version digest = record {
  secure = true;
  state = holds (state_of version digest);
  files = (xray_name, file_of 448) ∷ (geoip_name, file_of 384) ∷ (geosite_name, file_of 384) ∷ [];
  mod_time = 500;
}

abbrev pub binary_disk : Disk
binary_disk = record {
  current = some old_applied.target;
  previous = none;
  applied = holds old_applied;
  pending = missing;
  failure = missing;
  versions = (old_applied.target, bundle_of old_version old_digest) ∷ [];
  running = some old_applied.target;
}

-- The process was killed behind the switch of the link.
abbrev pub interrupted_disk : AppliedState → Disk
interrupted_disk n = record binary_disk {
  current = some n.target;
  pending = holds (update_pending binary_env command_id old_applied n);
  versions =
      (old_applied.target, bundle_of old_version old_digest)
      ∷ (n.target, bundle_of new_version new_digest)
      ∷ [];
  running = none;
}

abbrev pub entry_of : Bytes → Entry
entry_of name = record { name = name; regular = true; size = 1; content = 1 ∷ [] }

abbrev pub new_entries : List Entry
new_entries =
    entry_of xray_name ∷ entry_of geoip_name ∷ entry_of license_name ∷ entry_of geosite_name ∷ []

abbrev pub binary_world : World Disk
binary_world = record { faults = []; state = binary_disk }
