-- ===== src/Tests/XrayModel.antt =====
-- A configuration that is applied, a newer one that is requested, and a world in which both are valid.
use xui_agent.Prelude.{arith, ◌%◌, ◌≡◌, refl, true, none, some, [], ◌∷◌, length}
use xui_agent.Spool.Bytes.{Bytes}
use xui_agent.Xray.Digits.{is_digit, all_bytes, padded, length-padded, padded-is_digit}
use xui_agent.Xray.Target.{version_target}
use xui_agent.Xray.Target.RoundTrip.{IsDigest, is_lower_hex}
use xui_agent.Xray.Disk.{missing, holds, Request, AppliedState, VersionFile, Disk, Env}
use xui_agent.Io.{World}

lower_hex-digits : (a : Bytes) → all_bytes is_digit a ≡ true → all_bytes is_lower_hex a ≡ true
unfolding all_bytes is_digit is_lower_hex
lower_hex-digits [] h = refl
lower_hex-digits (c ∷ a) h = ground (arith, lower_hex-digits a)

abbrev pub toy_digest : Bytes → Bytes
toy_digest raw = padded 64 (length raw % 10)

pub toy_digest-IsDigest : (raw : Bytes) → IsDigest (toy_digest raw)
toy_digest-IsDigest raw = (
  length-padded 64 (length raw % 10),
  lower_hex-digits (toy_digest raw) (padded-is_digit 64 (length raw % 10) (omega arith)),
)

abbrev pub toy_env : Env
toy_env = record {
  enabled = true;
  sha256_hex = toy_digest;
  sha256_hex-IsDigest = toy_digest-IsDigest;
  valid_json = λ _. true;
  accepts = λ _. true;
  now = 1000;
  stamp = b'7' ∷ [];
}

abbrev pub old_config : Bytes
old_config = b'{' ∷ b' ' ∷ b'}' ∷ []

abbrev pub new_config : Bytes
new_config = b'{' ∷ b'}' ∷ []

abbrev pub old_state : AppliedState
old_state = record {
  config_version = 1;
  config_digest = toy_digest old_config;
  target = version_target 1 (toy_digest old_config);
  applied_at = 500;
}

abbrev pub old_file : VersionFile
old_file = record { content = old_config; regular = true; mod_time = 500 }

abbrev pub new_file : VersionFile
new_file = record { content = new_config; regular = true; mod_time = 1000 }

abbrev pub new_request : Request
new_request = record {
  config_version = 2;
  config_digest = toy_digest new_config;
  config = new_config;
}

abbrev pub old_disk : Disk
old_disk = record {
  validation = missing;
  candidate = [];
  current = some old_state.target;
  previous = none;
  applied = holds old_state;
  pending = missing;
  failure = missing;
  versions = (old_state.target, old_file) ∷ [];
  running = some old_state.target;
}

abbrev pub undisturbed : World Disk
undisturbed = record { faults = []; state = old_disk }
