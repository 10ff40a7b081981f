-- ===== src/Tests/ReleaseOffers.antt =====
-- A release of the agent that passes all checks: an instance of the theorem of Update.Released.
use xui_agent.Prelude.{◌≡◌, refl, true, some, [], ◌∷◌, map, ok}
use xui_agent.Spool.Bytes.{Bytes, bytes_eq}
use xui_agent.Retention.{member}
use xui_agent.Xray.Digits.{padded, is_hex, all_bytes, to_lower, to_lower_byte}
use xui_agent.Xray.Validate.{clean_digest, is_space}
use xui_agent.Release.{valid_token}
use xui_agent.Versions.{find_version, put_version}
use xui_agent.Binary.Manifest.{Artifact, valid_version}
use xui_agent.Update.Archive.{
  AgentManifest, TarEntry, agent_name, checked_agent_manifest, first_artifact, extract_release,
  extract_entries, extract_entry, asset_lines,
}
use xui_agent.Update.Apply.{AgentArchive, AgentReleases, runtime_asset_names, apply_agent}
use xui_agent.Update.Released.{Offered, Passed, apply_agent-Safe}
use xui_agent.Update.Safety.{Safe, Switched}
use xui_agent.Io.{Meets}
use xui_agent.Tests.UpdateRuns.{
  agent_env, agent_world, old_directory, old_target, version, old_named, other_directory,
  other_target, start,
}

abbrev entry : Bytes → Bytes → TarEntry
entry name content = record { name = name; regular = true; size = 1; content = some content }

abbrev asset_digest : Bytes
asset_digest = padded 64 4

abbrev artifact : Artifact
artifact = record { os = b'l' ∷ []; arch = b'a' ∷ []; sha256 = padded 64 1; size = 1 }

abbrev manifest : AgentManifest
manifest = record {
  schema_version = 3;
  version = version;
  runtime_assets = asset_digest;
  artifacts = artifact ∷ [];
}

abbrev archive : AgentArchive
archive = record {
  content = 9 ∷ [];
  entries = entry agent_name (2 ∷ []) ∷ map (λ name. entry name (1 ∷ [])) runtime_asset_names;
}

abbrev offers : AgentReleases
offers = record {
  goos = b'l' ∷ [];
  goarch = b'a' ∷ [];
  manifest_of = λ v. some (some manifest);
  archive_of = λ v a. some archive;
  installed_assets = some asset_digest;
}

manifest_checked : checked_agent_manifest (some manifest) ≡ ok manifest
unfolding checked_agent_manifest valid_version clean_digest to_lower to_lower_byte all_bytes is_hex
    padded is_space valid_token bytes_eq
manifest_checked = refl

artifact_found : first_artifact offers.goos offers.goarch manifest.artifacts ≡ ok artifact
unfolding first_artifact bytes_eq padded
artifact_found = refl

archive_extracted :
    extract_release agent_env.sha256_hex runtime_asset_names archive.entries
    ≡ ok (2 ∷ [], asset_digest)
unfolding extract_release extract_entries extract_entry asset_lines member find_version put_version
    bytes_eq padded
archive_extracted = refl

abbrev offer : Offered agent_env offers version
offer = record {
  decoded = some manifest;
  manifest = manifest;
  artifact = artifact;
  archive = archive;
  binary = 2 ∷ [];
  assets = asset_digest;
  installed = asset_digest;
  is_manifest = refl;
  is_checked = manifest_checked;
  is_artifact = artifact_found;
  is_archive = refl;
  is_extracted = archive_extracted;
  is_installed = refl;
}

apply_agent-Safe_example :
    Meets
      (λ v s.
        Passed offer
        × ((v ≡ version)
            × Switched agent_env (b'c' ∷ []) version (2 ∷ []) old_target old_directory (1 ∷ []) s))
      (λ _. Safe agent_env (b'c' ∷ []) version (2 ∷ []) old_target old_directory (1 ∷ []))
      (Safe agent_env (b'c' ∷ []) version (2 ∷ []) old_target old_directory (1 ∷ []))
      (apply_agent agent_env offers (b'c' ∷ []) version agent_world).0
      (apply_agent agent_env offers (b'c' ∷ []) version agent_world).1.state
apply_agent-Safe_example =
    apply_agent-Safe agent_env offers (b'c' ∷ []) version old_target old_directory (1 ∷ []) offer
      agent_world old_named other_directory other_target start
