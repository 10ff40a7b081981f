-- ===== src/Tests/UpdateRuns.antt =====
-- An installed agent and the installation of another version: instances of the theorems of Update.
use xui_agent.Prelude.{◌≡◌, refl, true, false, none, some, [], ◌∷◌, err}
use xui_agent.Spool.Bytes.{Bytes, bytes_eq}
use xui_agent.Release.{split_slash}
use xui_agent.Retention.{member}
use xui_agent.Tests.XrayModel.{toy_digest}
use xui_agent.Update.Archive.{
  TarEntry, agent_name, missing_asset, extract_release, extract_entries, extract_entry, asset_lines,
}
use xui_agent.Update.Disk.{
  missing, Disk, Env, VersionDirectory, find_version, version_directory, agent_target,
}
use xui_agent.Update.Install.{install_local}
use xui_agent.Update.Safety.{Safe, Switched, Unswitched, release_name, install_local-Safe}
use xui_agent.Io.{World, Meets}

abbrev pub agent_env : Env
agent_env = record {
  sha256_hex = toy_digest;
  reports = λ _. b'v' ∷ b'2' ∷ [];
  managed = λ _. true;
  now = 1000;
}

abbrev pub old_directory : Bytes
old_directory = b'v' ∷ b'1' ∷ []

abbrev pub old_target : Bytes
old_target = agent_target old_directory

abbrev pub version : Bytes
version = b'v' ∷ b'2' ∷ []

abbrev old_version : VersionDirectory
old_version = record { binary = some (1 ∷ []); executable = true; leftovers = 0; mod_time = 500 }

abbrev pub agent_disk : Disk
agent_disk = record {
  current = some old_target;
  previous = none;
  pending = missing;
  failed = missing;
  versions = (old_directory, old_version) ∷ [];
}

abbrev pub agent_world : World Disk
agent_world = record { faults = []; state = agent_disk }

pub old_named : version_directory old_target ≡ some old_directory
unfolding version_directory split_slash bytes_eq
old_named = refl

pub other_directory : bytes_eq (release_name agent_env version (2 ∷ [])) old_directory ≡ false
unfolding bytes_eq
other_directory = refl

pub other_target :
    bytes_eq old_target (agent_target (release_name agent_env version (2 ∷ []))) ≡ false
unfolding bytes_eq
other_target = refl

pub start :
    Unswitched agent_env (b'c' ∷ []) version (2 ∷ []) old_target old_directory (1 ∷ []) agent_disk
unfolding find_version bytes_eq
start = record {
  linked = refl;
  old_binary = record { directory = old_version; found = refl; same = refl; runs = refl };
}

install_local-Safe_example :
    Meets
      (λ v s.
        (v ≡ version)
        × Switched agent_env (b'c' ∷ []) version (2 ∷ []) old_target old_directory (1 ∷ []) s)
      (λ _. Safe agent_env (b'c' ∷ []) version (2 ∷ []) old_target old_directory (1 ∷ []))
      (Safe agent_env (b'c' ∷ []) version (2 ∷ []) old_target old_directory (1 ∷ []))
      (install_local agent_env (b'c' ∷ []) version (2 ∷ []) agent_world).0
      (install_local agent_env (b'c' ∷ []) version (2 ∷ []) agent_world).1.state
install_local-Safe_example =
    install_local-Safe agent_env (b'c' ∷ []) version (2 ∷ []) old_target old_directory (1 ∷ [])
      agent_world old_named other_directory other_target start

-- An archive without its assets is refused.
abbrev agent_entry : TarEntry
agent_entry = record { name = agent_name; regular = true; size = 1; content = some (1 ∷ []) }

missing_assets :
    extract_release toy_digest ((b'a' ∷ []) ∷ []) (agent_entry ∷ []) ≡ err missing_asset
unfolding extract_release extract_entries extract_entry asset_lines member find_version bytes_eq
missing_assets = refl
