-- ===== src/Update/Disk.antt =====
-- The state directory that internal/update/manager.go keeps.
unfoldable pub use xui_agent.Versions.{find_version, put_version, remove_version, change_version}
pub use xui_agent.Io.{File, missing, corrupt, holds, LoadError, not_exist, unreadable}
use xui_agent.Prelude.{
  ℕ, Bool, ◌&&◌, ◌||◌, not, Option, none, some, List, [], ◌∷◌, ◌++◌, if◌then◌else◌,
}
use xui_agent.Spool.Bytes.{Bytes, bytes_eq}
use xui_agent.Release.{split_slash}
use xui_agent.Update.Archive.{agent_name}

pub record Pending : Type 0 where
  pub command_id : Bytes
  pub previous_target : Bytes
  pub target_target : Bytes
  pub target_version : Bytes
  pub started_at : ℕ

-- A directory below versions: the binary, whether it is an executable regular file, and how many
-- other files are there, such as a candidate that a kill left behind.
pub record VersionDirectory : Type 0 where
  pub binary : Option Bytes
  pub executable : Bool
  pub leftovers : ℕ
  pub mod_time : ℕ

-- The versions stand under the names of their directories.
pub record Disk : Type 0 where
  pub current : Option Bytes
  pub previous : Option Bytes
  pub pending : File Pending
  pub failed : File Pending
  pub versions : List (Bytes × VersionDirectory)

-- `sha256_hex` is the digest in hexadecimal; `reports` is what the candidate prints as its version;
-- `managed` says that the link resolves to a path below versions.
pub record Env : Type 0 where
  pub sha256_hex : Bytes → Bytes
  pub reports : Bytes → Bytes
  pub managed : Bytes → Bool
  pub now : ℕ

-- "versions"
abbrev pub versions_name : Bytes
versions_name = b'v' ∷ b'e' ∷ b'r' ∷ b's' ∷ b'i' ∷ b'o' ∷ b'n' ∷ b's' ∷ []

abbrev version_part : Bytes → List Bytes → Option Bytes
version_part first (name ∷ binary ∷ []) =
    if bytes_eq first versions_name
      && bytes_eq binary agent_name
      && not (bytes_eq name [] || bytes_eq name (b'.' ∷ []) || bytes_eq name (b'.' ∷ b'.' ∷ []))
    then some name
    else none
version_part first [] = none
version_part first (name ∷ []) = none
version_part first (name ∷ binary ∷ x ∷ rest) = none

-- agentVersionDirectory: `filepath.Clean` changes a target of three such parts only if the middle one
-- is empty, "." or "..".
unfoldable pub version_directory : Bytes → Option Bytes
unfolding split_slash
version_directory target = let (first, rest) = split_slash target in version_part first rest

-- `filepath.Rel(stateDirectory, targetBinary)`
abbrev pub agent_target : Bytes → Bytes
agent_target name = versions_name ++ (b'/' ∷ (name ++ (b'/' ∷ agent_name)))
