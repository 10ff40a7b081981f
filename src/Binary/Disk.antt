-- ===== src/Binary/Disk.antt =====
-- What internal/xrayupdate keeps below the state directory's xray-runtime, and what it relies on.
unfoldable pub use xui_agent.Versions.{find_version, put_version, remove_version, change_version}
pub use xui_agent.Io.{File, missing, corrupt, holds}
pub use xui_agent.Classified.{
  ErrorCode, RecoveryStatus, validation_failed, preparation_failed, activation_failed,
  persistence_failed, recovery_failed, not_required, rolled_back, recovery_status_failed, unknown,
}
use xui_agent.Prelude.{ℕ, Bool, Option, List}
use xui_agent.Spool.Bytes.{Bytes}
use xui_agent.Xray.Target.RoundTrip.{IsDigest}

-- The `Result` of the package, without its error text; `success` is its status.
pub record UpdateResult : Type 0 where
  pub version : Bytes
  pub success : Bool
  pub error_code : Option ErrorCode
  pub recovery_status : Option RecoveryStatus
  pub applied_at : ℕ
  pub is_rolled_back : Bool

pub record AppliedState : Type 0 where
  pub version : Bytes
  pub xray_version : Bytes
  pub archive_digest : Bytes
  pub target : Bytes
  pub applied_at : ℕ

-- An empty `previous_target` is the absent field.
pub record PendingState : Type 0 where
  pub command_id : Bytes
  pub previous_target : Bytes
  pub previous_applied : Option AppliedState
  pub target : Bytes
  pub version : Bytes
  pub xray_version : Bytes
  pub archive_digest : Bytes
  pub started_at : ℕ

-- `bundleState`; `digests` is its map `Files`.
pub record BundleState : Type 0 where
  pub version : Bytes
  pub xray_version : Bytes
  pub archive_digest : Bytes
  pub digests : List (Bytes × Bytes)

-- A file of a bundle: `mode` are the permission bits of a regular file.
pub record BundleFile : Type 0 where
  pub content : Bytes
  pub regular : Bool
  pub mode : ℕ

-- A directory below versions: `secure` says that it is a directory of mode 0700.
pub record Bundle : Type 0 where
  pub secure : Bool
  pub state : File BundleState
  pub files : List (Bytes × BundleFile)
  pub mod_time : ℕ

pub record Disk : Type 0 where
  pub current : Option Bytes
  pub previous : Option Bytes
  pub applied : File AppliedState
  pub pending : File PendingState
  pub failure : File UpdateResult
  pub versions : List (Bytes × Bundle)
  -- The bundle that the managed process was last started from and found healthy with.
  pub running : Option Bytes

-- What the code calls and does not implement. `has_config` is what `xrayruntime.LoadAppliedState`
-- finds: an applied configuration, none, or one that it refuses.
pub record Env : Type 0 where
  pub sha256_hex : Bytes → Bytes
  pub sha256_hex-IsDigest : (raw : Bytes) → IsDigest (sha256_hex raw)
  pub applied_config : File (Unit {0})
  -- Does the candidate report the version, and accept the configuration?
  pub reports_version : Bytes → Bytes → Bool
  pub accepts_config : Bytes → Bool
  pub now : ℕ
