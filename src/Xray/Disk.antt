-- ===== src/Xray/Disk.antt =====
-- What internal/xrayconfig and internal/xrayruntime keep below the state directory's xray-config, the
-- managed process, and what they rely on of the world: digests, JSON, the Xray binary, the clock.
unfoldable pub use xui_agent.Versions.{find_version, put_version, remove_version}
pub use xui_agent.Io.{File, missing, corrupt, holds}
pub use xui_agent.Classified.{
  ErrorCode, RecoveryStatus, validation_failed, preparation_failed, activation_failed,
  persistence_failed, recovery_failed, not_required, rolled_back, recovery_status_failed, unknown,
}
use xui_agent.Prelude.{ℕ, Bool, Option, List}
use xui_agent.Spool.Bytes.{Bytes}
use xui_agent.Xray.Target.RoundTrip.{IsDigest}

-- `xrayconfig.Request` and `xrayruntime.Request`.
pub record Request : Type 0 where
  pub config_version : ℕ
  pub config_digest : Bytes
  pub config : Bytes

-- The `Result` of internal/xrayconfig; `success` is its status.
pub record Validation : Type 0 where
  pub config_version : ℕ
  pub config_digest : Bytes
  pub success : Bool
  pub validated_at : ℕ

pub record AppliedState : Type 0 where
  pub config_version : ℕ
  pub config_digest : Bytes
  pub target : Bytes
  pub applied_at : ℕ

-- An empty `previous_target` is the absent field.
pub record PendingState : Type 0 where
  pub command_target : Bytes
  pub previous_target : Bytes
  pub previous_applied : Option AppliedState
  pub config_version : ℕ
  pub config_digest : Bytes
  pub started_at : ℕ

-- The `Result` of internal/xrayruntime, without its error text.
pub record ApplyResult : Type 0 where
  pub config_version : ℕ
  pub config_digest : Bytes
  pub success : Bool
  pub error_code : Option ErrorCode
  pub recovery_status : Option RecoveryStatus
  pub applied_at : ℕ
  pub is_rolled_back : Bool

-- `regular` says that it is a regular file with mode 0600.
pub record VersionFile : Type 0 where
  pub content : Bytes
  pub regular : Bool
  pub mod_time : ℕ

pub record Disk : Type 0 where
  pub validation : File Validation
  pub candidate : Bytes
  pub current : Option Bytes
  pub previous : Option Bytes
  pub applied : File AppliedState
  pub pending : File PendingState
  pub failure : File ApplyResult
  pub versions : List (Bytes × VersionFile)
  -- The version file that the managed process was last started on and found healthy with.
  pub running : Option Bytes

-- What the code calls and does not implement. `stamp` is `time.Now().UnixNano()` in decimal.
pub record Env : Type 0 where
  pub enabled : Bool
  pub sha256_hex : Bytes → Bytes
  pub sha256_hex-IsDigest : (raw : Bytes) → IsDigest (sha256_hex raw)
  pub valid_json : Bytes → Bool
  -- Does the Xray binary accept the configuration?
  pub accepts : Bytes → Bool
  pub now : ℕ
  pub stamp : Bytes
