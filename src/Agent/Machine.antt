-- ===== src/Agent/Machine.antt =====
-- What the agent's commands work on: the directories of the three managers, and the commands and results
-- of protocol/v1/types.go.
use xui_agent.Prelude.{ℕ, Bool, Option}
use xui_agent.Spool.Bytes.{Bytes}
use xui_agent.Xray.Disk.{Disk as ConfigDisk, Env as ConfigEnv, Request}
use xui_agent.Binary.Disk.{Disk as BinaryDisk, Env as BinaryEnv}
use xui_agent.Binary.Apply.{Releases}
use xui_agent.Update.Apply.{AgentReleases}
use xui_agent.Update.Disk.{Disk as AgentDisk, Env as AgentEnv}
use xui_agent.Classified.{ErrorCode, RecoveryStatus}

pub record Machine : Type 0 where
  pub config : ConfigDisk
  pub binary : BinaryDisk
  pub agent : AgentDisk

-- What runs: `managed` says that the Xray process is; `releases` and `agent_releases` are what
-- downloads give for the Xray binary and for the agent.
pub record Setting : Type 0 where
  pub managed : Bool
  pub config_env : ConfigEnv
  pub binary_env : BinaryEnv
  pub agent_env : AgentEnv
  pub releases : Releases
  pub agent_releases : AgentReleases
  pub version : Bytes
  pub now : ℕ
  pub collects_events : Bool

pub data CommandType : Type 0 where
  agent_update validate_config apply_config xray_update other_command : CommandType

-- A command; the last fields are what its payload decodes to as a payload with a configuration and as
-- one with a version.
pub record Command : Type 0 where
  pub id : Bytes
  pub kind : CommandType
  pub issued_at : ℕ
  pub expires_at : ℕ
  pub config_payload : Option Request
  pub version_payload : Option Bytes

pub data Status : Type 0 where
  plain_failed validate_failed apply_failed install_failed : Status
  restarting validated applied installed : Status

pub data ResultCode : Type 0 where
  command_expired : ResultCode
  classified : ErrorCode → ResultCode

-- The result of a command, without its error text.
pub record CommandResult : Type 0 where
  pub command_id : Bytes
  pub success : Bool
  pub status : Status
  pub version : Bytes
  pub config_version : ℕ
  pub config_digest : Bytes
  pub error_code : Option ResultCode
  pub recovery : Option RecoveryStatus
