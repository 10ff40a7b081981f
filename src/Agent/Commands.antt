-- ===== src/Agent/Commands.antt =====
-- `capabilities`, `executeCommand` and the executors of internal/agent/client.go.
use xui_agent.Prelude.{
  ◌+◌, Bool, true, false, ◌&&◌, ◌||◌, not, Option, none, some, List, [], ◌∷◌, ◌++◌, length, ltb,
  leb, ◌==◌, if◌then◌else◌, Outcome, ok, err,
}
use xui_agent.Spool.Bytes.{Bytes, bytes_eq}
use xui_agent.Classified.{ErrorCode, ApplyError, preparation_failed, not_required}
use xui_agent.Xray.Disk.{Disk as ConfigDisk, Request, Validation, ApplyResult}
use xui_agent.Xray.Validate.{ValidateError, validate}
use xui_agent.Xray.Apply.{apply}
use xui_agent.Binary.Disk.{Disk as BinaryDisk, UpdateResult}
use xui_agent.Binary.Apply.{apply_release}
use xui_agent.Update.Disk.{Disk as AgentDisk, Pending}
use xui_agent.Update.Install.{load_pending, load_failed}
use xui_agent.Update.Apply.{apply_agent}
use xui_agent.Io.{Io, ◌>>=◌, pure, attempt, zoom, LoadError, not_exist, unreadable}
use xui_agent.Agent.Machine.{
  Machine, Setting, Command, CommandType, CommandResult, Status, ResultCode, agent_update,
  validate_config, apply_config, xray_update, other_command, plain_failed, validate_failed,
  apply_failed, install_failed, restarting, validated, applied, installed, command_expired,
  classified,
}

pub data Capability : Type 0 where
  observe self_update config_validate config_apply xray_updates event_upload : Capability

-- The executors return a result, and no error.
abbrev pub Execution : Type 0 → Type 0
Execution A = Io Machine LoadError A

module _ {E A : Type 0} where
  abbrev pub on_config : Io ConfigDisk E A → Io Machine E A
  on_config m = zoom (λ s. s.config) (λ t s. record s { config = t }) m

  abbrev pub on_binary : Io BinaryDisk E A → Io Machine E A
  on_binary m = zoom (λ s. s.binary) (λ t s. record s { binary = t }) m

  abbrev pub on_agent : Io AgentDisk E A → Io Machine E A
  on_agent m = zoom (λ s. s.agent) (λ t s. record s { agent = t }) m

abbrev pub blank_result : Command → Status → CommandResult
blank_result c status = record {
  command_id = c.id;
  success = false;
  status = status;
  version = [];
  config_version = 0;
  config_digest = [];
  error_code = none;
  recovery = none;
}

abbrev pub with_request : Option Request → CommandResult → CommandResult
with_request none r = r
with_request (some q) r = record r {
  config_version = q.config_version;
  config_digest = q.config_digest;
}

abbrev pub with_version : Option Bytes → CommandResult → CommandResult
with_version none r = r
with_version (some v) r = record r { version = v }

-- rejectedCommandResult
unfoldable pub rejected_result : Command → CommandType → ResultCode → CommandResult
rejected_result c validate_config code =
    with_request c.config_payload
      (record (blank_result c validate_failed) { error_code = some code })
rejected_result c apply_config code =
    with_request c.config_payload (record (blank_result c apply_failed) {
      error_code = some code;
      recovery = some not_required;
    })
rejected_result c xray_update code =
    with_version c.version_payload (record (blank_result c install_failed) {
      error_code = some code;
      recovery = some not_required;
    })
rejected_result c agent_update code = record (blank_result c plain_failed) {
  error_code = some code;
}
rejected_result c other_command code = record (blank_result c plain_failed) {
  error_code = some code;
}

abbrev unprepared : Command → Status → CommandResult
unprepared c status = record (blank_result c status) {
  error_code = some (classified preparation_failed);
  recovery = some not_required;
}

abbrev failed_with : CommandResult → ApplyError → CommandResult
failed_with r e = record r { error_code = some (classified e.code); recovery = some e.recovery }

abbrev code_of : Option ErrorCode → Option ResultCode
code_of none = none
code_of (some c) = some (classified c)

module _ (env : Setting) where
  open env use {
    managed, config_env, binary_env, agent_env, releases, agent_releases, now, collects_events,
  }

  -- The update manager always has its release client.
  unfoldable pub capabilities : List Capability
  capabilities =
      observe
      ∷ self_update
      ∷ ((if config_env.enabled then config_validate ∷ [] else [])
          ++ ((if managed && config_env.enabled then config_apply ∷ [] else [])
              ++ ((if managed then xray_updates ∷ [] else [])
                  ++ (if collects_events then event_upload ∷ [] else []))))

  -- executeConfigValidation
  abbrev pub validation_result :
      Command → Request → Outcome ValidateError Validation → CommandResult
  validation_result c q (err e) = with_request (some q) (blank_result c validate_failed)
  validation_result c q (ok v) = record (blank_result c validate_failed) {
    success = v.success;
    status = if v.success then validated else validate_failed;
    config_version = v.config_version;
    config_digest = v.config_digest;
  }

  unfoldable pub validate_payload : Command → Option Request → Execution CommandResult
  validate_payload c none = pure (blank_result c validate_failed)
  validate_payload c (some q) = do
    r ← attempt (on_config (validate config_env q))
    pure (validation_result c q r)

  -- executeConfigApply
  abbrev pub applied_result : Command → Request → Outcome ApplyError ApplyResult → CommandResult
  applied_result c q (err e) = failed_with (with_request (some q) (blank_result c apply_failed)) e
  applied_result c q (ok r) = record (blank_result c apply_failed) {
    success = r.success;
    status = if r.success then applied else apply_failed;
    config_version = r.config_version;
    config_digest = r.config_digest;
    error_code = code_of r.error_code;
    recovery = r.recovery_status;
  }

  unfoldable pub apply_payload : Command → Option Request → Execution CommandResult
  apply_payload c none = pure (unprepared c apply_failed)
  apply_payload c (some q) = do
    r ← attempt (on_config (apply config_env q))
    pure (applied_result c q r)

  unfoldable pub execute_config_apply : Command → Execution CommandResult
  unfolding apply_payload
  execute_config_apply c =
      if managed && config_env.enabled
      then apply_payload c c.config_payload
      else pure (unprepared c apply_failed)

  -- executeXrayUpdate
  abbrev pub update_result : Command → Bytes → Outcome ApplyError UpdateResult → CommandResult
  update_result c v (err e) = failed_with (with_version (some v) (blank_result c install_failed)) e
  update_result c v (ok r) = record (blank_result c install_failed) {
    success = r.success;
    status = if r.success then installed else install_failed;
    version = r.version;
    error_code = code_of r.error_code;
    recovery = r.recovery_status;
  }

  unfoldable pub update_payload : Command → Option Bytes → Execution CommandResult
  update_payload c none = pure (unprepared c install_failed)
  update_payload c (some v) = do
    r ← attempt (on_binary (apply_release binary_env releases c.id v))
    pure (update_result c v r)

  unfoldable pub execute_xray_update : Command → Execution CommandResult
  unfolding update_payload
  execute_xray_update c =
      if managed then update_payload c c.version_payload else pure (unprepared c install_failed)

  abbrev restart_result : Command → Bytes → CommandResult × Bool
  restart_result c v = (record (blank_result c restarting) { success = true; version = v }, true)

  abbrev pub agent_result : Command → Outcome LoadError Bytes → CommandResult × Bool
  agent_result c (err e) = (blank_result c plain_failed, false)
  agent_result c (ok v) = restart_result c v

  abbrev install_agent : Command → Bytes → Execution (CommandResult × Bool)
  install_agent c v = do
    r ← attempt {F = LoadError} (on_agent (apply_agent agent_env agent_releases c.id v))
    pure (agent_result c r)

  -- The switch on what `Failed` returns.
  unfoldable pub after_failed :
      Command → Bytes → Outcome LoadError Pending → Execution (CommandResult × Bool)
  unfolding apply_agent
  after_failed c v (ok p) =
      let next = install_agent c v in
      if bytes_eq p.command_id c.id then pure (blank_result c plain_failed, false) else next
  after_failed c v (err not_exist) = install_agent c v
  after_failed c v (err unreadable) = pure (blank_result c plain_failed, false)

  unfoldable pub try_failed : Command → Bytes → Execution (CommandResult × Bool)
  unfolding after_failed
  try_failed c v = do f ← attempt {F = LoadError} (on_agent load_failed); after_failed c v f

  -- The switch on what `Pending` returns: an update that is already pending for this command restarts.
  unfoldable pub after_pending :
      Command → Bytes → Outcome LoadError Pending → Execution (CommandResult × Bool)
  unfolding try_failed
  after_pending c v (ok p) =
      if bytes_eq p.command_id c.id
      then pure (restart_result c p.target_version)
      else try_failed c v
  after_pending c v (err not_exist) = try_failed c v
  after_pending c v (err unreadable) = pure (blank_result c plain_failed, false)

  -- executeAgentUpdate
  unfoldable pub execute_agent_update : Command → Option Bytes → Execution (CommandResult × Bool)
  unfolding after_pending
  execute_agent_update c none = pure (blank_result c plain_failed, false)
  execute_agent_update c (some v) = do
    p ← attempt {F = LoadError} (on_agent load_pending)
    after_pending c v p

  abbrev without_restart : Execution CommandResult → Execution (CommandResult × Bool)
  without_restart m = do r ← m; pure (r, false)

  unfoldable pub dispatch : Command → CommandType → Execution (CommandResult × Bool)
  unfolding execute_agent_update validate_payload execute_config_apply execute_xray_update
  dispatch c agent_update = execute_agent_update c c.version_payload
  dispatch c validate_config = without_restart (validate_payload c c.config_payload)
  dispatch c apply_config = without_restart (execute_config_apply c)
  dispatch c xray_update = without_restart (execute_xray_update c)
  dispatch c other_command = pure (blank_result c plain_failed, false)

  abbrev pub is_current : Command → Bool
  is_current c = not (leb c.expires_at now || ltb (now + 60) c.issued_at)

  -- executeCommand
  unfoldable pub execute_command : Command → Execution (CommandResult × Bool)
  unfolding dispatch rejected_result
  execute_command c =
      if length c.id == 0
      then pure (blank_result c plain_failed, false)
      else if is_current c
      then dispatch c c.kind
      else pure (rejected_result c c.kind command_expired, false)
