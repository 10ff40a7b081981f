-- ===== src/Binary/Install.antt =====
-- `installPrepared`, `rollback` and `Recover` of internal/xrayupdate/manager.go: a bundle is installed,
-- activated and confirmed, or the previous one is restored.
use xui_agent.Prelude.{
  Bool, true, false, ◌&&◌, Option, none, some, List, [], length, ◌==◌, if◌then◌else◌, Outcome, ok,
  err,
}
use xui_agent.Spool.Bytes.{Bytes, bytes_eq}
use xui_agent.Classified.{ApplyError, must, fail_with}
use xui_agent.Binary.Manifest.{Entry, validate_archive}
use xui_agent.Binary.Disk.{
  File, missing, corrupt, holds, AppliedState, PendingState, UpdateResult, Disk, Env, ErrorCode,
  RecoveryStatus, validation_failed, preparation_failed, activation_failed, persistence_failed,
  recovery_failed, not_required, rolled_back, recovery_status_failed, unknown,
}
use xui_agent.Binary.Bundle.{Step, LoadError, not_exist, unreadable, install_bundle}
use xui_agent.Binary.Files.{
  load_applied, load_pending, remove_pending, remove_failed, remove_current, remove_applied,
  put_applied, put_pending, put_failure, link_current, link_previous, verify_applied_target,
  verify_applied, rollback_applied_state,
}
use xui_agent.Binary.Prune.{prune_versions}
use xui_agent.Io.{Io, ◌>>=◌, ◌>>◌, pure, raise, gets, attempt, modify, syscall, check, handle}

abbrev pub Run : Type 0 → Type 0
Run A = Io Disk ApplyError A

-- The controller. While it works, and after it failed, the process may be any or none.
unfoldable pub restart_and_wait : Step (Unit {0})
restart_and_wait = do
  modify (λ d. record d { running = none })
  syscall unreadable
  modify (λ d. record d { running = d.current })

unfoldable pub stop_and_wait : Step (Unit {0})
stop_and_wait = do modify (λ d. record d { running = none }); syscall unreadable

abbrev pub result_from_applied : AppliedState → UpdateResult
result_from_applied a = record {
  version = a.version;
  success = true;
  error_code = none;
  recovery_status = none;
  applied_at = a.applied_at;
  is_rolled_back = false;
}

abbrev pub failed_result : PendingState → ErrorCode → RecoveryStatus → Bool → UpdateResult
failed_result p code status back = record {
  version = p.version;
  success = false;
  error_code = some code;
  recovery_status = some status;
  applied_at = 0;
  is_rolled_back = back;
}

abbrev pub matches_pending : PendingState → AppliedState → Bool
matches_pending p a =
    bytes_eq a.target p.target
    && bytes_eq a.version p.version
    && bytes_eq a.xray_version p.xray_version
    && bytes_eq a.archive_digest p.archive_digest

abbrev pub when : Bool → Step (Unit {0}) → Step (Unit {0})
when true m = m
when false m = pure tt

-- `appliedConfigPath`
abbrev pub config_found : File (Unit {0}) → Step Bool
config_found missing = pure false
config_found corrupt = raise unreadable
config_found (holds _) = pure true

unfoldable pub config_applied : File (Unit {0}) → Step Bool
config_applied file = do syscall unreadable; config_found file

module _ (env : Env) where
  open env use {now, applied_config, reports_version, accepts_config}

  -- `prepareRollbackController`, for what is found of the applied state and of the link.
  unfoldable pub relink : PendingState → AppliedState → Option Bytes → Step (Unit {0})
  relink p a (some _) = pure tt
  relink p a none = do verify_applied_target env a; link_current p.target

  unfoldable pub prepare_controller :
      PendingState → Outcome LoadError AppliedState → Step (Unit {0})
  unfolding relink
  prepare_controller p (err not_exist) = pure tt
  prepare_controller p (err unreadable) = raise unreadable
  prepare_controller p (ok a) =
      when (matches_pending p a)
        (do syscall unreadable; current ← gets (λ d. d.current); relink p a current)

  unfoldable pub prepare_rollback : PendingState → Step (Unit {0})
  unfolding prepare_controller
  prepare_rollback p = do
    applied ← attempt {F = LoadError} load_applied
    prepare_controller p applied
    stop_and_wait

  -- Where the previous bundle does not verify, the failed candidate is deselected.
  unfoldable pub restore_previous : PendingState → Step (Unit {0})
  restore_previous p =
      handle (rollback_applied_state env p) (λ e. do remove_current; raise unreadable)
        (λ a. do link_current p.previous_target; put_applied a)

  unfoldable pub remove_initial : Step (Unit {0})
  remove_initial = do remove_current; remove_applied

  unfoldable pub rollback : PendingState → Bool → ErrorCode → Step (Unit {0})
  unfolding prepare_rollback restore_previous remove_initial
  rollback p has_config code = do
    when has_config (prepare_rollback p)
    if length p.previous_target == 0 then remove_initial else restore_previous p
    when has_config restart_and_wait
    put_failure (failed_result p code rolled_back true)
    remove_pending

  -- rollbackResult: a failed rollback is recorded, and is an error.
  unfoldable pub rollback_result : PendingState → Bool → ErrorCode → Run UpdateResult
  unfolding rollback
  rollback_result p has_config code =
      handle (rollback p has_config code)
        (λ e. do
          attempt {F = LoadError} (put_failure (failed_result p code recovery_status_failed false))
          fail_with recovery_failed recovery_status_failed)
        (λ _. pure (failed_result p code rolled_back true))

  abbrev pub pending_of : Bytes → AppliedState → Option AppliedState → PendingState
  pending_of command n previous = record {
    command_id = command;
    previous_target = elim previous [ none ↦ [] | some a ↦ a.target ];
    previous_applied = previous;
    target = n.target;
    version = n.version;
    xray_version = n.xray_version;
    archive_digest = n.archive_digest;
    started_at = now;
  }

  -- Behind the new applied state: the pending one is cleared, and old bundles are removed.
  unfoldable pub finish_install : AppliedState → Run UpdateResult
  finish_install n = do
    must persistence_failed unknown remove_pending
    must persistence_failed unknown remove_failed
    must persistence_failed not_required (prune_versions env)
    pure (result_from_applied n)

  -- Behind the pending state: stop, switch, restart, record; a failure rolls back.
  unfoldable pub activate : PendingState → Bool → AppliedState → Run UpdateResult
  unfolding rollback_result finish_install
  activate p has_config n =
      handle (when has_config stop_and_wait) (λ e. rollback_result p has_config activation_failed)
        λ _.
          handle (link_current n.target) (λ e. rollback_result p has_config persistence_failed)
            λ _.
              handle (when has_config restart_and_wait)
                (λ e. rollback_result p has_config activation_failed)
                λ _.
                  handle (link_previous p.previous_target)
                    (λ e. rollback_result p has_config persistence_failed)
                    λ _.
                      handle (put_applied n) (λ e. rollback_result p has_config persistence_failed)
                        λ _. finish_install n

  -- The candidate is validated with the applied configuration, and the controller checks that it
  -- could manage the process.
  unfoldable pub preflight : Bytes → Step (Unit {0})
  preflight target = do syscall unreadable; check (accepts_config target) unreadable

  unfoldable pub switch : Bytes → AppliedState → Option AppliedState → Run UpdateResult
  unfolding activate config_applied preflight
  switch command n previous = do
    has_config ← must preparation_failed not_required (config_applied applied_config)
    must validation_failed not_required (when has_config (preflight n.target))
    must preparation_failed not_required (when has_config (syscall unreadable))
    must preparation_failed not_required (put_pending (pending_of command n previous))
    activate (pending_of command n previous) has_config n

  abbrev pub same_state : AppliedState → AppliedState → Bool
  same_state a n =
      bytes_eq a.version n.version
      && bytes_eq a.xray_version n.xray_version
      && bytes_eq a.archive_digest n.archive_digest
      && bytes_eq a.target n.target

  -- The release is the applied one.
  unfoldable pub unchanged : AppliedState → Run UpdateResult
  unchanged a = do
    must persistence_failed not_required remove_failed
    must persistence_failed not_required (prune_versions env)
    pure (result_from_applied a)

  abbrev first_install : Bytes → AppliedState → Option Bytes → Run UpdateResult
  first_install command n none = switch command n none
  first_install command n (some _) = fail_with preparation_failed not_required

  -- What follows the verified candidate depends on the applied state.
  unfoldable pub decide : Bytes → AppliedState → Outcome LoadError AppliedState → Run UpdateResult
  unfolding switch unchanged
  decide command n (ok a) = do
    must preparation_failed not_required (verify_applied env a)
    if same_state a n then unchanged a else switch command n (some a)
  decide command n (err not_exist) = do
    must preparation_failed not_required (syscall unreadable)
    current ← gets (λ d. d.current)
    first_install command n current
  decide command n (err unreadable) = fail_with preparation_failed not_required

  unfoldable pub no_pending : Outcome LoadError PendingState → Run (Unit {0})
  no_pending (ok p) = fail_with preparation_failed unknown
  no_pending (err not_exist) = pure tt
  no_pending (err unreadable) = fail_with preparation_failed unknown

  abbrev pub applied_of : Bytes → Bytes → Bytes → Bytes → AppliedState
  applied_of version xray_version digest target = record {
    version = version;
    xray_version = xray_version;
    archive_digest = digest;
    target = target;
    applied_at = now;
  }

  -- The installed candidate reports its version.
  unfoldable pub activate_candidate : Bytes → AppliedState → Run UpdateResult
  unfolding decide
  activate_candidate command n = do
    must validation_failed not_required
        (do syscall unreadable; check (reports_version n.target n.xray_version) unreadable)
    applied ← attempt {F = LoadError} load_applied
    decide command n applied

  -- `installPrepared` with the files of an archive as the candidate.
  unfoldable pub install_prepared : Bytes → Bytes → Bytes → Bytes → List Entry → Run UpdateResult
  unfolding activate_candidate no_pending
  install_prepared command version xray_version digest entries = do
    must preparation_failed not_required (syscall unreadable)
    found ← attempt {F = LoadError} load_pending
    no_pending found
    must preparation_failed not_required (prune_versions env)
    target ←
        must preparation_failed not_required
          (install_bundle env version xray_version digest entries)
    activate_candidate command (applied_of version xray_version digest target)

  abbrev pub archive_accepted : List Entry → Bool
  archive_accepted entries = elim (validate_archive entries) [ ok _ ↦ true | err _ ↦ false ]

  -- `installArchive`, for the size of the archive and the entries that zip reads from it.
  unfoldable pub install_archive :
      Bytes → Bytes → Bytes → Bytes → Bool → List Entry → Run UpdateResult
  unfolding install_prepared
  install_archive command version xray_version digest secure entries = do
    must preparation_failed not_required (syscall unreadable)
    must validation_failed not_required (check secure unreadable)
    must validation_failed not_required (syscall unreadable)
    must validation_failed not_required (check (archive_accepted entries) unreadable)
    install_prepared command version xray_version digest entries

  -- `Recover`, behind the clean-up of downloads; an error without a class gets one here.
  unfoldable pub roll_back_unconfirmed : PendingState → Run (Unit {0})
  unfolding rollback_result config_applied
  roll_back_unconfirmed p = do
    has_config ← must preparation_failed unknown (config_applied applied_config)
    rollback_result p has_config preparation_failed
    pure tt

  unfoldable pub confirm : Step (Unit {0})
  confirm = do remove_pending; remove_failed

  unfoldable pub recover_pending : PendingState → Outcome LoadError AppliedState → Run (Unit {0})
  unfolding roll_back_unconfirmed confirm
  recover_pending p (ok a) =
      if matches_pending p a
      then handle (verify_applied env a) (λ e. roll_back_unconfirmed p)
          (λ _. must persistence_failed unknown confirm)
      else roll_back_unconfirmed p
  recover_pending p (err not_exist) = roll_back_unconfirmed p
  recover_pending p (err unreadable) = fail_with recovery_failed unknown

  unfoldable pub recover_found : Outcome LoadError PendingState → Run (Unit {0})
  unfolding recover_pending
  recover_found (ok p) = do
    applied ← attempt {F = LoadError} load_applied
    recover_pending p applied
  recover_found (err not_exist) = pure tt
  recover_found (err unreadable) = fail_with recovery_failed unknown

  unfoldable pub recover : Run (Unit {0})
  unfolding recover_found
  recover = do
    must recovery_failed unknown (syscall unreadable)
    found ← attempt {F = LoadError} load_pending
    recover_found found
