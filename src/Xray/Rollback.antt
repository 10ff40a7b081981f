-- ===== src/Xray/Rollback.antt =====
-- `rollback` of internal/xrayruntime/manager.go and the steps that it shares with `Apply`.
pub use xui_agent.Io.{branch, handle}
pub use xui_agent.Classified.{ApplyError, classify, must, fail_with}
use xui_agent.Prelude.{
  Bool, true, false, ◌&&◌, none, some, length, ◌==◌, if◌then◌else◌, Outcome, ok, err,
}
use xui_agent.Spool.Bytes.{Bytes, bytes_eq}
use xui_agent.Xray.Disk.{
  missing, holds, AppliedState, PendingState, ErrorCode, RecoveryStatus, ApplyResult, Disk, Env,
  recovery_failed, rolled_back, recovery_status_failed,
}
use xui_agent.Xray.Validate.{LoadError, not_exist, unreadable, write_atomic}
use xui_agent.Xray.Files.{
  Step, load_pending, atomic_symlink, remove_and_sync, rollback_applied_state,
}
use xui_agent.Io.{Io, ◌>>=◌, ◌>>◌, pure, raise, attempt, modify, syscall, check}

abbrev pub Run : Type 0 → Type 0
Run A = Io Disk ApplyError A

-- The controller. While it works, and after it failed, the process may be any or none.
unfoldable pub restart_and_wait : Step (Unit {0})
restart_and_wait = do
  modify (λ d. record d { running = none })
  syscall unreadable
  modify (λ d. record d { running = d.current })

unfoldable pub stop_and_wait : Step (Unit {0})
stop_and_wait = do modify (λ d. record d { running = none }); syscall unreadable

abbrev pub result_from_applied : AppliedState → ApplyResult
result_from_applied a = record {
  config_version = a.config_version;
  config_digest = a.config_digest;
  success = true;
  error_code = none;
  recovery_status = none;
  applied_at = a.applied_at;
  is_rolled_back = false;
}

abbrev pub failed_result : PendingState → ErrorCode → RecoveryStatus → Bool → ApplyResult
failed_result p code status back = record {
  config_version = p.config_version;
  config_digest = p.config_digest;
  success = false;
  error_code = some code;
  recovery_status = some status;
  applied_at = 0;
  is_rolled_back = back;
}

abbrev pub remove_pending : Step (Unit {0})
remove_pending = remove_and_sync (λ d. record d { pending = missing })

abbrev pub remove_failed : Step (Unit {0})
remove_failed = remove_and_sync (λ d. record d { failure = missing })

abbrev pub put_applied : AppliedState → Step (Unit {0})
put_applied a = write_atomic unreadable (λ d. record d { applied = holds a })

abbrev pub put_failure : ApplyResult → Step (Unit {0})
put_failure r = write_atomic unreadable (λ d. record d { failure = holds r })

abbrev pub link_current : Bytes → Step (Unit {0})
link_current target = atomic_symlink target (λ d. record d { current = some target })

abbrev pub matches_pending : PendingState → AppliedState → Bool
matches_pending p a =
    bytes_eq p.command_target a.target
    && p.config_version == a.config_version
    && bytes_eq p.config_digest a.config_digest

-- confirmApplied
unfoldable pub confirm_pending : AppliedState → Outcome LoadError PendingState → Step (Unit {0})
confirm_pending a (ok p) = do check (matches_pending p a) unreadable; remove_pending
confirm_pending a (err not_exist) = pure tt
confirm_pending a (err unreadable) = raise unreadable

unfoldable pub confirm_applied : AppliedState → Step (Unit {0})
unfolding confirm_pending
confirm_applied a = do p ← attempt load_pending; confirm_pending a p; remove_failed

module _ (env : Env) where
  open env use {now}

  -- The first half of `rollback`: the previous configuration, or none, is back in place.
  unfoldable pub restore_previous : PendingState → Step (Unit {0})
  restore_previous p = do
    a ← rollback_applied_state env p
    link_current p.previous_target
    put_applied a
    syscall unreadable
    restart_and_wait

  unfoldable pub remove_initial : Step (Unit {0})
  remove_initial = do
    remove_and_sync (λ d. record d { current = none })
    remove_and_sync (λ d. record d { applied = missing })
    stop_and_wait

  unfoldable pub rollback : PendingState → ErrorCode → Step (Unit {0})
  unfolding restore_previous remove_initial
  rollback p code = do
    if length p.previous_target == 0 then remove_initial else restore_previous p
    put_failure (failed_result p code rolled_back true)
    remove_pending

  -- rollbackResult: a failed rollback is recorded, and is an error.
  unfoldable pub rollback_result : PendingState → ErrorCode → Run ApplyResult
  unfolding rollback
  rollback_result p code =
      handle (rollback p code)
        (λ e. do
          attempt {F = LoadError} (put_failure (failed_result p code recovery_status_failed false))
          fail_with recovery_failed recovery_status_failed)
        (λ _. pure (failed_result p code rolled_back true))
