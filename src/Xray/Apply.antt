-- ===== src/Xray/Apply.antt =====
-- `Apply` and `Recover` of internal/xrayruntime/manager.go: a configuration is installed, activated
-- and confirmed, or the previous one is restored.
use xui_agent.Prelude.{
  Bool, true, false, ◌&&◌, not, Option, none, some, [], length, ltb, ◌==◌, if◌then◌else◌, Outcome,
  ok, err,
}
use xui_agent.Spool.Bytes.{Bytes, bytes_eq}
use xui_agent.Xray.Target.{target_metadata}
use xui_agent.Xray.Disk.{
  holds, Request, Validation, AppliedState, PendingState, ApplyResult, Env, validation_failed,
  preparation_failed, activation_failed, persistence_failed, recovery_failed, not_required, unknown,
}
use xui_agent.Xray.Validate.{
  LoadError, not_exist, unreadable, clean_request, validate, write_atomic,
}
use xui_agent.Xray.Files.{
  Step, require_metadata, load_applied, load_pending, read_target, atomic_symlink,
  verify_config_target, verify_applied, applied_state_for_target, install_version,
}
use xui_agent.Xray.Prune.{prune_versions}
use xui_agent.Io.{◌>>=◌, ◌>>◌, pure, gets, attempt, syscall, check, wrap}
use xui_agent.Xray.Rollback.{
  Run, classify, must, handle, fail_with, restart_and_wait, result_from_applied, remove_pending,
  remove_failed, put_applied, link_current, matches_pending, confirm_applied, rollback_result,
}

module _ (env : Env) where
  open env use {now}

  -- What `Apply` goes on with: is it a repair, and what it would roll back to.
  pub record Plan : Type 0 where
    pub repair : Bool
    pub previous_target : Bytes
    pub previous_applied : Option AppliedState

  pub data Decision : Type 0 where
    finish : ApplyResult → Decision
    go_on : Plan → Decision

  abbrev no_previous : Bool → Plan
  no_previous repair = record { repair = repair; previous_target = []; previous_applied = none }

  -- The rollback target of a repair is what the link `previous.json` names.
  unfoldable pub repair_plan : Outcome LoadError Bytes → Run Plan
  repair_plan (err not_exist) = pure (no_previous true)
  repair_plan (err unreadable) = fail_with preparation_failed not_required
  repair_plan (ok target) = do
    m ← must preparation_failed not_required (require_metadata env (target_metadata target))
    must preparation_failed not_required (verify_config_target env target m.1)
    a ← must preparation_failed not_required (applied_state_for_target env target)
    pure (record { repair = true; previous_target = target; previous_applied = some a })

  unfoldable pub same_version : AppliedState → Run Decision
  unfolding repair_plan
  same_version a =
      handle (verify_applied env a)
        (λ e. do
          previous ← attempt {F = LoadError} (read_target (λ d. d.previous))
          plan ← repair_plan previous
          pure (go_on plan))
        (λ _. do
          must persistence_failed not_required (confirm_applied a)
          must persistence_failed not_required prune_versions
          pure (finish (result_from_applied a)))

  unfoldable pub first_version : Option Bytes → Run Decision
  first_version none = pure (go_on (no_previous false))
  first_version (some _) = fail_with preparation_failed not_required

  -- The `switch` on the applied state.
  unfoldable pub decide : Request → Outcome LoadError AppliedState → Run Decision
  unfolding same_version first_version
  decide q (ok a) =
      if ltb q.config_version a.config_version
      then fail_with preparation_failed not_required
      else if q.config_version == a.config_version && not (bytes_eq q.config_digest a.config_digest)
      then fail_with preparation_failed not_required
      else if q.config_version == a.config_version
      then same_version a
      else do
        must preparation_failed not_required (verify_config_target env a.target a.config_digest)
        pure (
            go_on
              (record { repair = false; previous_target = a.target; previous_applied = some a }))
  decide q (err not_exist) = do
    must preparation_failed not_required (syscall unreadable)
    current ← gets (λ d. d.current)
    first_version current
  decide q (err unreadable) = fail_with preparation_failed not_required

  abbrev pub pending_of : Request → Plan → Bytes → PendingState
  pending_of q plan target = record {
    command_target = target;
    previous_target = plan.previous_target;
    previous_applied = plan.previous_applied;
    config_version = q.config_version;
    config_digest = q.config_digest;
    started_at = now;
  }

  abbrev pub applied_of : Request → Bytes → AppliedState
  applied_of q target = record {
    config_version = q.config_version;
    config_digest = q.config_digest;
    target = target;
    applied_at = now;
  }

  -- Behind the new applied state: the pending one is cleared, and old versions are removed.
  unfoldable pub finish_apply : Request → Bytes → Run ApplyResult
  finish_apply q target = do
    must persistence_failed unknown remove_pending
    must persistence_failed unknown remove_failed
    must persistence_failed not_required prune_versions
    pure (result_from_applied (applied_of q target))

  abbrev pub link_previous : Bytes → Step (Unit {0})
  link_previous target =
      if length target == 0
      then pure tt
      else atomic_symlink target (λ d. record d { previous = some target })

  -- Behind the switch of the link: restart, record, confirm; a failure rolls back.
  unfoldable pub activate : Request → Plan → Bytes → Run ApplyResult
  unfolding rollback_result finish_apply
  activate q plan target =
      let p = pending_of q plan target in
      handle (syscall {E = LoadError} unreadable) (λ e. rollback_result env p persistence_failed)
        λ _.
          handle restart_and_wait (λ e. rollback_result env p activation_failed)
            λ _.
              handle (link_previous plan.previous_target)
                (λ e. rollback_result env p persistence_failed)
                λ _.
                  handle (put_applied (applied_of q target))
                    (λ e. rollback_result env p persistence_failed) λ _. finish_apply q target

  -- The switch failed: `pending` is cleared, and the error says whether that worked.
  unfoldable pub unswitched : Run ApplyResult
  unswitched =
      handle remove_pending (λ e. fail_with preparation_failed unknown)
        (λ _. fail_with preparation_failed not_required)

  unfoldable pub no_pending : Outcome LoadError PendingState → Run (Unit {0})
  no_pending (ok p) = fail_with preparation_failed unknown
  no_pending (err not_exist) = pure tt
  no_pending (err unreadable) = fail_with preparation_failed unknown

  unfoldable pub execute : Request → Plan → Run ApplyResult
  unfolding activate unswitched no_pending
  execute q plan = do
    must preparation_failed not_required (syscall unreadable)
    found ← attempt {F = LoadError} load_pending
    no_pending found
    must preparation_failed not_required prune_versions
    target ← must preparation_failed not_required (install_version env q plan.repair)
    must preparation_failed not_required
        (write_atomic unreadable (λ d. record d { pending = holds (pending_of q plan target) }))
    handle (link_current target) (λ e. unswitched) (λ _. activate q plan target)

  unfoldable pub carry_out : Request → Decision → Run ApplyResult
  unfolding execute
  carry_out q (finish r) = pure r
  carry_out q (go_on plan) = execute q plan

  abbrev pub rejected : Validation → ApplyResult
  rejected v = record {
    config_version = v.config_version;
    config_digest = v.config_digest;
    success = false;
    error_code = some validation_failed;
    recovery_status = some not_required;
    applied_at = 0;
    is_rolled_back = false;
  }

  -- `Apply` behind a validation that succeeded.
  unfoldable pub apply_valid : Request → Run ApplyResult
  unfolding decide carry_out
  apply_valid q = do
    must preparation_failed not_required (syscall unreadable)
    must preparation_failed not_required (syscall unreadable)
    applied ← attempt {F = LoadError} load_applied
    decision ← decide q applied
    carry_out q decision

  unfoldable pub apply : Request → Run ApplyResult
  unfolding apply_valid
  apply request = do
    check env.enabled (record { code = preparation_failed; recovery = not_required })
    let q = clean_request request
    v ← wrap (classify validation_failed not_required) (validate env q)
    if v.success then apply_valid q else pure (rejected v)

  -- `Recover`, for a pending state that was found.
  unfoldable pub roll_back_unconfirmed : PendingState → Run (Unit {0})
  unfolding rollback_result
  roll_back_unconfirmed p = do rollback_result env p preparation_failed; pure tt

  unfoldable pub recover_pending : PendingState → Outcome LoadError AppliedState → Run (Unit {0})
  unfolding roll_back_unconfirmed
  recover_pending p (ok a) =
      if matches_pending p a
      then handle (verify_applied env a) (λ e. roll_back_unconfirmed p)
          (λ _. must persistence_failed unknown (confirm_applied a))
      else roll_back_unconfirmed p
  recover_pending p (err not_exist) = roll_back_unconfirmed p
  recover_pending p (err unreadable) = fail_with recovery_failed unknown

  unfoldable pub recover_found : Outcome LoadError PendingState → Run (Unit {0})
  unfolding recover_pending
  recover_found (ok p) = do
    applied ← attempt {F = LoadError} load_applied
    recover_pending p applied
  recover_found (err not_exist) = pure tt
  recover_found (err unreadable) = fail_with recovery_failed unknown

  -- An error that `Recover` returns without a class gets one here: the callers do not read it.
  unfoldable pub recover : Run (Unit {0})
  unfolding recover_found
  recover =
      let work : Run (Unit {0}) = (do
        found ← attempt {F = LoadError} load_pending
        recover_found found) in
      if env.enabled then work else pure tt
