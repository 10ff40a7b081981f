-- ===== src/Xray/Upgrade/Restore.antt =====
-- `rollback` and `rollbackResult` in an upgrade: they restore the old configuration, and every error
-- and every kill on the way leaves what recovery needs.
use xui_agent.Prelude.{
  ℕ, arith, ◌≡◌, refl, true, false, ◌==◌, some, [], ◌∷◌, length, Outcome, ok, err, inl,
}
use xui_agent.Spool.Bytes.{Bytes}
use xui_agent.Xray.Disk.{
  File, holds, AppliedState, PendingState, ErrorCode, ApplyResult, Disk, Env,
  recovery_status_failed, recovery_failed,
}
use xui_agent.Xray.Target.{validate_target, target_name, after_prefix}
use xui_agent.Xray.Validate.{LoadError, unreadable}
use xui_agent.Xray.Files.{valid_applied, rollback_applied_state}
use xui_agent.Xray.Rollback.{
  restart_and_wait, restore_previous, rollback, rollback_result, put_applied, put_failure,
  link_current, remove_pending,
}
use xui_agent.Xray.Reading.{verify_applied_target-Reads}
use xui_agent.Xray.Upgrade.{
  Guarded, IsUpgrade, upgrade_pending, Settled, Live, Midway, At, Safe, old_settled, midway,
  new_settled,
}
use xui_agent.Xray.Upgrade.Steps.{
  write_atomic-Triple, remove_and_sync-Triple, atomic_symlink-Triple, restart_and_wait-Triple,
  handle-Triple, fail_with-Triple,
}
use xui_agent.Io.{
  Io, bind-Triple, consequence, given-Triple, pure-Triple, attempt-Triple, attempt, check-Triple,
  Reads-Triple, syscall-Triple, Either,
}

pub valid_applied-target :
    (a : AppliedState) → valid_applied a ≡ true → validate_target a.target ≡ true
unfolding valid_applied
valid_applied-target a h = ground arith

-- A valid target is not empty.
validate_target-length : (t : Bytes) → validate_target t ≡ true → (length t == 0) ≡ false
unfolding validate_target target_name after_prefix
validate_target-length [] h = ground arith
validate_target-length (c ∷ t) h = ground arith

pub valid_applied-length :
    (a : AppliedState) → valid_applied a ≡ true → (length a.target == 0) ≡ false
valid_applied-length a h = validate_target-length a.target (valid_applied-target a h)

module _ (env : Env) (a n : AppliedState) (started : ℕ) (is : IsUpgrade a n started) where
  abbrev p : PendingState
  p = upgrade_pending a n started

  abbrev Mid : Disk → Type 0
  Mid = Midway env a n started

  -- Switched back: pending, with the old link and the old applied state.
  abbrev Reverted : Disk → Type 0
  Reverted = At env a n started a a

  At-Midway : (d : Disk) → Reverted d → Mid d
  At-Midway d h = record {
    is_pending = h.is_pending;
    link = inl h.linked;
    state = inl h.recorded;
    old_intact = h.old_intact;
    new_intact = h.new_intact;
  }

  abbrev Served : Disk → Type 0
  Served s = Reverted s × (s.running ≡ some a.target)

  Served-Safe : (s : Disk) → Served s → Safe env a n started s
  Served-Safe s h = midway (At-Midway s h.0)

  rollback_applied_state-Triple :
      Guarded Mid (rollback_applied_state env p) (λ x s. (x ≡ a) × Mid s) Mid
  unfolding rollback_applied_state
  rollback_applied_state-Triple = bind-Triple (check-Triple _ unreadable (λ s h. h)) λ _.
      given-Triple λ _.
        bind-Triple (Reads-Triple (verify_applied_target-Reads env a))
          λ _. pure-Triple a (λ s h. (refl, h))

  link_back-Triple :
      Guarded Mid (link_current a.target) (λ _ s. Mid s × (s.current ≡ some a.target)) Mid
  link_back-Triple = atomic_symlink-Triple a.target _ (λ s h. (
    record {
      is_pending = h.is_pending;
      link = inl refl;
      state = h.state;
      old_intact = h.old_intact;
      new_intact = h.new_intact;
    },
    refl,
  ))

  put_back-Triple :
      Guarded (λ s. Mid s × (s.current ≡ some a.target)) (put_applied a) (λ _. Reverted) Mid
  put_back-Triple =
      write_atomic-Triple _ (λ s h. h.0)
        (λ s h. record {
          is_pending = h.0.is_pending;
          linked = h.1;
          recorded = refl;
          old_intact = h.0.old_intact;
          new_intact = h.0.new_intact;
        })
        At-Midway unreadable

  restart_back-Triple : Guarded Reverted restart_and_wait (λ _. Served) Mid
  restart_back-Triple =
      restart_and_wait-Triple a.target (λ s h. h.linked)
        (λ r s h. record {
          is_pending = h.is_pending;
          linked = h.linked;
          recorded = h.recorded;
          old_intact = h.old_intact;
          new_intact = h.new_intact;
        })
        At-Midway

  restore_previous-Triple : Guarded Mid (restore_previous env p) (λ _. Served) Mid
  unfolding restore_previous
  restore_previous-Triple = bind-Triple rollback_applied_state-Triple λ x. given-Triple λ e.
      bind-Triple link_back-Triple λ _. rw e (
        bind-Triple put_back-Triple
          λ _. bind-Triple (syscall-Triple unreadable At-Midway At-Midway) λ _. restart_back-Triple)

  note-Triple : (r : ApplyResult) → Guarded Served (put_failure r) (λ _. Served) Mid
  note-Triple r =
      write_atomic-Triple _ (λ s h. At-Midway s h.0)
        (λ s h. (
          record {
            is_pending = h.0.is_pending;
            linked = h.0.linked;
            recorded = h.0.recorded;
            old_intact = h.0.old_intact;
            new_intact = h.0.new_intact;
          },
          h.1,
        ))
        (λ s h. At-Midway s h.0) unreadable

  clear-Triple : Guarded Served remove_pending (λ _. Live env a) (Safe env a n started)
  clear-Triple =
      remove_and_sync-Triple _ Served-Safe
        (λ s h. record {
          settled = record {
            no_pending = refl;
            linked = h.0.linked;
            recorded = h.0.recorded;
            intact = h.0.old_intact;
          };
          serves = h.1;
        })
        (λ s h. old_settled h.settled)

  safely :
      {E A : Type 0} {P : Disk → Type 0} {m : Io Disk E A} {Q : A → Disk → Type 0}
      → Guarded P m Q Mid
      → Guarded P m Q (Safe env a n started)
  safely t = consequence t (λ s h. h) (λ _ s h. h) (λ _ s h. midway h) (λ s h. midway h)

  pub rollback-Triple :
      (code : ErrorCode)
      → Guarded Mid (rollback env p code) (λ _. Live env a) (Safe env a n started)
  unfolding rollback
  rollback-Triple code = rw (valid_applied-length a is.valid_old) (
      bind-Triple (safely restore_previous-Triple)
        λ _. bind-Triple (safely (note-Triple _)) (λ _. clear-Triple))

  refill :
      {b : AppliedState} (f : File ApplyResult) (s : Disk)
      → Settled env b s
      → Settled env b (record s { failure = f })
  refill f s h = record {
    no_pending = h.no_pending;
    linked = h.linked;
    recorded = h.recorded;
    intact = h.intact;
  }

  Safe-failure :
      (f : File ApplyResult) (s : Disk)
      → Safe env a n started s
      → Safe env a n started (record s { failure = f })
  Safe-failure f s (old_settled h) = old_settled (refill f s h)
  Safe-failure f s (midway h) = midway (record {
    is_pending = h.is_pending;
    link = h.link;
    state = h.state;
    old_intact = h.old_intact;
    new_intact = h.new_intact;
  })
  Safe-failure f s (new_settled h) = new_settled (refill f s h)

  Safe-Either :
      (r : Outcome LoadError (Unit {0})) (s : Disk)
      → Either (λ _. Safe env a n started) (λ _. Safe env a n started) r s
      → Safe env a n started s
  Safe-Either (ok u) s h = h
  Safe-Either (err e) s h = h

  -- Where the rollback fails its failure is noted, which loses nothing.
  note_failure-Triple :
      {E : Type 0} (r : ApplyResult)
      → Guarded
          (Safe env a n started)
          (attempt {E = E} (put_failure r))
          (λ _. Safe env a n started)
          (Safe env a n started)
  note_failure-Triple r =
      consequence
        (attempt-Triple (
          write_atomic-Triple _ (λ s h. h) (λ s h. Safe-failure (holds r) s h) (λ s h. h)
            unreadable))
        (λ s h. h) Safe-Either (λ _ s h. h) (λ s h. h)

  pub rollback_result-Triple :
      (code : ErrorCode)
      → Guarded Mid
          (rollback_result env p code)
          (λ r s. (r.success ≡ false) × Live env a s)
          (Safe env a n started)
  unfolding rollback_result
  rollback_result-Triple code =
      handle-Triple (rollback-Triple code)
        (λ e.
          bind-Triple (note_failure-Triple _)
            (λ _. fail_with-Triple recovery_failed recovery_status_failed (λ s h. h)))
        (λ _. pure-Triple _ (λ s h. (refl, h)))
