-- ===== src/Binary/Upgrade/Restore.antt =====
-- `rollback` and `rollbackResult` in an update: they restore the old bundle, and every error and every
-- kill on the way leaves what recovery needs.
use xui_agent.Prelude.{
  arith, ◌≡◌, refl, Bool, true, false, ◌==◌, Option, none, some, [], ◌∷◌, length, Outcome, ok, err,
  inl, inr,
}
use xui_agent.Spool.Bytes.{Bytes}
use xui_agent.Xray.Target.{validate_target, target_name, after_prefix}
use xui_agent.Binary.Disk.{
  File, missing, corrupt, holds, AppliedState, PendingState, ErrorCode, UpdateResult, Disk, Env,
  recovery_status_failed, recovery_failed,
}
use xui_agent.Binary.Bundle.{Step, LoadError, not_exist, unreadable}
use xui_agent.Binary.Files.{
  valid_applied, atomic_symlink, rollback_applied_state, put_applied, put_failure, remove_pending,
}
use xui_agent.Binary.Install.{
  config_applied, relink, prepare_controller, prepare_rollback, stop_and_wait, restart_and_wait,
  restore_previous, rollback, rollback_result, when, config_found, matches_pending,
}
use xui_agent.Binary.Upgrade.{
  IsUpdate, update_pending, Serves, has_config, Live, Linked, unlinked, old_link, new_link, Midway,
  Safe, old_settled, midway, new_settled,
}
use xui_agent.Binary.Upgrade.Bundles.{load_applied-Reads, verify_applied_target-Reads}
use xui_agent.Classified.{fail_with-Triple}
use xui_agent.Io.{
  Io, Guarded, bind-Triple, consequence, given-Triple, pure-Triple, raise-Triple, attempt-Triple,
  attempt, check-Triple, Reads-Triple, syscall-Triple, modify-Triple, gets-Triple, attempt-Reads,
  Either, write_atomic-Triple, remove_and_sync-Triple, handle-Triple,
}

pub atomic_symlink-Triple :
    {P Q Z : Disk → Type 0} (target : Bytes) (put : Disk → Disk)
    → ((s : Disk) → P s → Z s)
    → ((s : Disk) → P s → Q (put s))
    → ((s : Disk) → Q s → Z s)
    → Guarded P (atomic_symlink target put) (λ _. Q) Z
unfolding atomic_symlink
atomic_symlink-Triple target put safe step safe' =
    bind-Triple (check-Triple (validate_target target) unreadable safe) λ _.
      bind-Triple (syscall-Triple unreadable (λ s h. safe s h.1) (λ s h. safe s h.1)) λ _.
        bind-Triple (modify-Triple put (λ s h. step s h.1))
          (λ _. syscall-Triple unreadable safe' safe')

pub when-Triple :
    {P Z : Disk → Type 0} {m : Step (Unit {0})} (b : Bool)
    → Guarded P m (λ _. P) Z
    → Guarded P (when b m) (λ _. P) Z
when-Triple true t = t
when-Triple false t = pure-Triple tt (λ s h. h)

module _ {P : Disk → Type 0} where
  config_found-Triple :
      (file : File (Unit {0}))
      → Guarded P (config_found file) (λ b s. (b ≡ has_config file) × P s) P
  config_found-Triple missing = pure-Triple false (λ s h. (refl, h))
  config_found-Triple corrupt = raise-Triple unreadable (λ s h. h)
  config_found-Triple (holds u) = pure-Triple true (λ s h. (refl, h))

  pub config_applied-Triple :
      (file : File (Unit {0}))
      → Guarded P (config_applied file) (λ b s. (b ≡ has_config file) × P s) P
  unfolding config_applied
  config_applied-Triple file =
      bind-Triple (syscall-Triple unreadable (λ s h. h) (λ s h. h)) (λ _. config_found-Triple file)

-- A valid target is not empty.
validate_target-length : (t : Bytes) → validate_target t ≡ true → (length t == 0) ≡ false
unfolding validate_target target_name after_prefix
validate_target-length [] h = ground arith
validate_target-length (c ∷ t) h = ground arith

pub valid_applied-length :
    (a : AppliedState) → valid_applied a ≡ true → (length a.target == 0) ≡ false
unfolding valid_applied
valid_applied-length a h = validate_target-length a.target (ground arith)

module _ (env : Env) (command : Bytes) (a n : AppliedState) (is : IsUpdate command a n) where
  abbrev p : PendingState
  p = update_pending env command a n

  abbrev Mid : Disk → Type 0
  Mid = Midway env command a n

  abbrev Z : Disk → Type 0
  Z = Safe env command a n

  abbrev hc : Bool
  hc = has_config env.applied_config

  -- A link that is moved, with all else as it is.
  moved :
      (current : Option Bytes) (s : Disk)
      → Linked env command a n current
      → Mid s
      → Mid (record s { current = current })
  moved current s l h = record {
    is_pending = h.is_pending;
    link = l;
    state = h.state;
    old_intact = h.old_intact;
    new_intact = h.new_intact;
  }

  abbrev Back : Disk → Type 0
  Back s = Mid s × (s.current ≡ some a.target)

  abbrev Reverted : Disk → Type 0
  Reverted s = Back s × (s.applied ≡ holds a)

  Reverted-Mid : (s : Disk) → Reverted s → Mid s
  Reverted-Mid s h = h.0.0

  abbrev Served : Disk → Type 0
  Served s = Reverted s × Serves env a.target s.running

  pub stop-Triple :
      {P : Disk → Type 0}
      → ((s : Disk) → P s → P (record s { running = none }))
      → Guarded P stop_and_wait (λ _. P) P
  unfolding stop_and_wait
  stop-Triple free =
      bind-Triple (modify-Triple _ free) (λ _. syscall-Triple unreadable (λ s h. h) (λ s h. h))

  relink-Triple :
      (x : AppliedState) (found : Option Bytes) → Guarded Mid (relink env p x found) (λ _. Mid) Mid
  unfolding relink
  relink-Triple x (some t) = pure-Triple tt (λ s h. h)
  relink-Triple x none = bind-Triple (Reads-Triple (verify_applied_target-Reads env x)) (λ _.
      atomic_symlink-Triple n.target _ (λ s h. h) (λ s h. moved (some n.target) s (new_link refl) h)
        (λ s h. h))

  prepare_controller-Triple :
      (found : Outcome LoadError AppliedState)
      → Guarded Mid (prepare_controller env p found) (λ _. Mid) Mid
  unfolding prepare_controller
  prepare_controller-Triple (ok x) = when-Triple (matches_pending p x) (
      bind-Triple (syscall-Triple unreadable (λ s h. h) (λ s h. h)) λ _.
        bind-Triple (gets-Triple (λ d. d.current)) (λ found.
          consequence (relink-Triple x found) (λ s h. h.1) (λ _ s h. h) (λ _ s h. h) (λ s h. h)))
  prepare_controller-Triple (err not_exist) = pure-Triple tt (λ s h. h)
  prepare_controller-Triple (err unreadable) = raise-Triple unreadable (λ s h. h)

  prepare_rollback-Triple : Guarded Mid (prepare_rollback env p) (λ _. Mid) Mid
  unfolding prepare_rollback
  prepare_rollback-Triple =
      bind-Triple (Reads-Triple (attempt-Reads load_applied-Reads))
        λ found. bind-Triple (prepare_controller-Triple found) (λ _. stop-Triple (λ s h. h))

  rollback_applied_state-Triple :
      Guarded Mid (rollback_applied_state env p) (λ x s. (x ≡ a) × Mid s) Mid
  unfolding rollback_applied_state
  rollback_applied_state-Triple = bind-Triple (check-Triple _ unreadable (λ s h. h)) λ _.
      given-Triple λ _.
        bind-Triple (Reads-Triple (verify_applied_target-Reads env a))
          λ _. pure-Triple a (λ s h. (refl, h))

  restore_applied-Triple : Guarded Back (put_applied a) (λ _. Reverted) Mid
  restore_applied-Triple =
      write_atomic-Triple _ (λ s h. h.0)
        (λ s h. (
          (
            record {
              is_pending = h.0.is_pending;
              link = h.0.link;
              state = inl refl;
              old_intact = h.0.old_intact;
              new_intact = h.0.new_intact;
            },
            h.1,
          ),
          refl,
        ))
        Reverted-Mid unreadable

  restore_previous-Triple : Guarded Mid (restore_previous env p) (λ _. Reverted) Mid
  unfolding restore_previous
  restore_previous-Triple =
      handle-Triple rollback_applied_state-Triple
        (λ e.
          bind-Triple
            (remove_and_sync-Triple _ (λ s h. h) (λ s h. moved none s (unlinked refl) h) (λ s h. h))
            (λ _. raise-Triple unreadable (λ s h. h)))
        (λ x. given-Triple λ e.
          bind-Triple
            (atomic_symlink-Triple {Q = Back} a.target _ (λ s h. h)
              (λ s h. (moved (some a.target) s (old_link refl) h, refl)) (λ s h. h.0))
            (λ _. rw e restore_applied-Triple))

  restart_back-Triple :
      (b : Bool) → hc ≡ b → Guarded Reverted (when b restart_and_wait) (λ _. Served) Mid
  unfolding restart_and_wait
  restart_back-Triple false e = pure-Triple tt (λ s h. (h, inl e))
  restart_back-Triple true e = bind-Triple (modify-Triple {Q = λ _. Reverted} _ (λ s h. h)) λ _.
      bind-Triple (syscall-Triple unreadable Reverted-Mid Reverted-Mid)
        λ _. modify-Triple _ (λ s h. (h, inr h.0.1))

  Served-Safe : (s : Disk) → Served s → Z s
  Served-Safe s h = midway h.0.0.0

  clear-Triple : Guarded Served remove_pending (λ _. Live env a) Z
  clear-Triple =
      remove_and_sync-Triple _ Served-Safe
        (λ s h. (
          record {
            no_pending = refl;
            linked = h.0.0.1;
            recorded = h.0.1;
            intact = h.0.0.0.old_intact;
          },
          h.1,
        ))
        (λ s h. old_settled h.0)

  safely :
      {E A : Type 0} {P : Disk → Type 0} {m : Io Disk E A} {Q : A → Disk → Type 0}
      → Guarded P m Q Mid
      → Guarded P m Q Z
  safely t = consequence t (λ s h. h) (λ _ s h. h) (λ _ s h. midway h) (λ s h. midway h)

  rollback-Triple : (code : ErrorCode) → Guarded Mid (rollback env p hc code) (λ _. Live env a) Z
  unfolding rollback
  rollback-Triple code = rw (valid_applied-length a is.valid_old) (
      bind-Triple (safely (when-Triple hc prepare_rollback-Triple)) λ _.
        bind-Triple (safely restore_previous-Triple) λ _.
          bind-Triple (safely (restart_back-Triple hc refl)) λ _.
            bind-Triple
              (safely (
                write_atomic-Triple {Q = Served} _ (λ s h. h.0.0.0) (λ s h. h) (λ s h. h.0.0.0)
                  unreadable))
              (λ _. clear-Triple))

  Safe-failure : (f : File UpdateResult) (s : Disk) → Z s → Z (record s { failure = f })
  Safe-failure f s (old_settled h) = old_settled h
  Safe-failure f s (midway h) = midway h
  Safe-failure f s (new_settled h) = new_settled h

  Safe-Either : (r : Outcome LoadError (Unit {0})) (s : Disk) → Either (λ _. Z) (λ _. Z) r s → Z s
  Safe-Either (ok u) s h = h
  Safe-Either (err e) s h = h

  -- Where the rollback fails its failure is noted, which loses nothing.
  note_failure-Triple :
      {E : Type 0} (r : UpdateResult) → Guarded Z (attempt {E = E} (put_failure r)) (λ _. Z) Z
  note_failure-Triple r =
      consequence
        (attempt-Triple (
          write_atomic-Triple _ (λ s h. h) (λ s h. Safe-failure (holds r) s h) (λ s h. h)
            unreadable))
        (λ s h. h) Safe-Either (λ _ s h. h) (λ s h. h)

  pub rollback_result-Triple :
      (code : ErrorCode)
      → Guarded Mid (rollback_result env p hc code) (λ r s. (r.success ≡ false) × Live env a s) Z
  unfolding rollback_result
  rollback_result-Triple code =
      handle-Triple (rollback-Triple code)
        (λ e.
          bind-Triple (note_failure-Triple _)
            (λ _. fail_with-Triple recovery_failed recovery_status_failed (λ s h. h)))
        (λ _. pure-Triple _ (λ s h. (refl, h)))
