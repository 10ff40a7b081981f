-- ===== src/Binary/Upgrade/Activation.antt =====
-- `installPrepared` in an update, behind the verification of the candidate: the switch, the restart and
-- the confirmation.
use xui_agent.Prelude.{◌≡◌, refl, Bool, true, false, some, inl, inr}
use xui_agent.Spool.Bytes.{Bytes}
use xui_agent.Binary.Disk.{
  missing, holds, AppliedState, PendingState, ErrorCode, UpdateResult, Disk, Env, validation_failed,
  preparation_failed, not_required, persistence_failed, unknown, activation_failed,
}
use xui_agent.Binary.Bundle.{Step, unreadable}
use xui_agent.Binary.Files
use xui_agent.Binary.Files.{put_applied, link_previous}
use xui_agent.Binary.Install.{
  Run, when, preflight, restart_and_wait, rollback_result, finish_install, activate, switch,
}
use xui_agent.Binary.Upgrade.{
  IsIntact, IsUpdate, update_pending, Settled, Serves, has_config, Live, old_link, new_link, Midway,
  Safe, old_settled, midway, new_settled, Concluded, updated, restored,
}
use xui_agent.Binary.Upgrade.Pruning.{prune-Live}
use xui_agent.Binary.Upgrade.Restore.{
  atomic_symlink-Triple, when-Triple, stop-Triple, config_applied-Triple, rollback_result-Triple,
  valid_applied-length,
}
use xui_agent.Classified.{must-Triple}
use xui_agent.Io.{
  Guarded, bind-Triple, consequence, given-Triple, pure-Triple, syscall-Triple, modify-Triple,
  check-Triple, write_atomic-Triple, remove_and_sync-Triple, handle-Triple, handle,
}

module _ (env : Env) (command : Bytes) (a n : AppliedState) (is : IsUpdate command a n) where
  abbrev p : PendingState
  p = update_pending env command a n

  abbrev Mid : Disk → Type 0
  Mid = Midway env command a n

  abbrev Z : Disk → Type 0
  Z = Safe env command a n

  abbrev End : UpdateResult → Disk → Type 0
  End = Concluded env command a n

  abbrev hc : Bool
  hc = has_config env.applied_config

  -- A step that leaves a pending update where it fails: a failure is rolled back.
  or_rolled :
      {A : Type 0} {P : Disk → Type 0} {M : A → Disk → Type 0} {m : Step A}
      {rest : A → Run UpdateResult} (code : ErrorCode)
      → Guarded P m M Mid
      → ((x : A) → Guarded (M x) (rest x) End Z)
      → Guarded P (handle m (λ e. rollback_result env p hc code) rest) End Z
  or_rolled code t k =
      handle-Triple (consequence t (λ s h. h) (λ _ s h. h) (λ _ s h. h) (λ s h. midway h))
        (λ e.
          consequence (rollback_result-Triple env command a n is code) (λ s h. h)
            (λ r s h. restored h.0 h.1) (λ _ s h. h) (λ s h. h))
        k

  abbrev Switched : Disk → Type 0
  Switched s = Mid s × (s.current ≡ some n.target)

  abbrev Started : Disk → Type 0
  Started s = Switched s × Serves env n.target s.running

  abbrev Recorded : Disk → Type 0
  Recorded s = Started s × (s.applied ≡ holds n)

  Started-Mid : (s : Disk) → Started s → Mid s
  Started-Mid s h = h.0.0

  switch-Triple : Guarded Mid (Files.link_current n.target) (λ _. Switched) Mid
  switch-Triple =
      atomic_symlink-Triple {Q = Switched} n.target _ (λ s h. h)
        (λ s h. (
          record {
            is_pending = h.is_pending;
            link = new_link refl;
            state = h.state;
            old_intact = h.old_intact;
            new_intact = h.new_intact;
          },
          refl,
        ))
        (λ s h. h.0)

  start-Triple : (b : Bool) → hc ≡ b → Guarded Switched (when b restart_and_wait) (λ _. Started) Mid
  unfolding restart_and_wait
  start-Triple false e = pure-Triple tt (λ s h. (h, inl e))
  start-Triple true e = bind-Triple (modify-Triple {Q = λ _. Switched} _ (λ s h. h)) λ _.
      bind-Triple (syscall-Triple unreadable (λ s h. h.0) (λ s h. h.0))
        λ _. modify-Triple _ (λ s h. (h, inr h.1))

  link_previous-Triple : Guarded Started (link_previous a.target) (λ _. Started) Mid
  link_previous-Triple =
      rw (valid_applied-length a is.valid_old)
        (atomic_symlink-Triple {Q = Started} a.target _ Started-Mid (λ s h. h) Started-Mid)

  record-Triple : Guarded Started (put_applied n) (λ _. Recorded) Mid
  record-Triple =
      write_atomic-Triple {Q = Recorded} _ Started-Mid
        (λ s h. (
          (
            (
              record {
                is_pending = h.0.0.is_pending;
                link = h.0.0.link;
                state = inr refl;
                old_intact = h.0.0.old_intact;
                new_intact = h.0.0.new_intact;
              },
              h.0.1,
            ),
            h.1,
          ),
          refl,
        ))
        (λ s h. h.0.0.0) unreadable

  New-Z : (s : Disk) → Live env n s → Z s
  New-Z s h = new_settled h.0

  finish-Triple : Guarded Recorded (finish_install env n) End Z
  unfolding finish_install
  finish-Triple =
      bind-Triple
        (must-Triple persistence_failed unknown
          (remove_and_sync-Triple {Q = Live env n} _ (λ s h. midway h.0.0.0) cleared New-Z))
        λ _.
          bind-Triple
            (must-Triple persistence_failed unknown
              (remove_and_sync-Triple {Q = Live env n} _ New-Z (λ s h. h) New-Z))
            λ _.
              bind-Triple
                (must-Triple persistence_failed not_required
                  (consequence (prune-Live env n) (λ s h. h) (λ _ s h. h) (λ _. New-Z) New-Z))
                λ _. pure-Triple _ (λ s h. updated refl h)
    where
      cleared : (s : Disk) → Recorded s → Live env n (record s { pending = missing })
      cleared s h = (
        record { no_pending = refl; linked = h.0.0.1; recorded = h.1; intact = h.0.0.0.new_intact },
        h.0.1,
      )

  activate-Triple : Guarded Mid (activate env p hc n) End Z
  unfolding activate
  activate-Triple =
      or_rolled activation_failed (when-Triple hc (stop-Triple env command a n is (λ s h. h))) λ _.
        or_rolled persistence_failed switch-Triple λ _.
          or_rolled activation_failed (start-Triple hc refl) λ _.
            or_rolled persistence_failed link_previous-Triple
              λ _. or_rolled persistence_failed record-Triple (λ _. finish-Triple)

  abbrev Ready : Disk → Type 0
  Ready s = Settled env a s × IsIntact env n s.versions

  Ready-Z : (s : Disk) → Ready s → Z s
  Ready-Z s h = old_settled h.0

  preflight-Triple : Guarded Ready (preflight env n.target) (λ _. Ready) Z
  unfolding preflight
  preflight-Triple = bind-Triple (syscall-Triple unreadable Ready-Z Ready-Z) (λ _.
      consequence (check-Triple _ unreadable Ready-Z) (λ s h. h) (λ _ s h. h.1) (λ _ s h. h)
        (λ s h. h))

  persist-Triple : Guarded Ready (Files.put_pending p) (λ _. Mid) Z
  persist-Triple =
      write_atomic-Triple {Q = Mid} _ Ready-Z
        (λ s h. record {
          is_pending = refl;
          link = old_link h.0.linked;
          state = inl h.0.recorded;
          old_intact = h.0.intact;
          new_intact = h.1;
        })
        (λ s h. midway h) unreadable

  pub switch_to-Triple : Guarded Ready (switch env command n (some a)) End Z
  unfolding switch
  switch_to-Triple =
      bind-Triple
        (must-Triple preparation_failed not_required (
          consequence (config_applied-Triple env.applied_config) (λ s h. h) (λ _ s h. h)
            (λ _. Ready-Z) Ready-Z))
        λ b. given-Triple λ e. rw e (
          bind-Triple (must-Triple validation_failed not_required (when-Triple hc preflight-Triple))
            λ _.
              bind-Triple
                (must-Triple preparation_failed not_required
                  (when-Triple hc (syscall-Triple unreadable Ready-Z Ready-Z)))
                λ _.
                  bind-Triple (must-Triple preparation_failed not_required persist-Triple)
                    (λ _. activate-Triple))
