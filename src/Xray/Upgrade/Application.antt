-- ===== src/Xray/Upgrade/Application.antt =====
-- `Apply` in an upgrade, from the comparison with the applied state to its end.
use xui_agent.Prelude.{
  ℕ, arith, ◌≡◌, ◌<◌, refl, true, false, ◌==◌, ltb, some, Outcome, ok, err, inl,
}
use xui_agent.Spool.Bytes.{Bytes, bytes_eq}
use xui_agent.Xray.Disk.{
  missing, holds, Request, AppliedState, PendingState, Disk, Env, preparation_failed, not_required,
  unknown,
}
use xui_agent.Xray.Validate.{LoadError, not_exist, unreadable, write_atomic}
use xui_agent.Xray.Rollback.{link_current}
use xui_agent.Xray.Apply.{
  Plan, go_on, decide, carry_out, execute, unswitched, no_pending, apply_valid, pending_of,
}
use xui_agent.Xray.Reading.{load_pending-Reads, verify_config_target-Reads}
use xui_agent.Xray.Upgrade.{
  Guarded, IsUpgrade, IsIntact, Settled, Live, Midway, At, Safe, old_settled, midway, Concluded,
}
use xui_agent.Xray.Upgrade.Steps.{
  write_atomic-Triple, remove_and_sync-Triple, atomic_symlink-Triple, handle-Triple,
  fail_with-Triple, must-Triple, load_applied-Triple,
}
use xui_agent.Io.{
  Io, Triple, bind-Triple, consequence, given-Triple, pure-Triple, attempt-Triple, attempt-Reads,
  Reads-Triple, syscall-Triple, Either, Reads,
}
use xui_agent.Xray.Upgrade.Installation
use xui_agent.Xray.Upgrade.Activation.{prune-Live, activate-Triple}
use xui_agent.Xray.Upgrade.Installation.{Old-Z, Installed-Z, install-Triple}

module _ (env : Env) (q : Request) (a : AppliedState) where
  abbrev target : Bytes
  target = Installation.target env q a

  abbrev n : AppliedState
  n = Installation.n env q a

  abbrev started : ℕ
  started = env.now

  abbrev Z : Disk → Type 0
  Z = Safe env a n started

  abbrev Old : Disk → Type 0
  Old = Live env a

  abbrev plan : Plan env
  plan = Installation.plan env q a

  abbrev before : (s : Disk) → Old s → Z s
  before = Old-Z env q a

  -- A step that only reads, before anything has changed.
  early : {E A : Type 0} {m : Io Disk E A} → Reads m → Guarded Old m (λ _. Old) Z
  early k = consequence (Reads-Triple k) (λ s h. h) (λ _ s h. h) (λ _. before) before

  none_pending :
      (found : Outcome LoadError PendingState) → Guarded Old (no_pending env found) (λ _. Old) Z
  unfolding no_pending
  none_pending (ok p) = fail_with-Triple preparation_failed unknown before
  none_pending (err not_exist) = pure-Triple tt (λ s h. h)
  none_pending (err unreadable) = fail_with-Triple preparation_failed unknown before

  module _ (is : IsUpgrade a n started)
      (same_digest : bytes_eq (env.sha256_hex q.config) q.config_digest ≡ true) where
    abbrev Pending : Disk → Type 0
    Pending s = At env a n started a a s

    Pending-mid : (s : Disk) → Pending s → Midway env a n started s
    Pending-mid s h = record {
      is_pending = h.is_pending;
      link = inl h.linked;
      state = inl h.recorded;
      old_intact = h.old_intact;
      new_intact = h.new_intact;
    }

    abbrev Unswitched : Disk → Type 0
    Unswitched s = Settled env a s

    unswitched-Triple : Guarded Pending (unswitched env) (Concluded env a n started) Z
    unfolding unswitched
    unswitched-Triple =
        handle-Triple
          (remove_and_sync-Triple {Q = Unswitched} _ (λ s h. midway (Pending-mid s h)) cleared
            (λ s. old_settled))
          (λ e. fail_with-Triple preparation_failed unknown (λ s h. h))
          (λ _. fail_with-Triple preparation_failed not_required (λ s. old_settled))
      where
        cleared : (s : Disk) → Pending s → Unswitched (record s { pending = missing })
        cleared s h = record {
          no_pending = refl;
          linked = h.linked;
          recorded = h.recorded;
          intact = h.old_intact;
        }

    switch-Triple :
        Triple Pending (link_current target) (λ _. At env a n started n a) (λ _. Pending) Z
    switch-Triple =
        consequence (atomic_symlink-Triple {Q = At env a n started n a} target _ renamed) (λ s h. h)
          (λ _ s h. h) (λ _ s h. h) (λ s h. midway (Pending-mid s h))
      where
        renamed :
            (s : Disk) → Pending s → At env a n started n a (record s { current = some target })
        renamed s h = record {
          is_pending = h.is_pending;
          linked = refl;
          recorded = h.recorded;
          old_intact = h.old_intact;
          new_intact = h.new_intact;
        }

    persist-Triple :
        Guarded
          (λ s. Old s × IsIntact env n s.versions)
          (write_atomic unreadable
            (λ d. record d { pending = holds (pending_of env q plan target) }))
          (λ _. Pending)
          Z
    persist-Triple =
        write_atomic-Triple _ (λ s h. before s h.0)
          (λ s h. record {
            is_pending = refl;
            linked = h.0.settled.linked;
            recorded = h.0.settled.recorded;
            old_intact = h.0.settled.intact;
            new_intact = h.1;
          })
          (λ s h. midway (Pending-mid s h)) unreadable

    execute-Triple : Guarded Old (execute env q plan) (Concluded env a n started) Z
    unfolding execute
    execute-Triple =
        bind-Triple
          (must-Triple preparation_failed not_required (syscall-Triple unreadable before before))
          λ _. bind-Triple (early (attempt-Reads load_pending-Reads)) λ found.
            bind-Triple (none_pending found) λ _.
              bind-Triple
                (must-Triple preparation_failed not_required
                  (consequence (prune-Live env a) (λ s h. h) (λ _ s h. h) (λ _. before) before))
                λ _.
                  bind-Triple
                    (must-Triple preparation_failed not_required
                      (install-Triple env q a is same_digest))
                    λ t. given-Triple λ e. rw e (
                      bind-Triple (must-Triple preparation_failed not_required persist-Triple) λ _.
                        handle-Triple switch-Triple (λ _. unswitched-Triple)
                          (λ _. activate-Triple env q a is same_digest))

    module _ (newer : a.config_version < q.config_version) where
      decide-Triple :
          (found : Outcome LoadError AppliedState)
          → Guarded
              (λ s. Either (λ x s'. (x ≡ a) × Old s') (λ e s'. (e ≡ unreadable) × Old s') found s)
              (decide env q found)
              (λ d s. (d ≡ go_on plan) × Old s)
              Z
      unfolding decide
      decide-Triple (ok x) = given-Triple (λ e.
          rw (e, goes_on, is_other)
            (bind-Triple
              (must-Triple preparation_failed not_required
                (early (verify_config_target-Reads env a.target a.config_digest)))
              (λ _. pure-Triple (go_on plan) (λ s h. (refl, h)))))
        where
          goes_on : ltb q.config_version a.config_version ≡ false
          goes_on = ground arith

          is_other : (q.config_version == a.config_version) ≡ false
          is_other = ground arith
      decide-Triple (err not_exist) = given-Triple (λ e. absurd (ground (arith, e)))
      decide-Triple (err unreadable) =
          fail_with-Triple preparation_failed not_required (λ s h. before s h.1)

      pub apply_valid-Triple : Guarded Old (apply_valid env q) (Concluded env a n started) Z
      unfolding apply_valid carry_out
      apply_valid-Triple =
          bind-Triple
            (must-Triple preparation_failed not_required (syscall-Triple unreadable before before))
            λ _.
              bind-Triple
                (must-Triple preparation_failed not_required
                  (syscall-Triple unreadable before before))
                λ _.
                  bind-Triple
                    (consequence
                      (attempt-Triple (load_applied-Triple Old a (λ s h. h.settled.recorded)))
                      (λ s h. h) (λ _ s h. h) (λ _ s h. h) before)
                    λ found.
                      bind-Triple (decide-Triple found) λ d. given-Triple (λ e. rw e execute-Triple)
