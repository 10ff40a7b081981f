-- ===== src/Xray/Upgrade/Recovery.antt =====
-- `Recover` after an upgrade that ended in an error or was killed.
use xui_agent.Prelude.{
  ℕ, arith, ◌≡◌, ◌⊎◌, refl, Bool, true, false, some, if◌then◌else◌, Outcome, ok, err, inl, inr,
}
use xui_agent.Spool.Bytes.{bytes_eq, bytes_eq_iff}
use xui_agent.Xray.Disk.{
  missing, holds, AppliedState, PendingState, Disk, Env, preparation_failed, persistence_failed,
  unknown, recovery_failed,
}
use xui_agent.Xray.Validate.{LoadError, not_exist, unreadable}
use xui_agent.Xray.Files.{verify_applied, load_pending}
use xui_agent.Xray.Rollback.{matches_pending, confirm_applied, confirm_pending, handle, must}
use xui_agent.Xray.Apply.{recover, recover_found, recover_pending, roll_back_unconfirmed}
use xui_agent.Xray.Reading.{read_target-Reads, verify_applied_target-Reads}
use xui_agent.Xray.Upgrade.{
  Guarded, IsUpgrade, upgrade_pending, Settled, Midway, Safe, old_settled, midway, new_settled,
}
use xui_agent.Xray.Upgrade.Restore.{rollback_result-Triple}
use xui_agent.Xray.Upgrade.Steps.{
  load_applied-Triple, load_pending-Triple, remove_and_sync-Triple, handle-Triple, fail_with-Triple,
  must-Triple,
}
use xui_agent.Xray.Upgrade.Pruning.{read_current-Triple}
use xui_agent.Io.{
  load_missing-Triple, Io, World, Triple, Meets, Either, bind-Triple, consequence, given-Triple,
  pure-Triple, attempt-Triple, check-Triple, Reads-Triple, raise-Triple, pure,
}

either-Triple :
    {E A : Type 0} {P P' : Disk → Type 0} {m : Io Disk E A} {Q : A → Disk → Type 0}
    {Z : Disk → Type 0}
    → Guarded P m Q Z
    → Guarded P' m Q Z
    → Guarded (λ s. P s ⊎ P' s) m Q Z
either-Triple t u = record { at = λ w h. elim h [ inl x ↦ t.at w x | inr y ↦ u.at w y ] }

taken :
    {E A : Type 0} {P Z : Disk → Type 0} {m : Io Disk E A} {Q : A → Disk → Type 0} (b : Bool)
    (k : Io Disk E A)
    → b ≡ true
    → Guarded P m Q Z
    → Guarded P (if b then m else k) Q Z
taken true k e t = t
taken false k e t = absurd (ground (arith, e))

module _ (env : Env) (a n : AppliedState) (started : ℕ) (is : IsUpgrade a n started) where
  abbrev p : PendingState
  p = upgrade_pending a n started

  abbrev Mid : Disk → Type 0
  Mid = Midway env a n started

  abbrev Z : Disk → Type 0
  Z = Safe env a n started

  abbrev Ended : {A : Type 0} → A → Disk → Type 0
  Ended x s = Settled env a s ⊎ Settled env n s

  abbrev Newly : Disk → Type 0
  Newly s = Mid s × (s.applied ≡ holds n)

  abbrev Switched : Disk → Type 0
  Switched s = Newly s × (s.current ≡ some n.target)

  unconfirmed-Triple : Guarded Mid (roll_back_unconfirmed env p) Ended Z
  unfolding roll_back_unconfirmed
  unconfirmed-Triple =
      bind-Triple (rollback_result-Triple env a n started is preparation_failed)
        (λ r. pure-Triple tt (λ s h. inl h.1.settled))

  linked_now : (s : Disk) → Mid s → (s.current ≡ some a.target) ⊎ (s.current ≡ some n.target)
  linked_now s h = h.link

  -- Where the verification of the new state succeeds, the link is the new one.
  verify-Triple : Guarded Newly (verify_applied env n) (λ _. Switched) Newly
  unfolding verify_applied
  verify-Triple = consequence (either-Triple old new) split (λ _ s h. h) (λ _ s h. h) (λ s h. h)
    where
      split :
          (s : Disk)
          → Newly s
          → (Newly s × (s.current ≡ some a.target)) ⊎ (Newly s × (s.current ≡ some n.target))
      split s h = elim h.0.link [ inl e ↦ inl (h, e) | inr e ↦ inr (h, e) ]

      old :
          Guarded
            (λ s. Newly s × (s.current ≡ some a.target))
            (verify_applied env n)
            (λ _. Switched)
            Newly
      old =
          bind-Triple
            (consequence
              (read_current-Triple a.target (λ s. Newly s × (s.current ≡ some a.target))
                (λ s h. h.1))
              (λ s h. h) (λ _ s h. h) (λ _ s h. h.1.0) (λ s h. h.0))
            λ t. given-Triple λ e.
              bind-Triple (check-Triple (bytes_eq t n.target) unreadable (λ s h. h.0)) λ _.
                given-Triple λ k. absurd (
                  ground (
                    arith,
                    is.other_target,
                    (bytes_eq_iff t n.target).0,
                    (bytes_eq_iff n.target a.target).1,
                  ))

      new :
          Guarded
            (λ s. Newly s × (s.current ≡ some n.target))
            (verify_applied env n)
            (λ _. Switched)
            Newly
      new =
          consequence
            (bind-Triple (Reads-Triple (read_target-Reads _)) λ t.
              bind-Triple
                (consequence (check-Triple (bytes_eq t n.target) unreadable (λ s h. h)) (λ s h. h)
                  (λ _ s h. h.1) (λ _ s h. h) (λ s h. h))
                λ _. Reads-Triple (verify_applied_target-Reads env n))
            (λ s h. h) (λ _ s h. h) (λ _ s h. h.0) (λ s h. h.0)

  New-Z : (s : Disk) → Settled env n s → Z s
  New-Z s h = new_settled h

  Switched-Z : (s : Disk) → Switched s → Z s
  Switched-Z s h = midway h.0.0

  confirm_pending-Triple :
      (found : Outcome LoadError PendingState)
      → Guarded
          (λ s.
            Either (λ x s'. (x ≡ p) × Switched s') (λ e s'. (e ≡ unreadable) × Switched s') found s)
          (confirm_pending n found)
          (λ _. Settled env n)
          Z
  unfolding confirm_pending
  confirm_pending-Triple (ok x) =
      bind-Triple (check-Triple (matches_pending x n) unreadable (λ s h. Switched-Z s h.1)) λ _.
        consequence (remove_and_sync-Triple _ Switched-Z cleared New-Z) (λ s h. h.1.1) (λ _ s h. h)
          (λ _ s h. h) (λ s h. h)
    where
      cleared : (s : Disk) → Switched s → Settled env n (record s { pending = missing })
      cleared s h = record {
        no_pending = refl;
        linked = h.1;
        recorded = h.0.1;
        intact = h.0.0.new_intact;
      }
  confirm_pending-Triple (err not_exist) = given-Triple (λ e. absurd (ground (arith, e)))
  confirm_pending-Triple (err unreadable) = raise-Triple unreadable (λ s h. Switched-Z s h.1)

  confirm-Triple : Guarded Switched (confirm_applied n) (λ _. Settled env n) Z
  unfolding confirm_applied
  confirm-Triple =
      bind-Triple
        (consequence (attempt-Triple (load_pending-Triple Switched p (λ s h. h.0.0.is_pending)))
          (λ s h. h) (λ _ s h. h) (λ _ s h. h) Switched-Z)
        λ found.
          bind-Triple (confirm_pending-Triple found)
            λ _. remove_and_sync-Triple _ New-Z forgotten New-Z
    where
      forgotten : (s : Disk) → Settled env n s → Settled env n (record s { failure = missing })
      forgotten s h = record {
        no_pending = h.no_pending;
        linked = h.linked;
        recorded = h.recorded;
        intact = h.intact;
      }

  matched :
      (b : Bool)
      → Guarded Newly
          (if b
            then handle
                (verify_applied env n)
                (λ e. roll_back_unconfirmed env p)
                (λ _. must persistence_failed unknown (confirm_applied n))
            else roll_back_unconfirmed env p)
          Ended
          Z
  matched true =
      handle-Triple
        (consequence verify-Triple (λ s h. h) (λ _ s h. h) (λ _ s h. h.0) (λ s h. midway h.0))
        (λ e. unconfirmed-Triple)
        (λ _.
          must-Triple persistence_failed unknown
            (consequence confirm-Triple (λ s h. h) (λ _ s h. inr h) (λ _ s h. h) (λ s h. h)))
  matched false = consequence unconfirmed-Triple (λ s h. h.0) (λ _ s h. h) (λ _ s h. h) (λ s h. h)

  abbrev Found : AppliedState → Outcome LoadError AppliedState → Disk → Type 0
  Found b found s =
      Either (λ x s'. (x ≡ b) × (Mid s' × (s'.applied ≡ holds b)))
        (λ e s'. (e ≡ unreadable) × (Mid s' × (s'.applied ≡ holds b))) found s

  pending_old :
      (found : Outcome LoadError AppliedState)
      → Guarded (Found a found) (recover_pending env p found) Ended Z
  unfolding recover_pending
  pending_old (ok x) = given-Triple (λ e.
      rw (e, is.other_target)
        (consequence unconfirmed-Triple (λ s h. h.0) (λ _ s h. h) (λ _ s h. h) (λ s h. h)))
  pending_old (err not_exist) = given-Triple (λ e. absurd (ground (arith, e)))
  pending_old (err unreadable) = fail_with-Triple recovery_failed unknown (λ s h. midway h.1.0)

  pending_new :
      (found : Outcome LoadError AppliedState)
      → Guarded (Found n found) (recover_pending env p found) Ended Z
  unfolding recover_pending
  pending_new (ok x) = given-Triple (λ e. rw e (matched (matches_pending p n)))
  pending_new (err not_exist) = given-Triple (λ e. absurd (ground (arith, e)))
  pending_new (err unreadable) = fail_with-Triple recovery_failed unknown (λ s h. midway h.1.0)

  midway-Triple :
      (found : Outcome LoadError PendingState)
      → Guarded
          (λ s. Either (λ x s'. (x ≡ p) × Mid s') (λ e s'. (e ≡ unreadable) × Mid s') found s)
          (recover_found env found)
          Ended
          Z
  unfolding recover_found
  midway-Triple (ok x) =
      given-Triple
        (λ e. rw e (consequence (either-Triple old new) split (λ _ s h. h) (λ _ s h. h) (λ s h. h)))
    where
      split : (s : Disk) → Mid s → (Mid s × (s.applied ≡ holds a)) ⊎ (Mid s × (s.applied ≡ holds n))
      split s h = elim h.state [ inl k ↦ inl (h, k) | inr k ↦ inr (h, k) ]

      old : Guarded (λ s. Mid s × (s.applied ≡ holds a)) (recover_found env (ok p)) Ended Z
      old =
          bind-Triple
            (consequence
              (attempt-Triple
                (load_applied-Triple (λ s. Mid s × (s.applied ≡ holds a)) a (λ s h. h.1)))
              (λ s h. h) (λ _ s h. h) (λ _ s h. h) (λ s h. midway h.0))
            pending_old

      new : Guarded (λ s. Mid s × (s.applied ≡ holds n)) (recover_found env (ok p)) Ended Z
      new =
          bind-Triple
            (consequence
              (attempt-Triple
                (load_applied-Triple (λ s. Mid s × (s.applied ≡ holds n)) n (λ s h. h.1)))
              (λ s h. h) (λ _ s h. h) (λ _ s h. h) (λ s h. midway h.0))
            pending_new
  midway-Triple (err not_exist) = given-Triple (λ e. absurd (ground (arith, e)))
  midway-Triple (err unreadable) = fail_with-Triple recovery_failed unknown (λ s h. midway h.1)

  abbrev Not : {A : Type 0} → A → Disk → Type 0
  Not x s = ⊥

  -- With nothing pending there is nothing to recover.
  load_none-Triple :
      (b : AppliedState)
      → Triple (Settled env b) load_pending Not (λ _. Settled env b) (Settled env b)
  unfolding load_pending
  load_none-Triple b =
      bind-Triple (load_missing-Triple (Settled env b) (λ d. d.pending) (λ s h. h.no_pending))
        (λ x. record { at = λ w h. absurd h })

  settled-Triple :
      (b : AppliedState)
      → ((s : Disk) → Settled env b s → Z s)
      → ((s : Disk) → Settled env b s → Ended tt s)
      → (found : Outcome LoadError PendingState)
      → Guarded (λ s. Either Not (λ _. Settled env b) found s) (recover_found env found) Ended Z
  unfolding recover_found
  settled-Triple b safe ended (ok x) = record { at = λ w h. absurd h }
  settled-Triple b safe ended (err not_exist) = pure-Triple tt ended
  settled-Triple b safe ended (err unreadable) = fail_with-Triple recovery_failed unknown safe

  module _ (on : env.enabled ≡ true) where
    recover_settled :
        (b : AppliedState)
        → ((s : Disk) → Settled env b s → Z s)
        → ((s : Disk) → Settled env b s → Ended tt s)
        → Guarded (Settled env b) (recover env) Ended Z
    unfolding recover
    recover_settled b safe ended = taken env.enabled (pure tt) on (
        bind-Triple
          (consequence (attempt-Triple (load_none-Triple b)) (λ s h. h) (λ _ s h. h) (λ _ s h. h)
            safe)
          (settled-Triple b safe ended))

    recover_midway : Guarded Mid (recover env) Ended Z
    unfolding recover
    recover_midway = taken env.enabled (pure tt) on (
        bind-Triple
          (consequence (attempt-Triple (load_pending-Triple Mid p (λ s h. h.is_pending))) (λ s h. h)
            (λ _ s h. h) (λ _ s h. h) (λ s h. midway h))
          midway-Triple)

    pub recover-Triple : Guarded Z (recover env) Ended Z
    recover-Triple = record { at = λ w h. go w h }
      where
        go :
            (w : World Disk)
            → Z w.state
            → Meets Ended (λ _. Z) Z (recover env w).0 (recover env w).1.state
        go w (old_settled h) = (recover_settled a (λ s. old_settled) (λ s. inl)).at w h
        go w (midway h) = recover_midway.at w h
        go w (new_settled h) = (recover_settled n (λ s. new_settled) (λ s. inr)).at w h

-- From any disk that an upgrade can leave, under every schedule of failing system calls and of the
-- kill of the process: if `Recover` returns without an error, nothing is pending and the old or the
-- new configuration is linked, recorded and intact; otherwise the disk can still be recovered from.
pub recover-Safe :
    (env : Env) (a n : AppliedState) (started : ℕ) (w : World Disk)
    → env.enabled ≡ true
    → IsUpgrade a n started
    → Safe env a n started w.state
    → Meets
        (λ _ s. Settled env a s ⊎ Settled env n s)
        (λ _. Safe env a n started)
        (Safe env a n started)
        (recover env w).0
        (recover env w).1.state
recover-Safe env a n started w on is safe = (recover-Triple env a n started is on).at w safe
