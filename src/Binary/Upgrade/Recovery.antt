-- ===== src/Binary/Upgrade/Recovery.antt =====
-- `Recover` after an update that ended in an error or was killed.
use xui_agent.Prelude.{
  arith, ◌≡◌, ◌⊎◌, refl, sym, ap, ◌∙◌, Bool, true, false, Option, none, some, if◌then◌else◌,
  Outcome, ok, err, inl, inr,
}
use xui_agent.Spool.Bytes.{Bytes, bytes_eq, bytes_eq_iff}
use xui_agent.Binary.Disk.{
  holds, AppliedState, PendingState, Disk, Env, preparation_failed, persistence_failed, unknown,
  recovery_failed,
}
use xui_agent.Binary.Bundle.{LoadError, not_exist, unreadable, present}
use xui_agent.Binary.Files.{
  valid_applied, valid_pending, load_applied, load_pending, read_link, verify_applied,
}
use xui_agent.Binary.Install.{
  matches_pending, roll_back_unconfirmed, confirm, recover_pending, recover_found, recover,
}
use xui_agent.Binary.Upgrade.{
  IsUpdate, update_pending, Settled, Midway, Safe, old_settled, midway, new_settled,
}
use xui_agent.Binary.Upgrade.Bundles.{verify_applied_target-Reads}
use xui_agent.Binary.Upgrade.Restore.{config_applied-Triple, rollback_result-Triple}
use xui_agent.Classified.{must, must-Triple, fail_with-Triple}
use xui_agent.Io.{
  Guarded, World, Triple, Meets, Either, bind-Triple, consequence, given-Triple, pure-Triple,
  raise-Triple, attempt-Triple, check-Triple, gets-Triple, syscall-Triple, Reads-Triple,
  load_file-Triple, load_missing-Triple, remove_and_sync-Triple, handle-Triple, handle,
}

module _ {P : Disk → Type 0} where
  linked-Triple :
      (found : Option Bytes)
      → Guarded
          (λ s. (found ≡ s.current) × P s)
          (present found)
          (λ t s. (s.current ≡ some t) × P s)
          P
  unfolding present
  linked-Triple none = raise-Triple not_exist (λ s h. h.1)
  linked-Triple (some t) = pure-Triple t (λ s h. (sym h.0, h.1))

  -- A verification that succeeds has found the link.
  verify_applied-Triple :
      (env : Env) (n : AppliedState)
      → Guarded P (verify_applied env n) (λ _ s. (s.current ≡ some n.target) × P s) P
  unfolding verify_applied read_link
  verify_applied-Triple env n =
      bind-Triple
        (bind-Triple (syscall-Triple unreadable (λ s h. h) (λ s h. h)) (λ _.
          bind-Triple (gets-Triple (λ d. d.current)) (λ found.
            consequence (linked-Triple found) (λ s h. h) (λ _ s h. h) (λ _ s h. h) (λ s h. h))))
        λ t. bind-Triple (check-Triple (bytes_eq t n.target) unreadable (λ s h. h.1)) λ _.
          given-Triple λ same.
            consequence (Reads-Triple (verify_applied_target-Reads env n)) (λ s h. h)
              (λ _ s h. (h.0 ∙ ap some ((bytes_eq_iff t n.target).0 same), h.1)) (λ _ s h. h.1)
              (λ s h. h.1)

  load_state-Triple :
      (b : AppliedState)
      → ((s : Disk) → P s → s.applied ≡ holds b)
      → Triple P load_applied (λ x s. (x ≡ b) × P s) (λ e s. (e ≡ unreadable) × P s) P
  unfolding load_applied
  load_state-Triple b there = bind-Triple (load_file-Triple P (λ d. d.applied) b there) λ x.
      bind-Triple (check-Triple (valid_applied x) unreadable (λ s h. (refl, h.1)))
        λ _. pure-Triple x (λ s h. h.1)

module _ (env : Env) (command : Bytes) (a n : AppliedState) (is : IsUpdate command a n) where
  abbrev p : PendingState
  p = update_pending env command a n

  abbrev Mid : Disk → Type 0
  Mid = Midway env command a n

  abbrev Z : Disk → Type 0
  Z = Safe env command a n

  abbrev Ended : {A : Type 0} → A → Disk → Type 0
  Ended x s = Settled env a s ⊎ Settled env n s

  abbrev Newly : Disk → Type 0
  Newly s = Mid s × (s.applied ≡ holds n)

  unconfirmed-Triple : Guarded Mid (roll_back_unconfirmed env p) Ended Z
  unfolding roll_back_unconfirmed
  unconfirmed-Triple =
      bind-Triple
        (must-Triple preparation_failed unknown (
          consequence (config_applied-Triple env.applied_config) (λ s h. h) (λ _ s h. h)
            (λ _ s h. midway h) (λ s h. midway h)))
        λ b. given-Triple λ e. rw e (
          bind-Triple (rollback_result-Triple env command a n is preparation_failed)
            (λ r. pure-Triple tt (λ s h. inl h.1.0)))

  confirm-Triple :
      Guarded (λ s. (s.current ≡ some n.target) × Newly s) (confirm env) (λ _. Settled env n) Z
  unfolding confirm
  confirm-Triple =
      bind-Triple
        (remove_and_sync-Triple {Q = Settled env n} _ (λ s h. midway h.1.0)
          (λ s h. record {
            no_pending = refl;
            linked = h.0;
            recorded = h.1.1;
            intact = h.1.0.new_intact;
          })
          (λ s. new_settled))
        λ _.
          remove_and_sync-Triple {Q = Settled env n} _ (λ s. new_settled) (λ s h. h)
            (λ s. new_settled)

  matched-Triple :
      (b : Bool)
      → Guarded Newly
          (if b
            then handle
                (verify_applied env n)
                (λ e. roll_back_unconfirmed env p)
                (λ _. must persistence_failed unknown (confirm env))
            else roll_back_unconfirmed env p)
          Ended
          Z
  matched-Triple true =
      handle-Triple
        (consequence (verify_applied-Triple env n) (λ s h. h) (λ _ s h. h) (λ _ s h. h.0)
          (λ s h. midway h.0))
        (λ e. unconfirmed-Triple)
        (λ _.
          must-Triple persistence_failed unknown
            (consequence confirm-Triple (λ s h. h) (λ _ s h. inr h) (λ _ s h. h) (λ s h. h)))
  matched-Triple false =
      consequence unconfirmed-Triple (λ s h. h.0) (λ _ s h. h) (λ _ s h. h) (λ s h. h)

  abbrev Found : AppliedState → Outcome LoadError AppliedState → Disk → Type 0
  Found b found s =
      Either (λ x s'. (x ≡ b) × (Mid s' × (s'.applied ≡ holds b)))
        (λ e s'. (e ≡ unreadable) × (Mid s' × (s'.applied ≡ holds b))) found s

  unmatched : matches_pending p a ≡ false
  unmatched = ground (
    arith,
    is.other_target,
    (bytes_eq_iff a.target n.target).0,
    (bytes_eq_iff n.target a.target).1,
  )

  pending_old :
      (found : Outcome LoadError AppliedState)
      → Guarded (Found a found) (recover_pending env p found) Ended Z
  unfolding recover_pending
  pending_old (ok x) = given-Triple λ e.
      rw (e, unmatched)
        (consequence unconfirmed-Triple (λ s h. h.0) (λ _ s h. h) (λ _ s h. h) (λ s h. h))
  pending_old (err not_exist) = given-Triple (λ e. absurd (ground (arith, e)))
  pending_old (err unreadable) = fail_with-Triple recovery_failed unknown (λ s h. midway h.1.0)

  pending_new :
      (found : Outcome LoadError AppliedState)
      → Guarded (Found n found) (recover_pending env p found) Ended Z
  unfolding recover_pending
  pending_new (ok x) = given-Triple (λ e. rw e (matched-Triple (matches_pending p n)))
  pending_new (err not_exist) = given-Triple (λ e. absurd (ground (arith, e)))
  pending_new (err unreadable) = fail_with-Triple recovery_failed unknown (λ s h. midway h.1.0)

  found_old : Guarded (λ s. Mid s × (s.applied ≡ holds a)) (recover_found env (ok p)) Ended Z
  unfolding recover_found
  found_old =
      bind-Triple
        (consequence (attempt-Triple (load_state-Triple a (λ s h. h.1))) (λ s h. h) (λ _ s h. h)
          (λ _ s h. h) (λ s h. midway h.0))
        pending_old

  found_new : Guarded (λ s. Mid s × (s.applied ≡ holds n)) (recover_found env (ok p)) Ended Z
  unfolding recover_found
  found_new =
      bind-Triple
        (consequence (attempt-Triple (load_state-Triple n (λ s h. h.1))) (λ s h. h) (λ _ s h. h)
          (λ _ s h. h) (λ s h. midway h.0))
        pending_new

  found_midway : Guarded Mid (recover_found env (ok p)) Ended Z
  found_midway = record {
    at = λ w h. elim h.state [ inl e ↦ found_old.at w (h, e) | inr e ↦ found_new.at w (h, e) ];
  }

  midway-Triple :
      (found : Outcome LoadError PendingState)
      → Guarded
          (λ s. Either (λ x s'. (x ≡ p) × Mid s') (λ e s'. (e ≡ unreadable) × Mid s') found s)
          (recover_found env found)
          Ended
          Z
  unfolding recover_found
  midway-Triple (ok x) = given-Triple (λ e. rw e found_midway)
  midway-Triple (err not_exist) = given-Triple (λ e. absurd (ground (arith, e)))
  midway-Triple (err unreadable) = fail_with-Triple recovery_failed unknown (λ s h. midway h.1)

  load_midway-Triple :
      Triple Mid load_pending (λ x s. (x ≡ p) × Mid s) (λ e s. (e ≡ unreadable) × Mid s) Mid
  unfolding load_pending
  load_midway-Triple =
      bind-Triple (load_file-Triple Mid (λ d. d.pending) p (λ s h. h.is_pending)) λ x.
        bind-Triple (check-Triple (valid_pending x) unreadable (λ s h. (refl, h.1)))
          λ _. pure-Triple x (λ s h. h.1)

  abbrev Not : {A : Type 0} → A → Disk → Type 0
  Not x s = ⊥

  module _ (b : AppliedState) (safe : (s : Disk) → Settled env b s → Z s)
      (ended : (s : Disk) → Settled env b s → Ended tt s) where
    -- With nothing pending there is nothing to recover.
    load_none-Triple : Triple (Settled env b) load_pending Not (λ _. Settled env b) (Settled env b)
    unfolding load_pending
    load_none-Triple =
        bind-Triple (load_missing-Triple (Settled env b) (λ d. d.pending) (λ s h. h.no_pending))
          (λ x. record { at = λ w h. absurd h })

    settled-Triple :
        (found : Outcome LoadError PendingState)
        → Guarded (λ s. Either Not (λ _. Settled env b) found s) (recover_found env found) Ended Z
    unfolding recover_found
    settled-Triple (ok x) = record { at = λ w h. absurd h }
    settled-Triple (err not_exist) = pure-Triple tt ended
    settled-Triple (err unreadable) = fail_with-Triple recovery_failed unknown safe

    recover_settled : Guarded (Settled env b) (recover env) Ended Z
    unfolding recover
    recover_settled =
        bind-Triple (must-Triple recovery_failed unknown (syscall-Triple unreadable safe safe)) λ _.
          bind-Triple
            (consequence (attempt-Triple load_none-Triple) (λ s h. h) (λ _ s h. h) (λ _ s h. h)
              safe)
            settled-Triple

  recover_midway : Guarded Mid (recover env) Ended Z
  unfolding recover
  recover_midway =
      bind-Triple
        (must-Triple recovery_failed unknown
          (syscall-Triple unreadable (λ s h. midway h) (λ s h. midway h)))
        λ _.
          bind-Triple
            (consequence (attempt-Triple load_midway-Triple) (λ s h. h) (λ _ s h. h) (λ _ s h. h)
              (λ s h. midway h))
            midway-Triple

  pub recover-Triple : Guarded Z (recover env) Ended Z
  recover-Triple = record { at = λ w h. go w h }
    where
      go :
          (w : World Disk)
          → Z w.state
          → Meets Ended (λ _. Z) Z (recover env w).0 (recover env w).1.state
      go w (old_settled h) = (recover_settled a (λ s. old_settled) (λ s. inl)).at w h
      go w (midway h) = recover_midway.at w h
      go w (new_settled h) = (recover_settled n (λ s. new_settled) (λ s. inr)).at w h

-- From any disk that an update can leave, under every schedule of failing system calls and of the kill
-- of the process: if `Recover` returns without an error, nothing is pending and the old or the new
-- bundle is linked, recorded and intact; otherwise the disk can still be recovered from.
pub recover_update-Safe :
    (env : Env) (command : Bytes) (a n : AppliedState) (w : World Disk)
    → IsUpdate command a n
    → Safe env command a n w.state
    → Meets
        (λ _ s. Settled env a s ⊎ Settled env n s)
        (λ _. Safe env command a n)
        (Safe env command a n)
        (recover env w).0
        (recover env w).1.state
recover_update-Safe env command a n w is safe = (recover-Triple env command a n is).at w safe
