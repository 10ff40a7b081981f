-- ===== src/Xray/Upgrade/Activation.antt =====
-- `Apply` in an upgrade, behind the validation: installation, switch, activation and confirmation.
use xui_agent.Prelude.{ℕ, ◌≡◌, refl, true, Option, some, inl, inr}
use xui_agent.Spool.Bytes.{Bytes, bytes_eq}
use xui_agent.Xray.Disk.{
  missing, Request, AppliedState, ErrorCode, ApplyResult, Disk, Env, not_required,
  persistence_failed, unknown, activation_failed,
}
use xui_agent.Xray.Validate.{unreadable}
use xui_agent.Xray.Files.{Step}
use xui_agent.Xray.Prune.{prune_versions}
use xui_agent.Xray.Rollback.{Run, handle, rollback_result, put_applied}
use xui_agent.Xray.Apply.{Plan, activate, finish_apply, link_previous}
use xui_agent.Xray.Upgrade.{
  Guarded, IsUpgrade, upgrade_pending, Live, Midway, At, Safe, midway, new_settled, Concluded,
  upgraded, restored,
}
use xui_agent.Xray.Upgrade.Versions.{IsIntact-remove_other}
use xui_agent.Xray.Upgrade.Pruning.{prune_versions-Triple}
use xui_agent.Xray.Upgrade.Restore.{rollback_result-Triple, valid_applied-length}
use xui_agent.Xray.Upgrade.Steps.{
  write_atomic-Triple, remove_and_sync-Triple, atomic_symlink-Triple, restart_and_wait-Triple,
  handle-Triple, must-Triple,
}
use xui_agent.Io.{bind-Triple, consequence, pure-Triple, syscall-Triple}
use xui_agent.Xray.Upgrade.Installation
use xui_agent.Xray.Upgrade.Installation.{Old-Z, Installed-Z, install-Triple}

-- A live configuration outlives a pruning.
pub prune-Live :
    (env : Env) (a : AppliedState)
    → Guarded (Live env a) prune_versions (λ _. Live env a) (Live env a)
prune-Live env a =
    prune_versions-Triple a.target (Live env a) (λ s h. h.settled.linked)
      (λ t s other h. record {
        settled = record {
          no_pending = h.settled.no_pending;
          linked = h.settled.linked;
          recorded = h.settled.recorded;
          intact = IsIntact-remove_other t other h.settled.intact;
        };
        serves = h.serves;
      })

module _ (env : Env) (q : Request) (a : AppliedState) where
  abbrev target : Bytes
  target = Installation.target env q a

  abbrev n : AppliedState
  n = Installation.n env q a

  abbrev started : ℕ
  started = env.now

  abbrev Z : Disk → Type 0
  Z = Safe env a n started

  abbrev Old : Disk → Type 0
  Old = Live env a

  abbrev plan : Plan env
  plan = Installation.plan env q a

  module _ (is : IsUpgrade a n started)
      (same_digest : bytes_eq (env.sha256_hex q.config) q.config_digest ≡ true) where
    abbrev Switched : Disk → Type 0
    Switched s = At env a n started n a s

    Switched-mid : (s : Disk) → Switched s → Midway env a n started s
    Switched-mid s h = record {
      is_pending = h.is_pending;
      link = inr h.linked;
      state = inl h.recorded;
      old_intact = h.old_intact;
      new_intact = h.new_intact;
    }

    abbrev Recorded : Disk → Type 0
    Recorded s = At env a n started n n s × (s.running ≡ some n.target)

    Recorded-mid : (s : Disk) → Recorded s → Midway env a n started s
    Recorded-mid s h = record {
      is_pending = h.0.is_pending;
      link = inr h.0.linked;
      state = inr h.0.recorded;
      old_intact = h.0.old_intact;
      new_intact = h.0.new_intact;
    }

    rolled :
        (code : ErrorCode)
        → Guarded
            (Midway env a n started)
            (rollback_result env (upgrade_pending a n started) code)
            (Concluded env a n started)
            Z
    rolled code =
        consequence (rollback_result-Triple env a n started is code) (λ s h. h)
          (λ r s h. restored h.0 h.1) (λ _ s h. h) (λ s h. h)

    New-Z : (s : Disk) → Live env n s → Z s
    New-Z s h = new_settled h.settled

    finish-Triple : Guarded Recorded (finish_apply env q target) (Concluded env a n started) Z
    unfolding finish_apply
    finish-Triple =
        bind-Triple
          (must-Triple persistence_failed unknown
            (remove_and_sync-Triple _ (λ s h. midway (Recorded-mid s h)) cleared New-Z))
          λ _.
            bind-Triple
              (must-Triple persistence_failed unknown
                (remove_and_sync-Triple _ New-Z forgotten New-Z))
              λ _.
                bind-Triple
                  (must-Triple persistence_failed not_required
                    (consequence (prune-Live env n) (λ s h. h) (λ _ s h. h) (λ _. New-Z) New-Z))
                  λ _. pure-Triple _ (λ s h. upgraded refl h)
      where
        cleared : (s : Disk) → Recorded s → Live env n (record s { pending = missing })
        cleared s h = record {
          settled = record {
            no_pending = refl;
            linked = h.0.linked;
            recorded = h.0.recorded;
            intact = h.0.new_intact;
          };
          serves = h.1;
        }

        forgotten : (s : Disk) → Live env n s → Live env n (record s { failure = missing })
        forgotten s h = record {
          settled = record {
            no_pending = h.settled.no_pending;
            linked = h.settled.linked;
            recorded = h.settled.recorded;
            intact = h.settled.intact;
          };
          serves = h.serves;
        }

    rerun : (r : Option Bytes) (s : Disk) → Switched s → Switched (record s { running = r })
    rerun r s h = record {
      is_pending = h.is_pending;
      linked = h.linked;
      recorded = h.recorded;
      old_intact = h.old_intact;
      new_intact = h.new_intact;
    }

    abbrev Started : Disk → Type 0
    Started s = Switched s × (s.running ≡ some n.target)

    Started-mid : (s : Disk) → Started s → Midway env a n started s
    Started-mid s h = Switched-mid s h.0

    link_previous-Triple :
        Guarded Started (link_previous env a.target) (λ _. Started) (Midway env a n started)
    link_previous-Triple = rw (valid_applied-length a is.valid_old) (
        consequence (atomic_symlink-Triple {Q = Started} a.target _ renamed) (λ s h. h) (λ _ s h. h)
          (λ _. Started-mid) Started-mid)
      where
        renamed : (s : Disk) → Started s → Started (record s { previous = some a.target })
        renamed s h = (
          record {
            is_pending = h.0.is_pending;
            linked = h.0.linked;
            recorded = h.0.recorded;
            old_intact = h.0.old_intact;
            new_intact = h.0.new_intact;
          },
          h.1,
        )

    record-Triple : Guarded Started (put_applied n) (λ _. Recorded) (Midway env a n started)
    record-Triple =
        write_atomic-Triple _ Started-mid
          (λ s h. (
            record {
              is_pending = h.0.is_pending;
              linked = h.0.linked;
              recorded = refl;
              old_intact = h.0.old_intact;
              new_intact = h.0.new_intact;
            },
            h.1,
          ))
          Recorded-mid unreadable

    -- A step that leaves a pending upgrade where it fails: a failure is rolled back.
    or_rolled :
        {A : Type 0} {P : Disk → Type 0} {M : A → Disk → Type 0} {m : Step A}
        {rest : A → Run ApplyResult} (code : ErrorCode)
        → Guarded P m M (Midway env a n started)
        → ((x : A) → Guarded (M x) (rest x) (Concluded env a n started) Z)
        → Guarded P
            (handle m (λ e. rollback_result env (upgrade_pending a n started) code) rest)
            (Concluded env a n started)
            Z
    or_rolled code t k =
        handle-Triple (consequence t (λ s h. h) (λ _ s h. h) (λ _ s h. h) (λ s h. midway h))
          (λ e. rolled code) k

    pub activate-Triple :
        Guarded Switched (activate env q plan target) (Concluded env a n started) Z
    unfolding activate
    activate-Triple =
        or_rolled persistence_failed (syscall-Triple unreadable Switched-mid Switched-mid) λ _.
          or_rolled activation_failed
            (restart_and_wait-Triple n.target (λ s h. h.linked) rerun Switched-mid)
            λ _.
              or_rolled persistence_failed link_previous-Triple
                λ _. or_rolled persistence_failed record-Triple λ _. finish-Triple
