-- ===== src/Binary/Upgrade/Safety.antt =====
-- `installArchive` in an update, from the archive that was downloaded to its end.
use xui_agent.Prelude.{
  ℕ, ◌+◌, arith, ◌≡◌, refl, Bool, true, false, Option, none, some, List, [], ◌∷◌, Outcome, ok, err,
  All,
}
use xui_agent.Spool.Bytes.{Bytes}
use xui_agent.Versions.{find_version, bytes_eq_sym}
use xui_agent.Binary.Manifest.{
  Entry, ArchiveError, allowed, check_entries, validate_archive, after_entry, with_required,
}
use xui_agent.Binary.Disk.{
  AppliedState, PendingState, Disk, Env, preparation_failed, validation_failed, not_required,
  unknown,
}
use xui_agent.Binary.Bundle.{LoadError, not_exist, unreadable, bundle_target}
use xui_agent.Binary.Files.{valid_applied, load_applied}
use xui_agent.Binary.Install.{
  same_state, no_pending, decide, applied_of, install_prepared, activate_candidate,
  archive_accepted, install_archive,
}
use xui_agent.Binary.Upgrade.{IsUpdate, Settled, Safe, old_settled, Concluded}
use xui_agent.Binary.Upgrade.Writing.{IsNonempty}
use xui_agent.Binary.Upgrade.Bundles.{load_pending-Reads, verify_applied-Reads}
use xui_agent.Binary.Upgrade.Pruning.{prune-Settled}
use xui_agent.Binary.Upgrade.Activation.{switch_to-Triple}
use xui_agent.Binary.Upgrade.Installation
use xui_agent.Binary.Upgrade.Installation.{install_bundle-Triple}
use xui_agent.Classified.{must-Triple, fail_with-Triple}
use xui_agent.Io.{
  Guarded, Meets, World, Triple, Either, bind-Triple, consequence, given-Triple, pure-Triple,
  attempt-Triple, check-Triple, syscall-Triple, Reads-Triple, attempt-Reads, load_file-Triple,
}

-- An archive that is accepted has no empty entry.
after_entry-IsNonempty :
    (limit : Option ℕ) (e : Entry) (expanded : ℕ) (seen : List Bytes)
    (rest : Outcome ArchiveError (List Bytes)) (r : List Bytes)
    → after_entry limit e expanded seen rest ≡ ok r
    → IsNonempty e × (rest ≡ ok r)
after_entry-IsNonempty none e expanded seen rest r h = absurd (ground (arith, h))
after_entry-IsNonempty (some l) e expanded seen rest r h = (ground (arith, h), ground (arith, h))

check_entries-IsNonempty :
    (es : List Entry) (expanded : ℕ) (seen r : List Bytes)
    → check_entries es expanded seen ≡ ok r
    → All IsNonempty es
unfolding check_entries
check_entries-IsNonempty [] expanded seen r h = tt
check_entries-IsNonempty (e ∷ es) expanded seen r h =
    let both =
      after_entry-IsNonempty (find_version e.name allowed) e expanded seen
        (check_entries es (expanded + e.size) (e.name ∷ seen)) r h in
    (both.0, check_entries-IsNonempty es (expanded + e.size) (e.name ∷ seen) r both.1)

with_required-IsNonempty :
    (es : List Entry) (c : Outcome ArchiveError (List Bytes))
    → check_entries es 0 [] ≡ c
    → (elim (with_required c) [ ok _ ↦ true | err _ ↦ false ]) ≡ true
    → All IsNonempty es
with_required-IsNonempty es (ok r) e h = check_entries-IsNonempty es 0 [] r e
with_required-IsNonempty es (err x) e h = absurd (ground (arith, h))

pub accepted-IsNonempty :
    (env : Env) (es : List Entry) → archive_accepted env es ≡ true → All IsNonempty es
unfolding validate_archive
accepted-IsNonempty env es h = with_required-IsNonempty es (check_entries es 0 []) refl h

module _ (env : Env) (command version xray_version digest : Bytes) (entries : List Entry)
    (a : AppliedState) where
  abbrev pub target : Bytes
  target = bundle_target version digest

  abbrev pub n : AppliedState
  n = applied_of env version xray_version digest target

  abbrev Old : Disk → Type 0
  Old = Settled env a

  abbrev Z : Disk → Type 0
  Z = Safe env command a n

  before : (s : Disk) → Old s → Z s
  before s h = old_settled h

  module _ (is : IsUpdate command a n) where
    abbrev Ready : Disk → Type 0
    Ready = Installation.Installed env version xray_version digest entries a

    ready : (s : Disk) → Ready s → Z s
    ready s h = old_settled h.0

    none_pending :
        (found : Outcome LoadError PendingState) → Guarded Old (no_pending env found) (λ _. Old) Z
    unfolding no_pending
    none_pending (ok p) = fail_with-Triple preparation_failed unknown before
    none_pending (err not_exist) = pure-Triple tt (λ s h. h)
    none_pending (err unreadable) = fail_with-Triple preparation_failed unknown before

    differs : same_state env a n ≡ false
    differs = ground (arith, is.other_target, bytes_eq_sym n.target a.target)

    decide-Triple :
        (found : Outcome LoadError AppliedState)
        → Guarded
            (λ s. Either (λ x s'. (x ≡ a) × Ready s') (λ e s'. (e ≡ unreadable) × Ready s') found s)
            (decide env command n found)
            (Concluded env command a n)
            Z
    unfolding decide
    decide-Triple (ok x) = given-Triple λ e.
        rw (e, differs)
          (bind-Triple
            (must-Triple preparation_failed not_required (
              consequence (Reads-Triple (verify_applied-Reads env a)) (λ s h. h) (λ _ s h. h)
                (λ _. ready) ready))
            (λ _. switch_to-Triple env command a n is))
    decide-Triple (err not_exist) = given-Triple (λ e. absurd (ground (arith, e)))
    decide-Triple (err unreadable) =
        fail_with-Triple preparation_failed not_required (λ s h. ready s h.1)

    load-Triple :
        Triple Ready load_applied
          (λ x s. (x ≡ a) × Ready s)
          (λ e s. (e ≡ unreadable) × Ready s)
          Ready
    unfolding load_applied
    load-Triple = bind-Triple (load_file-Triple Ready (λ d. d.applied) a (λ s h. h.0.recorded)) λ x.
        bind-Triple (check-Triple (valid_applied x) unreadable (λ s h. (refl, h.1)))
          λ _. pure-Triple x (λ s h. h.1)

    candidate-Triple :
        Guarded Ready (activate_candidate env command n) (Concluded env command a n) Z
    unfolding activate_candidate
    candidate-Triple =
        bind-Triple
          (must-Triple validation_failed not_required (
            bind-Triple (syscall-Triple unreadable ready ready)
              (λ _. check-Triple _ unreadable ready)))
          λ _. given-Triple λ _.
            bind-Triple
              (consequence (attempt-Triple load-Triple) (λ s h. h) (λ _ s h. h) (λ _ s h. h) ready)
              decide-Triple

    prepared-Triple :
        All IsNonempty entries
        → Guarded Old
            (install_prepared env command version xray_version digest entries)
            (Concluded env command a n)
            Z
    unfolding install_prepared
    prepared-Triple nonempty =
        bind-Triple
          (must-Triple preparation_failed not_required (syscall-Triple unreadable before before))
          λ _.
            bind-Triple
              (consequence (Reads-Triple (attempt-Reads load_pending-Reads)) (λ s h. h) (λ _ s h. h)
                (λ _. before) before)
              λ found. bind-Triple (none_pending found) λ _.
                bind-Triple
                  (must-Triple preparation_failed not_required (
                    consequence (prune-Settled env a) (λ s h. h) (λ _ s h. h) (λ _. before) before))
                  λ _.
                    bind-Triple
                      (must-Triple preparation_failed not_required (
                        consequence
                          (install_bundle-Triple env version xray_version digest entries a
                            is.valid_new is.other_target nonempty)
                          (λ s h. h) (λ _ s h. h) (λ _. before) before))
                      λ t. given-Triple (λ e. rw e candidate-Triple)

    archive-Triple :
        (secure : Bool)
        → Guarded Old
            (install_archive env command version xray_version digest secure entries)
            (Concluded env command a n)
            Z
    unfolding install_archive
    archive-Triple secure =
        bind-Triple
          (must-Triple preparation_failed not_required (syscall-Triple unreadable before before))
          λ _.
            bind-Triple
              (must-Triple validation_failed not_required (check-Triple secure unreadable before))
              λ _. given-Triple λ _.
                bind-Triple
                  (must-Triple validation_failed not_required
                    (syscall-Triple unreadable before before))
                  λ _.
                    bind-Triple
                      (must-Triple validation_failed not_required
                        (check-Triple (archive_accepted env entries) unreadable before))
                      λ _. given-Triple (λ h. prepared-Triple (accepted-IsNonempty env entries h))

-- Let a bundle be applied, with nothing pending, and another release be installed, of an archive with
-- any entries. Under every schedule of failing system calls and of the kill of the process: if
-- `installArchive` returns a success then the new bundle is linked, recorded, intact and not pending,
-- and serves the applied configuration, if there is one; if it returns a failure the old one is and
-- does; and if it ends in an error or is killed the disk holds the old bundle, the new one, or the
-- pending update with both bundles intact.
pub install_archive-Safe :
    (env : Env) (command version xray_version digest : Bytes) (secure : Bool) (entries : List Entry)
    (a : AppliedState) (w : World Disk)
    → IsUpdate command a (n env command version xray_version digest entries a)
    → Settled env a w.state
    → Meets
        (Concluded env command a (n env command version xray_version digest entries a))
        (λ _. Safe env command a (n env command version xray_version digest entries a))
        (Safe env command a (n env command version xray_version digest entries a))
        (install_archive env command version xray_version digest secure entries w).0
        (install_archive env command version xray_version digest secure entries w).1.state
install_archive-Safe env command version xray_version digest secure entries a w is settled =
    (archive-Triple env command version xray_version digest entries a is secure).at w settled
