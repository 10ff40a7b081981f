-- ===== src/Binary/Upgrade/Installation.antt =====
-- `installBundleFiles` in an update: the new bundle is written whole, or an intact one is found.
use xui_agent.Prelude.{
  arith, ◌≡◌, refl, true, false, ◌==◌, Option, none, some, List, [], ◌∷◌, length, All,
}
use xui_agent.Spool.Bytes.{Bytes, bytes_eq}
use xui_agent.Versions.{bytes_eq_refl, find_version-put_version}
use xui_agent.Binary.Manifest.{Entry, required_files}
use xui_agent.Binary.Disk.{AppliedState, BundleState, Bundle, Disk, Env, find_version, put_version}
use xui_agent.Binary.Bundle.{
  Written, unreadable, bundle_target, valid_bundle_state, check_digests, new_bundle, same_release,
  write_bundle, install_bundle_over, install_bundle,
}
use xui_agent.Binary.Files.{valid_applied}
use xui_agent.Binary.Install.{applied_of}
use xui_agent.Binary.Upgrade.{IsListed, IsIntact, Settled}
use xui_agent.Binary.Upgrade.Writing.{
  IsConsistent, empty-IsConsistent, IsNonempty, write_entries-Triple,
}
use xui_agent.Binary.Upgrade.Bundles.{load_verified_target-Triple, IsIntact-put_other}
use xui_agent.Io.{
  Guarded, bind-Triple, consequence, given-Triple, pure-Triple, syscall-Triple, check-Triple,
  modify-Triple, gets-Triple, syscall,
}

module _ (env : Env) (b : Bundle) (s : BundleState) (w : Written) (k : IsConsistent env w)
    (same_files : b.files ≡ w.files) (same_digests : s.digests ≡ w.digests) where
  digest-IsListed :
      (name : Bytes) (found : Option Bytes)
      → find_version name w.digests ≡ found
      → (elim found [ none ↦ false | some d ↦ length d == 64 ]) ≡ true
      → IsListed env b s name
  digest-IsListed name none e h = absurd (ground (arith, h))
  digest-IsListed name (some d) e h = record {
    want = d;
    recorded = rw (same_digests, e) refl;
    long = h;
    verified =
        let v = k.verified name d e in
        record {
          file = v.file;
          there = rw (same_files, v.there) refl;
          secure = v.secure;
          digest = v.digest;
        };
  }

  check_digests-IsListed :
      (names : List Bytes) → check_digests env w.digests names ≡ true → All (IsListed env b s) names
  unfolding check_digests
  check_digests-IsListed [] h = tt
  check_digests-IsListed (name ∷ names) h = (
    digest-IsListed name (find_version name w.digests) refl (ground (arith, h)),
    check_digests-IsListed names (ground (arith, h)),
  )

  complete_count :
      All (IsListed env b s) required_files → (length s.digests == length required_files) ≡ true
  complete_count hs =
      ground (arith, same_digests, k.all_counted, hs.0.recorded, hs.1.0.recorded, hs.1.1.0.recorded)

module _ (env : Env) (version xray_version digest : Bytes) (entries : List Entry)
    (a : AppliedState) where
  abbrev pub target : Bytes
  target = bundle_target version digest

  abbrev pub n : AppliedState
  n = applied_of env version xray_version digest target

  abbrev Old : Disk → Type 0
  Old = Settled env a

  abbrev pub Installed : Disk → Type 0
  Installed s = Old s × IsIntact env n s.versions

  module _ (valid : valid_applied n ≡ true) (other : bytes_eq target a.target ≡ false)
      (nonempty : All IsNonempty entries) where
    abbrev bundle : Written → Bundle
    bundle w = new_bundle env version xray_version digest w

    abbrev state : Written → BundleState
    state w = record {
      version = version;
      xray_version = xray_version;
      archive_digest = digest;
      digests = w.digests;
    }

    new_valid :
        (w : Written)
        → (length w.digests == length required_files) ≡ true
        → valid_bundle_state target (state w) ≡ true
    unfolding valid_bundle_state valid_applied
    new_valid w h = ground (arith, valid, h, bytes_eq_refl target)

    written :
        (w : Written) (s : Disk)
        → IsConsistent env w
        → check_digests env w.digests required_files ≡ true
        → Old s
        → Installed (record s { versions = put_version target (bundle w) s.versions })
    written w s k h old =
        let listed =
          check_digests-IsListed env (bundle w) (state w) w k refl refl required_files h in
        (
          record {
            no_pending = old.no_pending;
            linked = old.linked;
            recorded = old.recorded;
            intact = IsIntact-put_other target other old.intact (bundle w);
          },
          record {
            state = state w;
            is_bundle = record {
              bundle = bundle w;
              found = find_version-put_version target (bundle w) s.versions;
              is_secure = refl;
              stored = refl;
              valid = new_valid w (complete_count env (bundle w) (state w) w k refl refl listed);
              complete = listed;
            };
            same =
                ground
                  (arith, bytes_eq_refl version, bytes_eq_refl xray_version, bytes_eq_refl digest);
          },
        )

    write_bundle-Triple :
        Guarded Old
          (write_bundle env version xray_version digest entries)
          (λ t s. (t ≡ target) × Installed s)
          Old
    unfolding write_bundle
    write_bundle-Triple = bind-Triple (called) λ _. bind-Triple called λ _.
        bind-Triple
          (write_entries-Triple env entries (record { files = []; digests = [] }) nonempty
            (empty-IsConsistent env))
          λ w. given-Triple λ k. bind-Triple (check-Triple _ unreadable (λ s h. h)) λ _.
            given-Triple λ h. bind-Triple called λ _. bind-Triple called λ _.
              bind-Triple (modify-Triple _ (λ s old. written w s k h old)) λ _.
                bind-Triple (syscall-Triple unreadable (λ s h. h.0) (λ s h. h.0))
                  (λ _. pure-Triple target (λ s h. (refl, h)))
      where
        called : Guarded Old (syscall unreadable) (λ _. Old) Old
        called = syscall-Triple unreadable (λ s h. h) (λ s h. h)

    install_bundle_over-Triple :
        (found : Option Bundle)
        → Guarded Old
            (install_bundle_over env version xray_version digest entries found)
            (λ t s. (t ≡ target) × Installed s)
            Old
    unfolding install_bundle_over
    install_bundle_over-Triple none = write_bundle-Triple
    install_bundle_over-Triple (some b) =
        bind-Triple (load_verified_target-Triple env Old target) λ s.
          bind-Triple
            (check-Triple (same_release env version xray_version digest s) unreadable (λ d h. h.1))
            λ _. given-Triple λ same.
              pure-Triple target
                (λ d h. (refl, (h.1, record { state = s; is_bundle = h.0; same = same })))

    pub install_bundle-Triple :
        Guarded Old
          (install_bundle env version xray_version digest entries)
          (λ t s. (t ≡ target) × Installed s)
          Old
    unfolding install_bundle
    install_bundle-Triple = bind-Triple (syscall-Triple unreadable (λ s h. h) (λ s h. h)) λ _.
        bind-Triple (gets-Triple (λ d. find_version target d.versions)) λ found.
          consequence (install_bundle_over-Triple found) (λ s h. h.1) (λ _ s h. h) (λ _ s h. h)
            (λ s h. h)
