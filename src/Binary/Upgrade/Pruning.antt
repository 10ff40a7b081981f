-- ===== src/Binary/Upgrade/Pruning.antt =====
-- Pruning keeps the bundle that the link names.
use xui_agent.Prelude.{
  ℕ, ◌≡◌, refl, true, false, ◌==◌, some, List, [], ◌∷◌, ◌++◌, length, Outcome, ok, err, All,
  All-map,
}
use xui_agent.Spool.Bytes.{Bytes, bytes_eq}
use xui_agent.Versions.{bytes_eq_refl}
use xui_agent.Links.{
  optional-Reads, read_target-Reads, reads-keep, found-keep, optional_linked-Triple,
  read_target-Triple,
}
use xui_agent.Retention.{
  Stamped, member, to_remove, sort_entries, to_remove-unprotected, member-other,
}
use xui_agent.Binary.Manifest.{required_files}
use xui_agent.Binary.Disk.{
  AppliedState, Bundle, BundleState, Disk, Env, remove_version, change_version,
}
use xui_agent.Binary.Bundle.{LoadError, unreadable, remove_files, remove_bundle}
use xui_agent.Binary.Prune.{
  protected_targets, listed, remove_bundles, remove_unprotected, installed_entries, prune_versions,
  retained_versions,
}
use xui_agent.Binary.Upgrade.{Settled, Live, IsIntact}
use xui_agent.Binary.Upgrade.Bundles.{
  load_applied-Reads, load_pending-Reads, load_verified_target-Reads, IsIntact-remove_other,
  IsIntact-change_other,
}
use xui_agent.Io.{
  Guarded, bind-Triple, given-Triple, pure-Triple, attempt-Triple, syscall-Triple, modify-Triple,
  Reads, Reads-Triple, bind-Reads, if-Reads, pure-Reads, syscall-Reads, gets-Reads, attempt-Reads,
}

listed-Reads : (t : Bytes) (m : ℕ) (r : Outcome LoadError BundleState) → Reads (listed t m r)
unfolding listed
listed-Reads t m (ok s) = bind-Reads (syscall-Reads unreadable) (λ _. pure-Reads _)
listed-Reads t m (err e) = pure-Reads []

installed_entries-Reads :
    (env : Env) (bs : List (Bytes × Bundle)) → Reads (installed_entries env bs)
unfolding installed_entries
installed_entries-Reads env [] = pure-Reads []
installed_entries-Reads env ((t, b) ∷ bs) =
    bind-Reads (attempt-Reads (load_verified_target-Reads env t)) λ r.
      bind-Reads (listed-Reads t b.mod_time r)
        λ here. bind-Reads (installed_entries-Reads env bs) (λ later. pure-Reads _)

module _ (target : Bytes) (P : Disk → Type 0)
    (linked : (s : Disk) → P s → s.current ≡ some target) where
  protected_targets-Triple : Guarded P protected_targets (λ l s. (member target l ≡ true) × P s) P
  unfolding protected_targets member
  protected_targets-Triple =
      bind-Triple (attempt-Triple (read_target-Triple target P (λ d. d.current) linked)) λ c.
        bind-Triple (optional_linked-Triple target P (λ d. d.current) linked c) λ l.
          bind-Triple (found-keep (l ≡ target ∷ []) (read_target-Reads _)) λ p.
            bind-Triple (reads-keep (l ≡ target ∷ []) (optional-Reads p _)) λ l'.
              bind-Triple (found-keep (l ≡ target ∷ []) load_applied-Reads) λ a.
                bind-Triple (reads-keep (l ≡ target ∷ []) (optional-Reads a _)) λ l''.
                  bind-Triple (found-keep (l ≡ target ∷ []) load_pending-Reads) λ q.
                    bind-Triple (reads-keep (l ≡ target ∷ []) (optional-Reads q _)) λ r.
                      pure-Triple (l ++ (l' ++ (l'' ++ r)))
                        (λ s h. (rw h.0 (rw (bytes_eq_refl target) refl), h.1))

  module _
      (changed : (t : Bytes) (change : Bundle → Bundle) (s : Disk)
        → bytes_eq t target ≡ false
        → P s
        → P (record s { versions = change_version t change s.versions }))
      (removed : (t : Bytes) (s : Disk)
        → bytes_eq t target ≡ false
        → P s
        → P (record s { versions = remove_version t s.versions })) where
    remove_files-Triple :
        (t : Bytes) (names : List Bytes)
        → bytes_eq t target ≡ false
        → Guarded P (remove_files t names) (λ _. P) P
    unfolding remove_files
    remove_files-Triple t [] other = pure-Triple tt (λ s h. h)
    remove_files-Triple t (name ∷ names) other =
        bind-Triple (syscall-Triple unreadable (λ s h. h) (λ s h. h)) λ _.
          bind-Triple (modify-Triple _ (λ s h. changed t _ s other h))
            λ _. remove_files-Triple t names other

    remove_bundle-Triple :
        (t : Bytes) → bytes_eq t target ≡ false → Guarded P (remove_bundle t) (λ _. P) P
    unfolding remove_bundle
    remove_bundle-Triple t other = bind-Triple (remove_files-Triple t required_files other) λ _.
        bind-Triple (syscall-Triple unreadable (λ s h. h) (λ s h. h)) λ _.
          bind-Triple (modify-Triple _ (λ s h. changed t _ s other h)) λ _.
            bind-Triple (syscall-Triple unreadable (λ s h. h) (λ s h. h))
              λ _. modify-Triple _ (λ s h. removed t s other h)

    remove_bundles-Triple :
        (ts : List Bytes)
        → All (λ t. bytes_eq t target ≡ false) ts
        → Guarded P (remove_bundles ts) (λ _. P) P
    unfolding remove_bundles
    remove_bundles-Triple [] hs = pure-Triple tt (λ s h. h)
    remove_bundles-Triple (t ∷ ts) hs =
        bind-Triple (remove_bundle-Triple t hs.0) (λ _. remove_bundles-Triple ts hs.1)

    remove_unprotected-Triple :
        (l : List Bytes) (es : List Stamped)
        → member target l ≡ true
        → Guarded P (remove_unprotected l es) (λ _. P) P
    unfolding remove_unprotected
    remove_unprotected-Triple l es protected =
        let victims = to_remove retained_versions l (sort_entries es) in
        let others =
          All-map (λ t h. member-other t target l protected h) victims
            (to_remove-unprotected retained_versions l (sort_entries es)) in
        bind-Triple (remove_bundles-Triple victims others) (λ _.
          Reads-Triple (if-Reads (length victims == 0) (pure-Reads tt) (syscall-Reads unreadable)))

    -- Whatever holds of the disk, and names the target as the current one, outlives a pruning.
    pub prune_versions-Triple : (env : Env) → Guarded P (prune_versions env) (λ _. P) P
    unfolding prune_versions
    prune_versions-Triple env = bind-Triple (syscall-Triple unreadable (λ s h. h) (λ s h. h)) λ _.
        bind-Triple (Reads-Triple (gets-Reads (λ d. d.versions))) λ bs.
          bind-Triple protected_targets-Triple λ l. given-Triple λ protected.
            bind-Triple (Reads-Triple (installed_entries-Reads env bs))
              λ es. remove_unprotected-Triple l es protected

settled_versions :
    {env : Env} {a : AppliedState} (s : Disk) (vs : List (Bytes × Bundle))
    → Settled env a s
    → IsIntact env a vs
    → Settled env a (record s { versions = vs })
settled_versions s vs h k = record {
  no_pending = h.no_pending;
  linked = h.linked;
  recorded = h.recorded;
  intact = k;
}

-- A settled bundle outlives a pruning.
pub prune-Settled :
    (env : Env) (a : AppliedState)
    → Guarded (Settled env a) (prune_versions env) (λ _. Settled env a) (Settled env a)
prune-Settled env a =
    prune_versions-Triple a.target (Settled env a) (λ s h. h.linked)
      (λ t change s other h.
        settled_versions s (change_version t change s.versions) h
          (IsIntact-change_other t other h.intact change))
      (λ t s other h.
        settled_versions s (remove_version t s.versions) h (IsIntact-remove_other t other h.intact))
      env

pub prune-Live :
    (env : Env) (a : AppliedState)
    → Guarded (Live env a) (prune_versions env) (λ _. Live env a) (Live env a)
prune-Live env a =
    prune_versions-Triple a.target (Live env a) (λ s h. h.0.linked)
      (λ t change s other h. (
        settled_versions s (change_version t change s.versions) h.0
            (IsIntact-change_other t other h.0.intact change),
        h.1,
      ))
      (λ t s other h. (
        settled_versions s (remove_version t s.versions) h.0
            (IsIntact-remove_other t other h.0.intact),
        h.1,
      ))
      env
