-- ===== src/Xray/Upgrade/Pruning.antt =====
-- Pruning keeps the version file that the link names.
use xui_agent.Prelude.{
  ◌≡◌, refl, true, false, ◌==◌, some, List, [], ◌∷◌, ◌++◌, length, All, All-map,
}
use xui_agent.Spool.Bytes.{Bytes, bytes_eq}
use xui_agent.Xray.Disk.{Disk, VersionFile, remove_version}
use xui_agent.Xray.Validate.{unreadable}
use xui_agent.Xray.Files.{read_target}
use xui_agent.Links.{reads-keep, found-keep, optional_linked-Triple, read_target-Triple}
use xui_agent.Retention.{member, to_remove, sort_entries}
use xui_agent.Xray.Prune.{
  protected_targets, remove_versions, remove_unprotected, prune_versions, retained_versions,
  version_entries,
}
use xui_agent.Xray.Reading.{
  read_target-Reads, load_applied-Reads, load_pending-Reads, optional-Reads,
}
use xui_agent.Xray.Upgrade.{Guarded}
use xui_agent.Xray.Upgrade.Versions.{to_remove-unprotected, member-other, bytes_eq_refl}
use xui_agent.Io.{
  Triple, bind-Triple, given-Triple, pure-Triple, attempt-Triple, syscall-Triple, modify-Triple,
  Reads-Triple, if-Reads, syscall-Reads, pure-Reads, gets-Reads,
}

module _ (target : Bytes) (P : Disk → Type 0)
    (linked : (s : Disk) → P s → s.current ≡ some target) where
  pub read_current-Triple :
      Triple P
        (read_target (λ d. d.current))
        (λ t s. (t ≡ target) × P s)
        (λ e s. (e ≡ unreadable) × P s)
        P
  read_current-Triple = read_target-Triple target P (λ d. d.current) linked

  protected_targets-Triple : Guarded P protected_targets (λ l s. (member target l ≡ true) × P s) P
  unfolding protected_targets member
  protected_targets-Triple = bind-Triple (attempt-Triple read_current-Triple) λ c.
      bind-Triple (optional_linked-Triple target P (λ d. d.current) linked c) λ l.
        bind-Triple (found-keep (l ≡ target ∷ []) (read_target-Reads _)) λ p.
          bind-Triple (reads-keep (l ≡ target ∷ []) (optional-Reads p _)) λ l'.
            bind-Triple (found-keep (l ≡ target ∷ []) load_applied-Reads) λ a.
              bind-Triple (reads-keep (l ≡ target ∷ []) (optional-Reads a _)) λ l''.
                bind-Triple (found-keep (l ≡ target ∷ []) load_pending-Reads) λ q.
                  bind-Triple (reads-keep (l ≡ target ∷ []) (optional-Reads q _)) λ r.
                    pure-Triple (l ++ (l' ++ (l'' ++ r)))
                      (λ s h. (rw h.0 (rw (bytes_eq_refl target) refl), h.1))

  module _
      (stable : (t : Bytes) (s : Disk)
        → bytes_eq t target ≡ false
        → P s
        → P (record s { versions = remove_version t s.versions })) where
    remove_versions-Triple :
        (ts : List Bytes)
        → All (λ t. bytes_eq t target ≡ false) ts
        → Guarded P (remove_versions ts) (λ _. P) P
    unfolding remove_versions
    remove_versions-Triple [] hs = pure-Triple tt (λ s h. h)
    remove_versions-Triple (t ∷ ts) hs =
        bind-Triple (syscall-Triple unreadable (λ s h. h) (λ s h. h)) λ _.
          bind-Triple (modify-Triple _ (λ s h. stable t s hs.0 h))
            λ _. remove_versions-Triple ts hs.1

    remove_unprotected-Triple :
        (es : List (Bytes × VersionFile)) (l : List Bytes)
        → Guarded (λ s. (member target l ≡ true) × P s) (remove_unprotected es l) (λ _. P) P
    unfolding remove_unprotected
    remove_unprotected-Triple es l = given-Triple (λ protected.
        let victims = to_remove retained_versions l (sort_entries (version_entries es)) in
        let others =
          All-map (λ t h. member-other t target l protected h) victims
            (to_remove-unprotected retained_versions l (sort_entries (version_entries es))) in
        bind-Triple (remove_versions-Triple victims others) (λ _.
          Reads-Triple (if-Reads (length victims == 0) (pure-Reads tt) (syscall-Reads unreadable))))

    -- Whatever holds of the disk, and names the target as the current one, outlives a pruning.
    pub prune_versions-Triple : Guarded P prune_versions (λ _. P) P
    unfolding prune_versions
    prune_versions-Triple = bind-Triple (syscall-Triple unreadable (λ s h. h) (λ s h. h)) λ _.
        bind-Triple (Reads-Triple (gets-Reads (λ d. d.versions)))
          λ es. bind-Triple protected_targets-Triple (λ l. remove_unprotected-Triple es l)
