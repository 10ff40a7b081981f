-- ===== src/Update/Pruning.antt =====
-- Pruning keeps the directory of the version that the link names.
use xui_agent.Prelude.{
  arith, ◌≡◌, refl, ap, ◌∙◌, true, false, ◌==◌, Option, none, some, List, [], ◌∷◌, ◌++◌, length,
  Outcome, ok, err, All, All-map,
}
use xui_agent.Spool.Bytes.{Bytes, bytes_eq}
use xui_agent.Versions.{
  bytes_eq_refl, find_version-put_other, find_version-change_other, find_version-remove_other,
}
use xui_agent.Links.{
  present, present-Reads, read_link-Reads, read_link-Triple, reads-keep, found-keep,
}
use xui_agent.Retention.{
  Stamped, member, to_remove, sort_entries, to_remove-unprotected, member-other,
}
use xui_agent.Update.Disk.{
  LoadError, not_exist, unreadable, VersionDirectory, Disk, find_version, put_version,
  remove_version, change_version, version_directory,
}
use xui_agent.Update.Install.{
  load_pending, linked_directory, protected_directory, protected_directories, installed_directories,
  remove_directories, remove_unprotected, prune_versions, retained_versions,
}
use xui_agent.Io.{
  ◌>>=◌, pure, Guarded, Either, Reads, Reads-Triple, bind-Reads, pure-Reads, raise-Reads, if-Reads,
  syscall-Reads, gets-Reads, check-Reads, load_file-Reads, bind-Triple, given-Triple, pure-Triple,
  raise-Triple, attempt-Triple, syscall-Triple, modify-Triple,
}

-- A version's directory holds the binary.
pub record HasBinary (name content : Bytes) (versions : List (Bytes × VersionDirectory))
    : Type 0 where
  pub directory : VersionDirectory
  pub found : find_version name versions ≡ some directory
  pub same : directory.binary ≡ some content
  pub runs : directory.executable ≡ true

module _ {name content : Bytes} {vs : List (Bytes × VersionDirectory)} (other : Bytes)
    (differs : bytes_eq other name ≡ false) (h : HasBinary name content vs) where
  pub HasBinary-put_other : (v : VersionDirectory) → HasBinary name content (put_version other v vs)
  HasBinary-put_other v = record {
    directory = h.directory;
    found = find_version-put_other other v name vs differs ∙ h.found;
    same = h.same;
    runs = h.runs;
  }

  pub HasBinary-change_other :
      (f : VersionDirectory → VersionDirectory) → HasBinary name content (change_version other f vs)
  HasBinary-change_other f = record {
    directory = h.directory;
    found = find_version-change_other other name f vs differs ∙ h.found;
    same = h.same;
    runs = h.runs;
  }

  pub HasBinary-remove_other : HasBinary name content (remove_version other vs)
  HasBinary-remove_other = record {
    directory = h.directory;
    found = find_version-remove_other other name vs differs ∙ h.found;
    same = h.same;
    runs = h.runs;
  }

pub load_pending-Reads : Reads load_pending
unfolding load_pending
load_pending-Reads =
    bind-Reads (load_file-Reads (λ d. d.pending))
      (λ p. bind-Reads (check-Reads _ unreadable) (λ _. pure-Reads p))

protected_directory-Reads : (r : Outcome LoadError Bytes) → Reads (protected_directory r)
unfolding protected_directory linked_directory
protected_directory-Reads (ok t) =
    bind-Reads (present-Reads (version_directory t)) (λ name. pure-Reads _)
protected_directory-Reads (err not_exist) = pure-Reads []
protected_directory-Reads (err unreadable) = raise-Reads unreadable

installed-Reads : (ds : List (Bytes × VersionDirectory)) → Reads (installed_directories ds)
unfolding installed_directories
installed-Reads [] = pure-Reads []
installed-Reads ((name, v) ∷ ds) = bind-Reads (syscall-Reads unreadable) λ _.
    bind-Reads (syscall-Reads unreadable)
      λ _. bind-Reads (installed-Reads ds) (λ later. pure-Reads _)

-- Pruning keeps the directory of the current link.
module _ (prev directory : Bytes) (named : version_directory prev ≡ some directory)
    (P : Disk → Type 0) (linked : (s : Disk) → P s → s.current ≡ some prev)
    (changed : (t : Bytes) (f : VersionDirectory → VersionDirectory) (s : Disk)
      → bytes_eq t directory ≡ false
      → P s
      → P (record s { versions = change_version t f s.versions }))
    (removed : (t : Bytes) (s : Disk)
      → bytes_eq t directory ≡ false
      → P s
      → P (record s { versions = remove_version t s.versions })) where
  named-Triple :
      (found : Option Bytes)
      → found ≡ some directory
      → Guarded P (do x ← present found; pure (x ∷ [])) (λ l s. (l ≡ directory ∷ []) × P s) P
  unfolding present
  named-Triple none e = absurd (ground (arith, e))
  named-Triple (some x) e =
      bind-Triple (pure-Triple {Q = λ y s. (y ≡ directory) × P s} x (λ s h. (ground (arith, e), h)))
        (λ y. pure-Triple (y ∷ []) (λ s h. (ap (λ z. z ∷ []) h.0, h.1)))

  current-Triple :
      (c : Outcome LoadError Bytes)
      → Guarded
          (λ s. Either (λ t s'. (t ≡ prev) × P s') (λ e s'. (e ≡ unreadable) × P s') c s)
          (protected_directory c)
          (λ l s. (l ≡ directory ∷ []) × P s)
          P
  unfolding protected_directory linked_directory
  current-Triple (ok t) =
      given-Triple (λ e. named-Triple (version_directory t) (ap version_directory e ∙ named))
  current-Triple (err not_exist) = given-Triple (λ e. absurd (ground (arith, e)))
  current-Triple (err unreadable) = raise-Triple unreadable (λ s h. h.1)

  protected-Triple : Guarded P protected_directories (λ l s. (member directory l ≡ true) × P s) P
  unfolding protected_directories member
  protected-Triple =
      bind-Triple (attempt-Triple (read_link-Triple prev P (λ d. d.current) linked)) λ c.
        bind-Triple (current-Triple c) λ l.
          bind-Triple (found-keep (l ≡ directory ∷ []) (read_link-Reads _)) λ p.
            bind-Triple (reads-keep (l ≡ directory ∷ []) (protected_directory-Reads p))
              λ l'. pure-Triple (l ++ l') (λ s h. (rw h.0 (rw (bytes_eq_refl directory) refl), h.1))

  remove_directories-Triple :
      (ts : List Bytes)
      → All (λ t. bytes_eq t directory ≡ false) ts
      → Guarded P (remove_directories ts) (λ _. P) P
  unfolding remove_directories
  remove_directories-Triple [] hs = pure-Triple tt (λ s h. h)
  remove_directories-Triple (t ∷ ts) hs =
      bind-Triple (syscall-Triple unreadable (λ s h. h) (λ s h. h)) λ _.
        bind-Triple (modify-Triple _ (λ s h. changed t _ s hs.0 h)) λ _.
          bind-Triple (syscall-Triple unreadable (λ s h. h) (λ s h. h)) λ _.
            bind-Triple (modify-Triple _ (λ s h. removed t s hs.0 h))
              λ _. remove_directories-Triple ts hs.1

  remove_unprotected-Triple :
      (l : List Bytes) (es : List Stamped)
      → member directory l ≡ true
      → Guarded P (remove_unprotected l es) (λ _. P) P
  unfolding remove_unprotected
  remove_unprotected-Triple l es protected =
      let victims = to_remove retained_versions l (sort_entries es) in
      let others =
        All-map (λ t h. member-other t directory l protected h) victims
          (to_remove-unprotected retained_versions l (sort_entries es)) in
      bind-Triple (remove_directories-Triple victims others) (λ _.
        Reads-Triple (if-Reads (length victims == 0) (pure-Reads tt) (syscall-Reads unreadable)))

  pub prune_versions-Triple : Guarded P prune_versions (λ _. P) P
  unfolding prune_versions
  prune_versions-Triple = bind-Triple (syscall-Triple unreadable (λ s h. h) (λ s h. h)) λ _.
      bind-Triple (Reads-Triple (gets-Reads (λ d. d.versions))) λ ds.
        bind-Triple protected-Triple λ l. given-Triple λ protected.
          bind-Triple (Reads-Triple (installed-Reads ds))
            λ es. remove_unprotected-Triple l es protected
