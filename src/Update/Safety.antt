-- ===== src/Update/Safety.antt =====
-- Installing another version of the agent: whenever the link names it, the pending state says how to
-- go back.
use xui_agent.Prelude.{
  ◌≡◌, refl, ◌∙◌, sym, false, Option, none, some, List, ◌∷◌, ◌++◌, Outcome, ok, err,
}
use xui_agent.Spool.Bytes.{Bytes, bytes_eq}
use xui_agent.Versions.{find_version-put_version, find_version-change_version}
use xui_agent.Links.{read_link-Triple}
use xui_agent.Update.Disk.{
  holds, LoadError, not_exist, unreadable, Pending, VersionDirectory, Disk, Env, find_version,
  put_version, remove_version, change_version, version_directory, agent_target,
}
use xui_agent.Update.Install.{
  Step, prune_versions, no_pending, link, try_remove, fill_directory, place_candidate, pending_of,
  switch_agent, activate_agent, install, install_local, empty_directory, make_directory,
  add_leftover, drop_leftover, place_binary,
}
use xui_agent.Io.{
  syscall, World, Meets, Guarded, Triple, Either, Reads-Triple, attempt-Reads, bind-Triple,
  consequence, given-Triple, pure-Triple, raise-Triple, gets-Triple, attempt-Triple, check-Triple,
  syscall-Triple, modify-Triple, handle-Triple,
}
use xui_agent.Update.Pruning.{
  HasBinary, HasBinary-put_other, HasBinary-change_other, HasBinary-remove_other,
  load_pending-Reads, prune_versions-Triple,
}

abbrev pub release_name : Env → Bytes → Bytes → Bytes
release_name env version content = version ++ (b'-' ∷ env.sha256_hex content)

module _ (env : Env) (command version content prev directory old : Bytes) where
  abbrev pub name : Bytes
  name = release_name env version content

  abbrev pub target : Bytes
  target = agent_target name

  -- The link is the old one, and its binary is there; nothing is pending, or the update is.
  pub record Unswitched (d : Disk) : Type 0 where
    pub linked : d.current ≡ some prev
    pub old_binary : HasBinary directory old d.versions

  -- The link is the new one; both binaries are there, and the pending state and the link `previous`
  -- say how to go back.
  pub record Switched (d : Disk) : Type 0 where
    pub linked : d.current ≡ some target
    pub is_pending : d.pending ≡ holds (pending_of env command version prev target)
    pub way_back : d.previous ≡ some prev
    pub old_binary : HasBinary directory old d.versions
    pub new_binary : HasBinary name content d.versions

  pub data Safe (d : Disk) : Type 0 where
    unswitched : Unswitched d → Safe d
    switched : Switched d → Safe d

  abbrev Placed : Disk → Type 0
  Placed d = Unswitched d × HasBinary name content d.versions

  module _ (other : bytes_eq name directory ≡ false) where
    kept :
        (s : Disk) (vs : List (Bytes × VersionDirectory))
        → Unswitched s
        → HasBinary directory old vs
        → Unswitched (record s { versions = vs })
    kept s vs h k = record { linked = h.linked; old_binary = k }

    changed :
        (f : VersionDirectory → VersionDirectory) (s : Disk)
        → Unswitched s
        → Unswitched (record s { versions = change_version name f s.versions })
    changed f s h =
        kept s (change_version name f s.versions) h
          (HasBinary-change_other name other h.old_binary f)

    -- The directory is there, whatever it holds.
    record Made (s : Disk) : Type 0 where
      old_kept : Unswitched s
      made : VersionDirectory
      found : find_version name s.versions ≡ some made

    make-Made :
        (found : Option VersionDirectory) (s : Disk)
        → (found ≡ find_version name s.versions) × Unswitched s
        → Made (make_directory env name found s)
    make-Made none s h = record {
      old_kept =
          kept s (put_version name (empty_directory env) s.versions) h.1
            (HasBinary-put_other name other h.1.old_binary (empty_directory env));
      made = empty_directory env;
      found = find_version-put_version name (empty_directory env) s.versions;
    }
    make-Made (some v) s h = record { old_kept = h.1; made = v; found = sym h.0 }

    change-Made :
        (f : VersionDirectory → VersionDirectory) (s : Disk)
        → Made s
        → Made (record s { versions = change_version name f s.versions })
    change-Made f s h = record {
      old_kept = changed f s h.old_kept;
      made = f h.made;
      found = find_version-change_version name f h.made s.versions h.found;
    }

    place-Placed :
        (s : Disk)
        → Made s
        → Placed (record s { versions = change_version name (place_binary env content) s.versions })
    place-Placed s h = (
      changed (place_binary env content) s h.old_kept,
      record {
        directory = place_binary env content h.made;
        found =
            find_version-change_version name (place_binary env content) h.made s.versions h.found;
        same = refl;
        runs = refl;
      },
    )

    fill_directory-Triple :
        Triple Made (fill_directory env name version content) (λ _. Placed) (λ _. Made) Unswitched
    unfolding fill_directory
    fill_directory-Triple = bind-Triple (called) λ _. bind-Triple called λ _.
        bind-Triple (check-Triple _ unreadable (λ s h. h))
          λ _. given-Triple λ _. bind-Triple called λ _. modify-Triple _ place-Placed
      where
        called : Triple Made (syscall unreadable) (λ _. Made) (λ _. Made) Unswitched
        called = syscall-Triple unreadable (λ s h. h) (λ s h. h.old_kept)

    -- A best effort leaves what its step leaves.
    try-Triple :
        {P Z : Disk → Type 0} (remove : Disk → Disk)
        → ((s : Disk) → P s → P (remove s))
        → ((s : Disk) → P s → Z s)
        → Guarded P (try_remove remove) (λ _. P) Z
    unfolding try_remove
    try-Triple {P = P} remove step safe =
        bind-Triple
          (consequence
            (attempt-Triple {Q = λ _. P} {R = λ _. P} (
              bind-Triple (syscall-Triple unreadable (λ s h. h) safe)
                (λ _. modify-Triple remove step)))
            (λ s h. h) either (λ _ s h. safe s h) (λ s h. h))
          (λ _. pure-Triple tt (λ s h. h))
      where
        either : (r : Outcome LoadError (Unit {0})) (s : Disk) → Either (λ _. P) (λ _. P) r s → P s
        either (ok u) s h = h
        either (err e) s h = h

    place_candidate-Triple :
        Guarded Unswitched (place_candidate env name version content) (λ _. Placed) Unswitched
    unfolding place_candidate
    place_candidate-Triple = bind-Triple (syscall-Triple unreadable (λ s h. h) (λ s h. h)) λ _.
        bind-Triple (gets-Triple (λ d. find_version name d.versions)) λ found.
          bind-Triple (modify-Triple {Q = λ _. Made} _ (make-Made found)) λ _.
            bind-Triple (syscall-Triple unreadable (λ s h. h.old_kept) (λ s h. h.old_kept)) λ _.
              bind-Triple (modify-Triple {Q = λ _. Made} _ (change-Made (add_leftover env))) λ _.
                handle-Triple fill_directory-Triple
                  (λ e.
                    bind-Triple
                      (try-Triple {P = Made} _ (change-Made (drop_leftover env))
                        (λ s h. h.old_kept))
                      (λ _. raise-Triple e (λ s h. h.old_kept)))
                  (λ _. syscall-Triple unreadable (λ s h. h.0) (λ s h. h.0))

    abbrev Noted : Disk → Type 0
    Noted d = Placed d × (d.previous ≡ some prev)

    Noted-Safe : (s : Disk) → Noted s → Safe s
    Noted-Safe s h = unswitched h.0.0

    Placed-Safe : (s : Disk) → Placed s → Safe s
    Placed-Safe s h = unswitched h.0

    abbrev Ready : Disk → Type 0
    Ready d = Noted d × (d.pending ≡ holds (pending_of env command version prev target))

    aside : (s s' : Disk) → s'.current ≡ s.current → s'.versions ≡ s.versions → Placed s → Placed s'
    aside s s' e f h =
        (record { linked = e ∙ h.0.linked; old_binary = rw f h.0.old_binary }, rw f h.1)

    switch_agent-Triple :
        Guarded Placed
          (switch_agent env command version prev target)
          (λ v s. (v ≡ version) × Switched s)
          Safe
    unfolding switch_agent link
    switch_agent-Triple =
        bind-Triple
          (bind-Triple (syscall-Triple unreadable Placed-Safe Placed-Safe)
            (λ _. modify-Triple {Q = λ _. Noted} _ (λ s h. (aside s _ refl refl h, refl))))
          λ _.
            bind-Triple
              (try-Triple {P = Noted} _ (λ s h. (aside s _ refl refl h.0, h.1)) Noted-Safe)
              λ _. bind-Triple (syscall-Triple unreadable Noted-Safe Noted-Safe) λ _.
                bind-Triple
                  (modify-Triple {Q = λ _. Ready} _ (λ s h. ((aside s _ refl refl h.0, h.1), refl)))
                  λ _.
                    handle-Triple
                      (bind-Triple
                        (syscall-Triple {R = λ _. Noted} unreadable (λ s h. h.0)
                          (λ s h. Noted-Safe s h.0))
                        (λ _. modify-Triple {Q = λ _. Switched} _ linked_new))
                      (λ e.
                        bind-Triple
                          (try-Triple {P = Noted} _ (λ s h. (aside s _ refl refl h.0, h.1))
                            Noted-Safe)
                          (λ _. raise-Triple e Noted-Safe))
                      (λ _.
                        bind-Triple (syscall-Triple unreadable (λ s. switched) (λ s. switched))
                          (λ _. pure-Triple version (λ s h. (refl, h))))
      where
        linked_new : (s : Disk) → Ready s → Switched (record s { current = some target })
        linked_new s h = record {
          linked = refl;
          is_pending = h.1;
          way_back = h.0.1;
          old_binary = h.0.0.0.old_binary;
          new_binary = h.0.0.1;
        }

    module _ (fresh : bytes_eq prev target ≡ false) where
      activate_agent-Triple :
          Guarded Placed
            (activate_agent env command version target)
            (λ v s. (v ≡ version) × Switched s)
            Safe
      unfolding activate_agent
      activate_agent-Triple =
          bind-Triple
            (consequence (read_link-Triple prev Placed (λ d. d.current) (λ s h. h.0.linked))
              (λ s h. h) (λ _ s h. h) (λ _ s h. Placed-Safe s h.1) Placed-Safe)
            λ p. given-Triple λ e.
              bind-Triple (syscall-Triple unreadable Placed-Safe Placed-Safe) λ _.
                bind-Triple (check-Triple (env.managed p) unreadable Placed-Safe)
                  λ _. given-Triple (λ _. rw (e, fresh) switch_agent-Triple)

      none_pending :
          (found : Outcome LoadError Pending)
          → Guarded Unswitched (no_pending found) (λ _. Unswitched) Safe
      unfolding no_pending
      none_pending (ok p) = raise-Triple unreadable (λ s. unswitched)
      none_pending (err not_exist) = pure-Triple tt (λ s h. h)
      none_pending (err unreadable) = raise-Triple unreadable (λ s. unswitched)

      module _ (named : version_directory prev ≡ some directory) where
        prune-Triple : Guarded Unswitched prune_versions (λ _. Unswitched) Unswitched
        prune-Triple =
            prune_versions-Triple prev directory named Unswitched (λ s h. h.linked)
              (λ t f s differs h.
                kept s (change_version t f s.versions) h
                  (HasBinary-change_other t differs h.old_binary f))
              (λ t s differs h.
                kept s (remove_version t s.versions) h
                  (HasBinary-remove_other t differs h.old_binary))

        early :
            {A : Type 0} {m : Step A} {Q : A → Disk → Type 0}
            → Guarded Unswitched m Q Unswitched
            → Guarded Unswitched m Q Safe
        early t = consequence t (λ s h. h) (λ _ s h. h) (λ _ s. unswitched) (λ s. unswitched)

        install-Triple :
            Guarded Unswitched
              (install env command version content)
              (λ v s. (v ≡ version) × Switched s)
              Safe
        unfolding install
        install-Triple =
            bind-Triple (early (Reads-Triple (attempt-Reads load_pending-Reads))) λ found.
              bind-Triple (none_pending found) λ _.
                bind-Triple (early prune-Triple)
                  λ _. bind-Triple (early place_candidate-Triple) (λ _. activate_agent-Triple)

        pub install_local-Triple :
            Guarded Unswitched
              (install_local env command version content)
              (λ v s. (v ≡ version) × Switched s)
              Safe
        unfolding install_local
        install_local-Triple = bind-Triple (check-Triple _ unreadable (λ s. unswitched)) λ _.
            given-Triple λ _. bind-Triple (check-Triple _ unreadable (λ s. unswitched)) λ _.
              given-Triple λ _.
                bind-Triple (check-Triple _ unreadable (λ s. unswitched))
                  λ _. given-Triple (λ _. install-Triple)

-- Let the link name an installed version, and another one be installed from a local binary. Under every
-- schedule of failing system calls and of the kill of the process: if `InstallLocal` returns, it returns
-- the version, and the link names the new binary; and if it ends in an error or is killed the link is
-- still the old one, or it names the new binary. Wherever it names the new binary, that binary is
-- installed, the old one is still there, and the pending state and the link `previous` name the old one.
pub install_local-Safe :
    (env : Env) (command version content prev directory old : Bytes) (w : World Disk)
    → version_directory prev ≡ some directory
    → bytes_eq (release_name env version content) directory ≡ false
    → bytes_eq prev (agent_target (release_name env version content)) ≡ false
    → Unswitched env command version content prev directory old w.state
    → Meets
        (λ v s. (v ≡ version) × Switched env command version content prev directory old s)
        (λ _. Safe env command version content prev directory old)
        (Safe env command version content prev directory old)
        (install_local env command version content w).0
        (install_local env command version content w).1.state
install_local-Safe env command version content prev directory old w named other fresh start =
    (install_local-Triple env command version content prev directory old other fresh named).at w
      start
