-- ===== src/Update/Install.antt =====
-- `install`, `Confirm` and `pruneVersions` of internal/update/manager.go.
use xui_agent.Prelude.{
  ℕ, suc, ◌-◌, Bool, true, false, ◌&&◌, ◌||◌, not, Option, none, some, List, [], ◌∷◌, ◌++◌, length,
  ltb, ◌==◌, if◌then◌else◌, Outcome, ok, err,
}
use xui_agent.Spool.Bytes.{Bytes, bytes_eq}
use xui_agent.Links.{present, read_link}
use xui_agent.Retention.{Stamped, sort_entries, member, to_remove}
use xui_agent.Binary.Manifest.{valid_version, max_binary_bytes}
use xui_agent.Update.Disk.{
  missing, holds, LoadError, not_exist, unreadable, Pending, VersionDirectory, Disk, Env,
  find_version, put_version, remove_version, change_version, version_directory, agent_target,
}
use xui_agent.Io.{
  Io, ◌>>=◌, ◌>>◌, pure, raise, gets, attempt, modify, syscall, check, load_file, handle,
}

abbrev pub Step : Type 0 → Type 0
Step A = Io Disk LoadError A

abbrev pub valid_pending : Pending → Bool
valid_pending p =
    not (length p.command_id == 0 || length p.previous_target == 0 || length p.target_target == 0)

-- `Pending` and `Failed`, which are readState of two files.
unfoldable pub load_pending : Step Pending
load_pending = do p ← load_file (λ d. d.pending); check (valid_pending p) unreadable; pure p

unfoldable pub load_failed : Step Pending
load_failed = do p ← load_file (λ d. d.failed); check (valid_pending p) unreadable; pure p

abbrev remove_pending : Step (Unit {0})
remove_pending = do syscall unreadable; modify (λ d. record d { pending = missing })

unfoldable pub confirm_found : Bytes → Outcome LoadError Pending → Step (Unit {0})
confirm_found version (err not_exist) = pure tt
confirm_found version (err unreadable) = raise unreadable
confirm_found version (ok p) = do
  check (bytes_eq p.target_version version) unreadable
  remove_pending
  syscall unreadable

-- `Confirm`
unfoldable pub confirm_version : Bytes → Step (Unit {0})
unfolding confirm_found
confirm_version version = do found ← attempt load_pending; confirm_found version found

-- The directory of a link that is there.
unfoldable pub linked_directory : Bytes → Step Bytes
linked_directory target = present (version_directory target)

unfoldable pub protected_directory : Outcome LoadError Bytes → Step (List Bytes)
unfolding linked_directory
protected_directory (ok target) = do name ← linked_directory target; pure (name ∷ [])
protected_directory (err not_exist) = pure []
protected_directory (err unreadable) = raise unreadable

unfoldable pub protected_directories : Step (List Bytes)
unfolding protected_directory
protected_directories = do
  c ← attempt {F = LoadError} (read_link (λ d. d.current))
  current ← protected_directory c
  p ← attempt {F = LoadError} (read_link (λ d. d.previous))
  previous ← protected_directory p
  pure (current ++ previous)

-- A directory that holds nothing but an executable binary.
abbrev pub is_complete : VersionDirectory → Bool
is_complete v = v.leftovers == 0 && (elim v.binary [ none ↦ false | some _ ↦ true ]) && v.executable

unfoldable pub installed_directories : List (Bytes × VersionDirectory) → Step (List Stamped)
installed_directories [] = pure []
installed_directories ((name, v) ∷ rest) = do
  syscall unreadable
  syscall unreadable
  later ← installed_directories rest
  pure (if is_complete v then (name, v.mod_time) ∷ later else later)

unfoldable pub remove_directories : List Bytes → Step (Unit {0})
remove_directories [] = pure tt
remove_directories (name ∷ names) = do
  syscall unreadable
  modify (λ d. record d {
    versions = change_version name (λ v. record v { binary = none }) d.versions;
  })
  syscall unreadable
  modify (λ d. record d { versions = remove_version name d.versions })
  remove_directories names

abbrev pub retained_versions : ℕ
retained_versions = 3

unfoldable pub remove_unprotected : List Bytes → List Stamped → Step (Unit {0})
unfolding sort_entries to_remove remove_directories member
remove_unprotected protected entries = do
  let victims = to_remove retained_versions protected (sort_entries entries)
  remove_directories victims
  if length victims == 0 then pure tt else syscall unreadable

-- A directory of versions that does not exist lists as empty.
unfoldable pub prune_versions : Step (Unit {0})
unfolding protected_directories installed_directories remove_unprotected
prune_versions = do
  syscall unreadable
  directories ← gets (λ d. d.versions)
  protected ← protected_directories
  entries ← installed_directories directories
  remove_unprotected protected entries

unfoldable pub no_pending : Outcome LoadError Pending → Step (Unit {0})
no_pending (ok p) = raise unreadable
no_pending (err not_exist) = pure tt
no_pending (err unreadable) = raise unreadable

-- `os.Symlink` under a temporary name and its rename.
unfoldable pub link : (Disk → Disk) → Step (Unit {0})
link put = do syscall unreadable; modify put

-- A best effort: `_ = os.Remove(path)`.
unfoldable pub try_remove : (Disk → Disk) → Step (Unit {0})
try_remove remove = do attempt {F = LoadError} (do syscall unreadable; modify remove); pure tt

module _ (env : Env) where
  open env use {sha256_hex, reports, managed, now}

  abbrev pub empty_directory : VersionDirectory
  empty_directory = record { binary = none; executable = false; leftovers = 0; mod_time = now }

  -- `os.MkdirAll`
  abbrev pub make_directory : Bytes → Option VersionDirectory → Disk → Disk
  make_directory name none d = record d { versions = put_version name empty_directory d.versions }
  make_directory name (some v) d = d

  abbrev pub change_directory : Bytes → (VersionDirectory → VersionDirectory) → Disk → Disk
  change_directory name f d = record d { versions = change_version name f d.versions }

  abbrev pub add_leftover : VersionDirectory → VersionDirectory
  add_leftover v = record v { leftovers = suc v.leftovers }

  abbrev pub drop_leftover : VersionDirectory → VersionDirectory
  drop_leftover v = record v { leftovers = v.leftovers - 1 }

  abbrev pub place_binary : Bytes → VersionDirectory → VersionDirectory
  place_binary content v = record {
    binary = some content;
    executable = true;
    leftovers = v.leftovers - 1;
    mod_time = now;
  }

  -- The candidate is written, run, and renamed.
  unfoldable pub fill_directory : Bytes → Bytes → Bytes → Step (Unit {0})
  fill_directory name version content = do
    syscall unreadable
    syscall unreadable
    check (bytes_eq (reports content) version) unreadable
    syscall unreadable
    modify (change_directory name (place_binary content))

  -- The deferred removal of the temporary file is for a candidate that was not renamed.
  unfoldable pub place_candidate : Bytes → Bytes → Bytes → Step (Unit {0})
  unfolding fill_directory try_remove
  place_candidate name version content = do
    syscall unreadable
    found ← gets (λ d. find_version name d.versions)
    modify (make_directory name found)
    syscall unreadable
    modify (change_directory name add_leftover)
    handle (fill_directory name version content)
        (λ e. do try_remove (change_directory name drop_leftover); raise e)
        (λ _. syscall unreadable)

  abbrev pub pending_of : Bytes → Bytes → Bytes → Bytes → Pending
  pending_of command version previous target = record {
    command_id = command;
    previous_target = previous;
    target_target = target;
    target_version = version;
    started_at = now;
  }

  -- Behind the candidate: the previous target and the pending state are written, then the link.
  unfoldable pub switch_agent : Bytes → Bytes → Bytes → Bytes → Step Bytes
  unfolding link try_remove
  switch_agent command version previous target = do
    link (λ d. record d { previous = some previous })
    try_remove (λ d. record d { failed = missing })
    syscall unreadable
    modify (λ d. record d { pending = holds (pending_of command version previous target) })
    handle (link (λ d. record d { current = some target }))
        (λ e. do try_remove (λ d. record d { pending = missing }); raise e)
        (λ _. do syscall unreadable; pure version)

  unfoldable pub activate_agent : Bytes → Bytes → Bytes → Step Bytes
  unfolding switch_agent
  activate_agent command version target = do
    previous ← read_link (λ d. d.current)
    syscall unreadable
    check (managed previous) unreadable
    if bytes_eq previous target then pure version else switch_agent command version previous target

  -- `install`
  unfoldable pub install : Bytes → Bytes → Bytes → Step Bytes
  unfolding no_pending place_candidate activate_agent
  install command version content = do
    found ← attempt {F = LoadError} load_pending
    no_pending found
    prune_versions
    let name = version ++ (b'-' ∷ sha256_hex content)
    place_candidate name version content
    activate_agent command version (agent_target name)

  -- `InstallLocal`
  unfoldable pub install_local : Bytes → Bytes → Bytes → Step Bytes
  unfolding install valid_version
  install_local command version content = do
    check (not (length command == 0 || ltb 256 (length command))) unreadable
    check (valid_version version) unreadable
    check (not (length content == 0 || ltb max_binary_bytes (length content))) unreadable
    install command version content
