-- ===== src/Binary/Bundle.antt =====
-- The bundles below versions, internal/xrayupdate/manager.go: how they are written, verified and
-- removed.
unfoldable pub use xui_agent.Links.{present}
pub use xui_agent.Io.{LoadError, not_exist, unreadable}
use xui_agent.Prelude.{
  ℕ, Bool, true, false, ◌&&◌, ◌||◌, not, Option, none, some, List, [], ◌∷◌, ◌++◌, length, ltb, ◌==◌,
  if◌then◌else◌,
}
use xui_agent.Spool.Bytes.{Bytes, bytes_eq}
use xui_agent.Xray.Digits.{is_hex, all_bytes}
use xui_agent.Xray.Target.{validate_target, versions_prefix}
use xui_agent.Binary.Manifest.{
  Entry, required_files, valid_version, entry_limit, is_required, xray_name,
}
use xui_agent.Binary.Disk.{
  missing, holds, BundleState, BundleFile, Bundle, Disk, Env, find_version, put_version,
  remove_version, change_version,
}
use xui_agent.Io.{Io, ◌>>=◌, ◌>>◌, pure, raise, gets, modify, syscall, check, decoded}

-- An error of these functions is a file that does not exist or any other error.
abbrev pub Step : Type 0 → Type 0
Step A = Io Disk LoadError A

-- 0o700 for the binary, 0o600 for the data files.
abbrev pub wanted_mode : Bytes → ℕ
wanted_mode name = if bytes_eq name xray_name then 448 else 384

abbrev pub bundle_name : Bytes → Bytes → Bytes
bundle_name version digest = version ++ (b'-' ∷ digest)

abbrev pub bundle_target : Bytes → Bytes → Bytes
bundle_target version digest = versions_prefix ++ bundle_name version digest

-- What `loadVerifiedTarget` asks of a bundle's state; its name is `filepath.Base(target)`.
unfoldable pub valid_bundle_state : Bytes → BundleState → Bool
valid_bundle_state target s =
    (valid_version s.version
      && valid_version s.xray_version
      && length s.archive_digest == 64
      && length s.digests == length required_files)
    && all_bytes is_hex s.archive_digest
    && bytes_eq target (bundle_target s.version s.archive_digest)

-- Copying to the temporary directory: the files so far, and their digests.
pub record Written : Type 0 where
  pub files : List (Bytes × BundleFile)
  pub digests : List (Bytes × Bytes)

module _ (env : Env) where
  open env use {sha256_hex, now}

  -- The tests of `hashBundleFile`.
  unfoldable pub secure_file : Bytes → BundleFile → Bool
  unfolding entry_limit
  secure_file name f =
      f.regular
      && f.mode == wanted_mode name
      && not (length f.content == 0 || ltb (entry_limit name) (length f.content))

  unfoldable pub hash_bundle_file : Bytes → Option BundleFile → Step Bytes
  unfolding secure_file
  hash_bundle_file name found = do
    syscall unreadable
    f ← present found
    syscall unreadable
    check (secure_file name f) unreadable
    pure (sha256_hex f.content)

  -- The loop over the required files.
  unfoldable pub verify_files : Bundle → BundleState → List Bytes → Step (Unit {0})
  unfolding hash_bundle_file
  verify_files b s [] = pure tt
  verify_files b s (name ∷ names) = do
    want ← present (find_version name s.digests)
    check (length want == 64) unreadable
    got ← hash_bundle_file name (find_version name b.files)
    check (bytes_eq got want) unreadable
    verify_files b s names

  unfoldable pub load_verified_target : Bytes → Step BundleState
  unfolding verify_files
  load_verified_target target = do
    check (validate_target target) unreadable
    syscall unreadable
    found ← gets (λ d. find_version target d.versions)
    b ← present found
    check b.secure unreadable
    syscall unreadable
    s ← decoded b.state
    check (valid_bundle_state target s) unreadable
    verify_files b s required_files
    pure s

  abbrev pub fresh_entry : Entry → BundleFile
  fresh_entry e = record { content = e.content; regular = true; mode = wanted_mode e.name }

  abbrev pub add_entry : Entry → Written → Written
  add_entry e w = record {
    files = put_version e.name (fresh_entry e) w.files;
    digests = put_version e.name (sha256_hex e.content) w.digests;
  }

  -- copyBundleEntry: the stream has the declared size, within the limit.
  unfoldable pub copy_entry : Entry → Step (Unit {0})
  copy_entry e = do
    syscall unreadable
    check (length e.content == e.size && not (ltb (entry_limit e.name) (length e.content)))
        unreadable

  -- writeBundleEntry: an existing file is an error of `os.O_EXCL`.
  unfoldable pub write_entry : Entry → Written → Option BundleFile → Step Written
  unfolding copy_entry
  write_entry e w (some f) = raise unreadable
  write_entry e w none = do
    syscall unreadable
    copy_entry e
    syscall unreadable
    pure (add_entry e w)

  -- The loop of `installBundleArchive`.
  unfoldable pub write_entries : List Entry → Written → Step Written
  unfolding write_entry
  write_entries [] w = pure w
  write_entries (e ∷ es) w =
      let later : Written → Step Written = (λ w'. write_entries es w') in
      if is_required e.name
      then write_entry e w (find_version e.name w.files) >>= later
      else copy_entry e >> later w

  unfoldable pub check_digests : List (Bytes × Bytes) → List Bytes → Bool
  check_digests digests [] = true
  check_digests digests (name ∷ names) =
      (elim (find_version name digests) [ none ↦ false | some d ↦ length d == 64 ])
      && check_digests digests names

  abbrev pub new_bundle : Bytes → Bytes → Bytes → Written → Bundle
  new_bundle version xray_version digest w = record {
    secure = true;
    state = holds (record {
      version = version;
      xray_version = xray_version;
      archive_digest = digest;
      digests = w.digests;
    });
    files = w.files;
    mod_time = now;
  }

  -- A new bundle: everything is written under a temporary name, and renamed.
  unfoldable pub write_bundle : Bytes → Bytes → Bytes → List Entry → Step Bytes
  unfolding write_entries check_digests
  write_bundle version xray_version digest entries = do
    syscall unreadable
    syscall unreadable
    w ← write_entries entries (record { files = []; digests = [] })
    check (check_digests w.digests required_files) unreadable
    syscall unreadable
    syscall unreadable
    let target = bundle_target version digest
    modify (λ d. record d {
      versions = put_version target (new_bundle version xray_version digest w) d.versions;
    })
    syscall unreadable
    pure target

  abbrev pub same_release : Bytes → Bytes → Bytes → BundleState → Bool
  same_release version xray_version digest s =
      bytes_eq s.version version
      && bytes_eq s.xray_version xray_version
      && bytes_eq s.archive_digest digest

  unfoldable pub install_bundle_over :
      Bytes → Bytes → Bytes → List Entry → Option Bundle → Step Bytes
  unfolding write_bundle load_verified_target
  install_bundle_over version xray_version digest entries none =
      write_bundle version xray_version digest entries
  install_bundle_over version xray_version digest entries (some b) = do
    s ← load_verified_target (bundle_target version digest)
    check (same_release version xray_version digest s) unreadable
    pure (bundle_target version digest)

  -- `installBundleFiles` with the files of an archive.
  unfoldable pub install_bundle : Bytes → Bytes → Bytes → List Entry → Step Bytes
  unfolding install_bundle_over
  install_bundle version xray_version digest entries = do
    syscall unreadable
    found ← gets (λ d. find_version (bundle_target version digest) d.versions)
    install_bundle_over version xray_version digest entries found

abbrev drop_file : Bytes → Bundle → Bundle
drop_file name b = record b { files = remove_version name b.files }

-- removeBundleDirectory: file by file, then the directory.
unfoldable pub remove_files : Bytes → List Bytes → Step (Unit {0})
remove_files target [] = pure tt
remove_files target (name ∷ names) = do
  syscall unreadable
  modify (λ d. record d { versions = change_version target (drop_file name) d.versions })
  remove_files target names

unfoldable pub remove_bundle : Bytes → Step (Unit {0})
unfolding remove_files
remove_bundle target = do
  remove_files target required_files
  syscall unreadable
  modify (λ d. record d {
    versions = change_version target (λ b. record b { state = missing }) d.versions;
  })
  syscall unreadable
  modify (λ d. record d { versions = remove_version target d.versions })
