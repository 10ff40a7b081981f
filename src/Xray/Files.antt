-- ===== src/Xray/Files.antt =====
-- The state files, links and version files of internal/xrayruntime/manager.go.
unfoldable pub use xui_agent.Io.{remove_and_sync}
unfoldable pub use xui_agent.Links.{present, read_target}
use xui_agent.Prelude.{
  ℕ, Bool, true, false, ◌&&◌, ◌||◌, not, Option, none, some, length, ◌==◌, if◌then◌else◌,
}
use xui_agent.Spool.Bytes.{Bytes, bytes_eq}
use xui_agent.Xray.Digits.{is_hex, all_bytes}
use xui_agent.Xray.Target.{validate_target, target_metadata, version_target, repair_target}
use xui_agent.Xray.Disk.{
  Request, AppliedState, PendingState, VersionFile, Disk, Env, find_version, put_version,
}
use xui_agent.Xray.Validate.{LoadError, unreadable, load_file, write_atomic}
use xui_agent.Io.{Io, ◌>>=◌, ◌>>◌, pure, raise, gets, modify, syscall, check}

-- An error of these functions is a file that does not exist or any other error.
abbrev pub Step : Type 0 → Type 0
Step A = Io Disk LoadError A

-- validateAppliedState
unfoldable pub valid_applied : AppliedState → Bool
valid_applied a =
    not (a.config_version == 0)
    && length a.config_digest == 64
    && not (a.applied_at == 0)
    && all_bytes is_hex a.config_digest
    && validate_target a.target

abbrev pub has_metadata : Bytes → ℕ → Bytes → Bool
has_metadata target version digest = elim (target_metadata target) [
  | none ↦ false
  | some m ↦ m.0 == version && bytes_eq m.1 digest
]

abbrev pub valid_rollback : Bytes → Option AppliedState → Bool
valid_rollback previous none = true
valid_rollback previous (some a) =
    not (length previous == 0) && bytes_eq a.target previous && valid_applied a

-- The tests of `loadPending`.
unfoldable pub valid_pending : PendingState → Bool
valid_pending p =
    (not (p.config_version == 0) && length p.config_digest == 64 && not (p.started_at == 0))
    && validate_target p.command_target
    && has_metadata p.command_target p.config_version p.config_digest
    && (length p.previous_target == 0 || validate_target p.previous_target)
    && valid_rollback p.previous_target p.previous_applied

unfoldable pub load_applied : Step AppliedState
load_applied = do a ← load_file (λ d. d.applied); check (valid_applied a) unreadable; pure a

unfoldable pub load_pending : Step PendingState
load_pending = do p ← load_file (λ d. d.pending); check (valid_pending p) unreadable; pure p

-- `os.Symlink` under a temporary name and its rename.
unfoldable pub atomic_symlink : Bytes → (Disk → Disk) → Step (Unit {0})
atomic_symlink target put = do
  check (validate_target target) unreadable
  syscall unreadable
  modify put

module _ (env : Env) where
  open env use {sha256_hex, now, stamp}

  unfoldable pub verify_config_target : Bytes → Bytes → Step (Unit {0})
  unfolding present
  verify_config_target target digest = do
    check (validate_target target) unreadable
    syscall unreadable
    found ← gets (λ d. find_version target d.versions)
    f ← present found
    syscall unreadable
    check f.regular unreadable
    check (bytes_eq (sha256_hex f.content) digest) unreadable

  unfoldable pub verify_applied_target : AppliedState → Step (Unit {0})
  unfolding verify_config_target
  verify_applied_target a = do
    check (valid_applied a) unreadable
    check (has_metadata a.target a.config_version a.config_digest) unreadable
    verify_config_target a.target a.config_digest

  unfoldable pub verify_applied : AppliedState → Step (Unit {0})
  unfolding verify_applied_target
  verify_applied a = do
    current ← read_target (λ d. d.current)
    check (bytes_eq current a.target) unreadable
    verify_applied_target a

  unfoldable pub require_metadata : Option (ℕ × Bytes) → Step (ℕ × Bytes)
  require_metadata none = raise unreadable
  require_metadata (some m) = pure m

  unfoldable pub applied_state_for_target : Bytes → Step AppliedState
  unfolding require_metadata verify_config_target present
  applied_state_for_target target = do
    m ← require_metadata (target_metadata target)
    verify_config_target target m.1
    syscall unreadable
    found ← gets (λ d. find_version target d.versions)
    f ← present found
    pure (record {
      config_version = m.0;
      config_digest = m.1;
      target = target;
      applied_at = if f.mod_time == 0 then 1 else f.mod_time;
    })

  -- `rollbackAppliedState`
  unfoldable pub rollback_applied_state : PendingState → Step AppliedState
  unfolding verify_applied_target applied_state_for_target
  rollback_applied_state p = elim p.previous_applied [
    | none ↦ applied_state_for_target p.previous_target
    | some a ↦ do
      check (bytes_eq a.target p.previous_target) unreadable
      verify_applied_target a
      pure a
  ]

  abbrev pub fresh_file : Bytes → VersionFile
  fresh_file content = record { content = content; regular = true; mod_time = now }

  unfoldable pub write_version : Bytes → Bytes → Step Bytes
  write_version target content = do
    write_atomic unreadable
        (λ d. record d { versions = put_version target (fresh_file content) d.versions })
    pure target

  abbrev pub is_intact : Request → VersionFile → Bool
  is_intact q f =
      (bytes_eq (sha256_hex f.content) q.config_digest && bytes_eq f.content q.config) && f.regular

  abbrev pub write_repair : Request → Step Bytes
  write_repair q = write_version (repair_target q.config_version q.config_digest stamp) q.config

  -- What `installVersion` does with the version file that it finds, or does not find.
  unfoldable pub install_over : Request → Bool → Option VersionFile → Step Bytes
  unfolding write_version
  install_over q repair none =
      if repair
      then write_repair q
      else write_version (version_target q.config_version q.config_digest) q.config
  install_over q repair (some f) = do
    syscall unreadable
    let target = version_target q.config_version q.config_digest
    let rewrite = if repair then write_repair q else raise unreadable
    if is_intact q f then pure target else rewrite

  unfoldable pub install_version : Request → Bool → Step Bytes
  unfolding install_over
  install_version q repair = do
    syscall unreadable
    syscall unreadable
    syscall unreadable
    found ← gets (λ d. find_version (version_target q.config_version q.config_digest) d.versions)
    install_over q repair found
