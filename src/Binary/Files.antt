-- ===== src/Binary/Files.antt =====
-- The state files and links of internal/xrayupdate/manager.go.
unfoldable pub use xui_agent.Io.{load_file, write_atomic, remove_and_sync}
unfoldable pub use xui_agent.Links.{read_link, read_target}
use xui_agent.Prelude.{Bool, true, ◌&&◌, ◌||◌, not, Option, none, some, length, ◌==◌, if◌then◌else◌}
use xui_agent.Spool.Bytes.{Bytes, bytes_eq}
use xui_agent.Xray.Digits.{is_hex, all_bytes}
use xui_agent.Xray.Target.{validate_target}
use xui_agent.Binary.Manifest.{valid_version}
use xui_agent.Binary.Disk.{
  missing, holds, AppliedState, PendingState, UpdateResult, BundleState, Disk, Env,
}
use xui_agent.Binary.Bundle.{Step, unreadable, load_verified_target, same_release}
use xui_agent.Io.{◌>>=◌, ◌>>◌, pure, modify, syscall, check}

-- validateAppliedState
unfoldable pub valid_applied : AppliedState → Bool
valid_applied a =
    (valid_version a.version
      && valid_version a.xray_version
      && length a.archive_digest == 64
      && validate_target a.target)
    && all_bytes is_hex a.archive_digest

abbrev pub valid_rollback : Bytes → Option AppliedState → Bool
valid_rollback previous none = true
valid_rollback previous (some a) =
    not (length previous == 0 || not (bytes_eq a.target previous)) && valid_applied a

-- The tests of `loadPending`.
unfoldable pub valid_pending : PendingState → Bool
valid_pending p =
    (not (length p.command_id == 0)
      && valid_version p.version
      && valid_version p.xray_version
      && length p.archive_digest == 64
      && validate_target p.target)
    && (length p.previous_target == 0 || validate_target p.previous_target)
    && valid_rollback p.previous_target p.previous_applied

unfoldable pub load_applied : Step AppliedState
load_applied = do a ← load_file (λ d. d.applied); check (valid_applied a) unreadable; pure a

unfoldable pub load_pending : Step PendingState
load_pending = do p ← load_file (λ d. d.pending); check (valid_pending p) unreadable; pure p

-- `os.Symlink` under a temporary name, its rename and the sync of the directory.
unfoldable pub atomic_symlink : Bytes → (Disk → Disk) → Step (Unit {0})
atomic_symlink target put = do
  check (validate_target target) unreadable
  syscall unreadable
  modify put
  syscall unreadable

abbrev pub remove_pending : Step (Unit {0})
remove_pending = remove_and_sync (λ d. record d { pending = missing })

abbrev pub remove_failed : Step (Unit {0})
remove_failed = remove_and_sync (λ d. record d { failure = missing })

abbrev pub remove_current : Step (Unit {0})
remove_current = remove_and_sync (λ d. record d { current = none })

abbrev pub remove_applied : Step (Unit {0})
remove_applied = remove_and_sync (λ d. record d { applied = missing })

abbrev pub put_applied : AppliedState → Step (Unit {0})
put_applied a = write_atomic unreadable (λ d. record d { applied = holds a })

abbrev pub put_pending : PendingState → Step (Unit {0})
put_pending p = write_atomic unreadable (λ d. record d { pending = holds p })

abbrev pub put_failure : UpdateResult → Step (Unit {0})
put_failure r = write_atomic unreadable (λ d. record d { failure = holds r })

abbrev pub link_current : Bytes → Step (Unit {0})
link_current target = atomic_symlink target (λ d. record d { current = some target })

abbrev pub link_previous : Bytes → Step (Unit {0})
link_previous target =
    if length target == 0
    then pure tt
    else atomic_symlink target (λ d. record d { previous = some target })

module _ (env : Env) where
  unfoldable pub verify_applied_target : AppliedState → Step (Unit {0})
  unfolding load_verified_target
  verify_applied_target a = do
    check (valid_applied a) unreadable
    s ← load_verified_target env a.target
    check (same_release env a.version a.xray_version a.archive_digest s) unreadable

  unfoldable pub verify_applied : AppliedState → Step (Unit {0})
  unfolding verify_applied_target
  verify_applied a = do
    current ← read_link (λ d. d.current)
    check (bytes_eq current a.target) unreadable
    verify_applied_target a

  -- `Current`
  unfoldable pub current_applied : Step AppliedState
  unfolding load_applied verify_applied
  current_applied = do a ← load_applied; verify_applied a; pure a

  abbrev pub found_state : PendingState → BundleState → AppliedState
  found_state p s = record {
    version = s.version;
    xray_version = s.xray_version;
    archive_digest = s.archive_digest;
    target = p.previous_target;
    applied_at = p.started_at;
  }

  -- `rollbackAppliedState`
  unfoldable pub rollback_applied_state : PendingState → Step AppliedState
  unfolding verify_applied_target
  rollback_applied_state p = elim p.previous_applied [
    | none ↦ do s ← load_verified_target env p.previous_target; pure (found_state p s)
    | some a ↦ do
      check (bytes_eq a.target p.previous_target) unreadable
      verify_applied_target a
      pure a
  ]
