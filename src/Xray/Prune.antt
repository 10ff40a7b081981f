-- ===== src/Xray/Prune.antt =====
-- `pruneVersions` of internal/xrayruntime/manager.go: old version files are removed, but for the five
-- newest and those that a link or a state file names.
use xui_agent.Prelude.{
  ℕ, Bool, true, false, ◌&&◌, none, some, List, [], ◌∷◌, ◌++◌, length, ◌==◌, if◌then◌else◌,
}
use xui_agent.Spool.Bytes.{Bytes}
use xui_agent.Links.{optional}
use xui_agent.Retention.{Stamped, sort_entries, member, to_remove}
use xui_agent.Xray.Target.{target_metadata}
use xui_agent.Xray.Disk.{PendingState, VersionFile, remove_version}
use xui_agent.Xray.Validate.{unreadable}
use xui_agent.Xray.Files.{Step, read_target, load_applied, load_pending}
use xui_agent.Io.{◌>>=◌, ◌>>◌, pure, gets, attempt, modify, syscall}

abbrev pub retained_versions : ℕ
retained_versions = 5

-- A version file that is listed, with its modification time.
abbrev pub is_version : Bytes × VersionFile → Bool
is_version (t, f) = (elim (target_metadata t) [ none ↦ false | some _ ↦ true ]) && f.regular

unfoldable pub version_entries : List (Bytes × VersionFile) → List Stamped
version_entries [] = []
version_entries ((t, f) ∷ xs) =
    let rest = version_entries xs in if is_version (t, f) then (t, f.mod_time) ∷ rest else rest

abbrev pub pending_targets : PendingState → List Bytes
pending_targets p =
    p.command_target ∷ (if length p.previous_target == 0 then [] else p.previous_target ∷ [])

unfoldable pub protected_targets : Step (List Bytes)
protected_targets = do
  c ← attempt (read_target (λ d. d.current))
  current ← optional c (λ t. t ∷ [])
  p ← attempt (read_target (λ d. d.previous))
  previous ← optional p (λ t. t ∷ [])
  a ← attempt load_applied
  applied ← optional a (λ s. s.target ∷ [])
  q ← attempt load_pending
  pending ← optional q pending_targets
  pure (current ++ (previous ++ (applied ++ pending)))

unfoldable pub remove_versions : List Bytes → Step (Unit {0})
remove_versions [] = pure tt
remove_versions (t ∷ ts) = do
  syscall unreadable
  modify (λ d. record d { versions = remove_version t d.versions })
  remove_versions ts

unfoldable pub remove_unprotected : List (Bytes × VersionFile) → List Bytes → Step (Unit {0})
unfolding sort_entries version_entries to_remove remove_versions member
remove_unprotected entries protected = do
  let victims = to_remove retained_versions protected (sort_entries (version_entries entries))
  remove_versions victims
  if length victims == 0 then pure tt else syscall unreadable

-- A directory of versions that does not exist lists as empty.
unfoldable pub prune_versions : Step (Unit {0})
unfolding protected_targets remove_unprotected
prune_versions = do
  syscall unreadable
  entries ← gets (λ d. d.versions)
  protected ← protected_targets
  remove_unprotected entries protected
