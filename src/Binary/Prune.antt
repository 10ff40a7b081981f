-- ===== src/Binary/Prune.antt =====
-- `pruneVersions` of internal/xrayupdate/manager.go: old bundles are removed, but for the three newest
-- and those that a link or a state file names.
use xui_agent.Prelude.{ℕ, List, [], ◌∷◌, ◌++◌, length, ◌==◌, if◌then◌else◌, Outcome, ok, err}
use xui_agent.Spool.Bytes.{Bytes}
use xui_agent.Links.{optional}
use xui_agent.Retention.{Stamped, sort_entries, member, to_remove}
use xui_agent.Binary.Disk.{BundleState, PendingState, Bundle, Env}
use xui_agent.Binary.Bundle.{Step, LoadError, unreadable, load_verified_target, remove_bundle}
use xui_agent.Binary.Files.{read_target, load_applied, load_pending}
use xui_agent.Io.{◌>>=◌, ◌>>◌, pure, gets, attempt, syscall}

abbrev pub retained_versions : ℕ
retained_versions = 3

abbrev pub pending_targets : PendingState → List Bytes
pending_targets p =
    p.target ∷ (if length p.previous_target == 0 then [] else p.previous_target ∷ [])

unfoldable pub protected_targets : Step (List Bytes)
protected_targets = do
  c ← attempt (read_target (λ d. d.current))
  current ← optional c (λ t. t ∷ [])
  p ← attempt (read_target (λ d. d.previous))
  previous ← optional p (λ t. t ∷ [])
  a ← attempt load_applied
  applied ← optional a (λ s. s.target ∷ [])
  q ← attempt load_pending
  pending ← optional q pending_targets
  pure (current ++ (previous ++ (applied ++ pending)))

-- A directory that does not verify is left out, and left alone.
unfoldable pub listed : Bytes → ℕ → Outcome LoadError BundleState → Step (List Stamped)
listed t m (ok s) = do syscall unreadable; pure ((t, m) ∷ [])
listed t m (err e) = pure []

unfoldable pub remove_bundles : List Bytes → Step (Unit {0})
remove_bundles [] = pure tt
remove_bundles (t ∷ ts) = do remove_bundle t; remove_bundles ts

unfoldable pub remove_unprotected : List Bytes → List Stamped → Step (Unit {0})
unfolding sort_entries to_remove remove_bundles member
remove_unprotected protected entries = do
  let victims = to_remove retained_versions protected (sort_entries entries)
  remove_bundles victims
  if length victims == 0 then pure tt else syscall unreadable

module _ (env : Env) where
  unfoldable pub installed_entries : List (Bytes × Bundle) → Step (List Stamped)
  unfolding listed
  installed_entries [] = pure []
  installed_entries ((t, b) ∷ rest) = do
    r ← attempt (load_verified_target env t)
    here ← listed t b.mod_time r
    later ← installed_entries rest
    pure (here ++ later)

  -- A directory of versions that does not exist lists as empty.
  unfoldable pub prune_versions : Step (Unit {0})
  unfolding protected_targets remove_unprotected installed_entries
  prune_versions = do
    syscall unreadable
    bundles ← gets (λ d. d.versions)
    protected ← protected_targets
    entries ← installed_entries bundles
    remove_unprotected protected entries
