-- ===== src/Binary/Apply.antt =====
-- `Apply` of internal/xrayupdate/manager.go: a release is looked up, downloaded, checked, installed.
use xui_agent.Prelude.{
  ℕ, Bool, ◌||◌, not, Option, none, some, List, length, ltb, ◌==◌, Outcome, ok, err,
}
use xui_agent.Spool.Bytes.{Bytes, bytes_eq}
use xui_agent.Classified.{must}
use xui_agent.Binary.Manifest.{
  Manifest, Artifact, Entry, max_archive_bytes, valid_version, checked_manifest, select_artifact,
}
use xui_agent.Binary.Disk.{UpdateResult, Env, validation_failed, preparation_failed, not_required}
use xui_agent.Binary.Bundle.{Step, unreadable}
use xui_agent.Binary.Install.{Run, install_archive}
use xui_agent.Io.{◌>>=◌, ◌>>◌, pure, raise, syscall, check}

-- The archive that a download gives: its size and digest, and the entries that zip reads from it.
pub record Archive : Type 0 where
  pub size : ℕ
  pub digest : Bytes
  pub entries : List Entry

-- What the release client returns: the manifest of a version, or of the latest release, as the strict
-- decoder reads it; and the archive of a version, of at most the artifact's size.
pub record Releases : Type 0 where
  pub goos : Bytes
  pub goarch : Bytes
  pub manifest_of : Bytes → Option (Option Manifest)
  pub archive_of : Bytes → ℕ → Option Archive

module _ (env : Env) (releases : Releases) where
  open releases use {goos, goarch, manifest_of, archive_of}

  abbrev downloaded : {A : Type 0} → Option A → Step A
  downloaded none = raise unreadable
  downloaded (some a) = pure a

  abbrev accepted : {A F : Type 0} → Outcome F A → Step A
  accepted (ok a) = pure a
  accepted (err e) = raise unreadable

  abbrev secure : ℕ → Bool
  secure size = not (size == 0 || ltb max_archive_bytes size)

  unfoldable pub install_downloaded : Bytes → Manifest → Artifact → Archive → Run UpdateResult
  unfolding install_archive
  install_downloaded command m a archive = do
    must validation_failed not_required (check (archive.size == a.size) unreadable)
    must validation_failed not_required (check (bytes_eq archive.digest a.sha256) unreadable)
    must preparation_failed not_required (syscall unreadable)
    install_archive env command m.version m.xray_version archive.digest (secure archive.size)
        archive.entries

  -- The preparation of the download directory is four system calls.
  unfoldable pub apply_manifest : Bytes → Bytes → Manifest → Run UpdateResult
  unfolding select_artifact install_downloaded
  apply_manifest command version m = do
    must validation_failed not_required
        (check (length version == 0 || bytes_eq version m.version) unreadable)
    a ← must validation_failed not_required (accepted (select_artifact goos goarch m))
    must preparation_failed not_required (syscall unreadable)
    archive ← must validation_failed not_required (downloaded (archive_of m.version a.size))
    install_downloaded command m a archive

  unfoldable pub apply_release : Bytes → Bytes → Run UpdateResult
  unfolding valid_version checked_manifest apply_manifest
  apply_release command version = do
    must preparation_failed not_required
        (check (not (length command == 0 || ltb 256 (length command))) unreadable)
    must preparation_failed not_required
        (check (length version == 0 || valid_version version) unreadable)
    raw ← must validation_failed not_required (downloaded (manifest_of version))
    m ← must validation_failed not_required (accepted (checked_manifest raw))
    apply_manifest command version m
