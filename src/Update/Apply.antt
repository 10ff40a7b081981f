-- ===== src/Update/Apply.antt =====
-- `Apply` of internal/update/manager.go: a release is downloaded, checked and installed.
use xui_agent.Prelude.{
  Bool, ◌&&◌, ◌||◌, not, Option, none, some, List, [], ◌∷◌, ◌++◌, length, ◌==◌, Outcome, ok, err,
}
use xui_agent.Spool.Bytes.{Bytes, bytes_eq}
use xui_agent.Xray.Digits.{to_lower}
use xui_agent.Xray.Validate.{clean_digest}
use xui_agent.Binary.Manifest.{Artifact, valid_version}
use xui_agent.Update.Archive.{
  AgentManifest, TarEntry, agent_name, checked_agent_manifest, first_artifact, extract_release,
}
use xui_agent.Update.Disk.{unreadable, Env}
use xui_agent.Update.Install.{install_local, Step}
use xui_agent.Io.{◌>>=◌, ◌>>◌, pure, raise, syscall, check}

-- What the release client returns for an archive: its bytes, and the entries that gzip and tar read.
pub record AgentArchive : Type 0 where
  pub content : Bytes
  pub entries : List TarEntry

-- What the release client returns: the manifest of a version, or of the latest release, as the strict
-- decoder reads it; and the archive of a version for an architecture. `installed_assets` is the file of
-- that name, if there is one. `goarch` says armv7 for arm.
pub record AgentReleases : Type 0 where
  pub goos : Bytes
  pub goarch : Bytes
  pub manifest_of : Bytes → Option (Option AgentManifest)
  pub archive_of : Bytes → Bytes → Option AgentArchive
  pub installed_assets : Option Bytes

abbrev after_agent : Bytes → Bytes
after_agent rest = agent_name ++ rest

-- "-launcher", "-xray", ".openrc", ".service" and ".path"
abbrev launcher_part : Bytes
launcher_part = b'-' ∷ b'l' ∷ b'a' ∷ b'u' ∷ b'n' ∷ b'c' ∷ b'h' ∷ b'e' ∷ b'r' ∷ []

abbrev xray_part : Bytes
xray_part = b'-' ∷ b'x' ∷ b'r' ∷ b'a' ∷ b'y' ∷ []

abbrev openrc_part : Bytes
openrc_part = b'.' ∷ b'o' ∷ b'p' ∷ b'e' ∷ b'n' ∷ b'r' ∷ b'c' ∷ []

abbrev service_part : Bytes
service_part = b'.' ∷ b's' ∷ b'e' ∷ b'r' ∷ b'v' ∷ b'i' ∷ b'c' ∷ b'e' ∷ []

abbrev path_part : Bytes
path_part = b'.' ∷ b'p' ∷ b'a' ∷ b't' ∷ b'h' ∷ []

-- runtimeAssetNames, the first of which is "uninstall.sh"
abbrev pub runtime_asset_names : List Bytes
runtime_asset_names =
    (b'u' ∷ b'n' ∷ b'i' ∷ b'n' ∷ b's' ∷ b't' ∷ b'a' ∷ b'l' ∷ b'l' ∷ b'.' ∷ b's' ∷ b'h' ∷ [])
    ∷ after_agent launcher_part
    ∷ after_agent (xray_part ++ launcher_part)
    ∷ after_agent openrc_part
    ∷ after_agent (xray_part ++ openrc_part)
    ∷ after_agent (xray_part ++ path_part)
    ∷ after_agent (xray_part ++ service_part)
    ∷ after_agent service_part
    ∷ []

-- The comparison of verifyInstalledRuntimeAssets.
unfoldable pub assets_match : Bytes → Bytes → Bool
assets_match want raw = length (clean_digest raw) == 64 && bytes_eq (clean_digest raw) want

-- `strings.EqualFold` of two digests.
abbrev pub same_digest : Bytes → Bytes → Bool
same_digest digest expected = bytes_eq (to_lower digest) (to_lower expected)

module _ (env : Env) (releases : AgentReleases) where
  open releases use {goos, goarch, manifest_of, archive_of, installed_assets}

  abbrev downloaded : {A : Type 0} → Option A → Step A
  downloaded none = raise unreadable
  downloaded (some a) = pure a

  abbrev accepted : {A F : Type 0} → Outcome F A → Step A
  accepted (ok a) = pure a
  accepted (err e) = raise unreadable

  -- The checks of an archive against the manifest and its artifact: the binary.
  unfoldable pub checked_archive : AgentManifest → Artifact → AgentArchive → Step Bytes
  unfolding extract_release
  checked_archive m a archive = do
    check (not (a.size == 0) && length archive.content == a.size) unreadable
    check (same_digest (env.sha256_hex archive.content) a.sha256) unreadable
    x ← accepted (extract_release env.sha256_hex runtime_asset_names archive.entries)
    check (bytes_eq x.1 m.runtime_assets) unreadable
    pure x.0

  -- verifyInstalledRuntimeAssets
  unfoldable pub verify_installed_assets : Bytes → Step (Unit {0})
  unfolding assets_match
  verify_installed_assets want = do
    syscall unreadable
    raw ← downloaded installed_assets
    check (assets_match want raw) unreadable

  -- Behind the manifest: the artifact for the platform is downloaded, checked and installed.
  unfoldable pub install_release : Bytes → Bytes → AgentManifest → Step Bytes
  unfolding first_artifact checked_archive verify_installed_assets install_local
  install_release command version m = do
    check (length version == 0 || bytes_eq m.version version) unreadable
    verify_installed_assets m.runtime_assets
    a ← accepted (first_artifact goos goarch m.artifacts)
    syscall unreadable
    archive ← downloaded (archive_of m.version a.arch)
    content ← checked_archive m a archive
    install_local env command m.version content

  -- The update manager always has its release client.
  unfoldable pub apply_agent : Bytes → Bytes → Step Bytes
  unfolding valid_version checked_agent_manifest install_release
  apply_agent command version = do
    check (not (length command == 0)) unreadable
    check (length version == 0 || valid_version version) unreadable
    syscall unreadable
    raw ← downloaded (manifest_of version)
    m ← accepted (checked_agent_manifest raw)
    install_release command version m
