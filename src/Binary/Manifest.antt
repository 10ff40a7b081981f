-- ===== src/Binary/Manifest.antt =====
-- internal/xrayupdate/manifest.go: which releases, artifacts and archives are accepted.
pub mod Accepted
use xui_agent.Prelude.{
  ℕ, ◌+◌, ◌*◌, ◌^◌, Bool, true, ◌&&◌, ◌||◌, not, Option, none, some, List, [], ◌∷◌, length, ltb,
  ◌==◌, if◌then◌else◌, Outcome, ok, err,
}
use xui_agent.Spool.Bytes.{Bytes, bytes_eq}
use xui_agent.Xray.Digits.{is_hex, all_bytes}
use xui_agent.Xray.Validate.{clean_digest}
use xui_agent.Release.{valid_token}
use xui_agent.Versions.{find_version}
use xui_agent.Retention.{member}

pub data ManifestError : Type 0 where
  undecodable incomplete duplicate_artifact bad_artifact no_artifact : ManifestError

pub data ArchiveError : Type 0 where
  invalid_entry invalid_size too_large missing_file : ArchiveError

abbrev pub mebibyte : ℕ
mebibyte = 2 ^ 20

abbrev pub max_archive_bytes : ℕ
max_archive_bytes = 128 * mebibyte

abbrev pub max_expanded_bytes : ℕ
max_expanded_bytes = 128 * mebibyte

abbrev pub max_binary_bytes : ℕ
max_binary_bytes = 64 * mebibyte

abbrev pub max_asset_bytes : ℕ
max_asset_bytes = 32 * mebibyte

-- "xray", "geoip.dat", "geosite.dat", "LICENSE" and "README.md"
abbrev pub xray_name : Bytes
xray_name = b'x' ∷ b'r' ∷ b'a' ∷ b'y' ∷ []

abbrev pub geoip_name : Bytes
geoip_name = b'g' ∷ b'e' ∷ b'o' ∷ b'i' ∷ b'p' ∷ b'.' ∷ b'd' ∷ b'a' ∷ b't' ∷ []

abbrev pub geosite_name : Bytes
geosite_name = b'g' ∷ b'e' ∷ b'o' ∷ b's' ∷ b'i' ∷ b't' ∷ b'e' ∷ b'.' ∷ b'd' ∷ b'a' ∷ b't' ∷ []

abbrev pub license_name : Bytes
license_name = b'L' ∷ b'I' ∷ b'C' ∷ b'E' ∷ b'N' ∷ b'S' ∷ b'E' ∷ []

abbrev pub readme_name : Bytes
readme_name = b'R' ∷ b'E' ∷ b'A' ∷ b'D' ∷ b'M' ∷ b'E' ∷ b'.' ∷ b'm' ∷ b'd' ∷ []

abbrev pub required_files : List Bytes
required_files = xray_name ∷ geoip_name ∷ geosite_name ∷ []

-- A size that is negative, and refused like 0, is 0 here.
pub record Artifact : Type 0 where
  pub os : Bytes
  pub arch : Bytes
  pub sha256 : Bytes
  pub size : ℕ

pub record Manifest : Type 0 where
  pub schema_version : ℕ
  pub version : Bytes
  pub xray_version : Bytes
  pub artifacts : List Artifact

-- What zip says of an entry, and the bytes that its stream gives.
pub record Entry : Type 0 where
  pub name : Bytes
  pub regular : Bool
  pub size : ℕ
  pub content : Bytes

-- `validateVersion`: the same test as `validToken` of internal/release.
unfoldable pub valid_version : Bytes → Bool
valid_version version = valid_token version

abbrev complete_manifest : Manifest → Bool
complete_manifest m =
    m.schema_version == 2
    && valid_version m.version
    && valid_version m.xray_version
    && not (length m.artifacts == 0)

-- decodeManifest, behind the strict decoder.
unfoldable pub checked_manifest : Option Manifest → Outcome ManifestError Manifest
unfolding valid_version
checked_manifest none = err undecodable
checked_manifest (some m) = if complete_manifest m then ok m else err incomplete

abbrev valid_artifact : Artifact → Bool
valid_artifact a =
    (not (a.size == 0 || ltb max_archive_bytes a.size) && length a.sha256 == 64)
    && all_bytes is_hex a.sha256

module _ (goos goarch : Bytes) where
  abbrev pub for_platform : Artifact → Bool
  for_platform a = bytes_eq a.os goos && bytes_eq a.arch goarch

  abbrev clean_artifact : Artifact → Artifact
  clean_artifact a = record a { sha256 = clean_digest a.sha256 }

  -- The loop of `selectArtifact`; `goarch` is the name of the architecture in manifests.
  unfoldable pub select_from :
      List Artifact → Option Artifact → Outcome ManifestError (Option Artifact)
  select_from [] selected = ok selected
  select_from (a ∷ rest) none =
      let skipped = select_from rest none in
      let taken = select_from rest (some (clean_artifact a)) in
      if not (for_platform a)
      then skipped
      else if valid_artifact (clean_artifact a)
      then taken
      else err bad_artifact
  select_from (a ∷ rest) (some b) =
      let skipped = select_from rest (some b) in
      if not (for_platform a) then skipped else err duplicate_artifact

  abbrev selected_artifact :
      Outcome ManifestError (Option Artifact) → Outcome ManifestError Artifact
  selected_artifact (ok (some a)) = ok a
  selected_artifact (ok none) = err no_artifact
  selected_artifact (err e) = err e

  unfoldable pub select_artifact : Manifest → Outcome ManifestError Artifact
  unfolding select_from
  select_artifact m = selected_artifact (select_from m.artifacts none)

-- The limits of the map `allowed`.
abbrev pub allowed : List (Bytes × ℕ)
allowed =
    (xray_name, max_binary_bytes)
    ∷ (geoip_name, max_asset_bytes)
    ∷ (geosite_name, max_asset_bytes)
    ∷ (license_name, mebibyte)
    ∷ (readme_name, mebibyte)
    ∷ []

-- `bundleEntryLimit`
unfoldable pub entry_limit : Bytes → ℕ
entry_limit name =
    if bytes_eq name xray_name
    then max_binary_bytes
    else if bytes_eq name geoip_name || bytes_eq name geosite_name
    then max_asset_bytes
    else if bytes_eq name license_name || bytes_eq name readme_name
    then mebibyte
    else 0

-- `isRequiredBundleFile`
unfoldable pub is_required : Bytes → Bool
is_required name = bytes_eq name xray_name || bytes_eq name geoip_name || bytes_eq name geosite_name

-- What the loop of `validateBundleArchive` makes of one entry; `rest` is what follows it. An
-- `int64` of the size that is negative is of a size beyond every limit.
abbrev pub after_entry :
    Option ℕ
    → Entry
    → ℕ
    → List Bytes
    → Outcome ArchiveError (List Bytes)
    → Outcome ArchiveError (List Bytes)
after_entry none e expanded seen rest = err invalid_entry
after_entry (some limit) e expanded seen rest =
    if member e.name seen || not e.regular
    then err invalid_entry
    else if e.size == 0 || ltb limit e.size
    then err invalid_size
    else if ltb max_expanded_bytes (expanded + e.size)
    then err too_large
    else rest

unfoldable pub check_entries : List Entry → ℕ → List Bytes → Outcome ArchiveError (List Bytes)
unfolding find_version member
check_entries [] expanded seen = ok seen
check_entries (e ∷ es) expanded seen =
    let rest = check_entries es (expanded + e.size) (e.name ∷ seen) in
    after_entry (find_version e.name allowed) e expanded seen rest

unfoldable pub all_seen : List Bytes → List Bytes → Bool
all_seen [] seen = true
all_seen (name ∷ names) seen = member name seen && all_seen names seen

abbrev pub with_required : Outcome ArchiveError (List Bytes) → Outcome ArchiveError (Unit {0})
with_required (ok seen) = if all_seen required_files seen then ok tt else err missing_file
with_required (err e) = err e

-- `validateBundleArchive`
unfoldable pub validate_archive : List Entry → Outcome ArchiveError (Unit {0})
unfolding check_entries all_seen
validate_archive entries = with_required (check_entries entries 0 [])
