-- ===== src/Update/Archive.antt =====
-- Release manifests and archives, internal/update/manager.go.
use xui_agent.Prelude.{
  ℕ, Bool, ◌||◌, not, Option, none, some, List, [], ◌∷◌, ◌++◌, length, ltb, ◌==◌, if◌then◌else◌,
  Outcome, ok, err,
}
use xui_agent.Spool.Bytes.{Bytes, bytes_eq}
use xui_agent.Xray.Digits.{is_hex, all_bytes}
use xui_agent.Xray.Validate.{clean_digest}
use xui_agent.Versions.{find_version, put_version}
use xui_agent.Retention.{member}
use xui_agent.Binary.Manifest.{Artifact, for_platform, mebibyte, max_binary_bytes, valid_version}

pub data UpdateError : Type 0 where
  undecodable incomplete bad_digest bad_version bad_artifact no_artifact : UpdateError
  unexpected_entry bad_entry unreadable_entry duplicate_entry no_binary missing_asset : UpdateError

-- "xui-agent"
abbrev pub agent_name : Bytes
agent_name = b'x' ∷ b'u' ∷ b'i' ∷ b'-' ∷ b'a' ∷ b'g' ∷ b'e' ∷ b'n' ∷ b't' ∷ []

-- The manifest of a release; its version is not yet checked.
pub record AgentManifest : Type 0 where
  pub schema_version : ℕ
  pub version : Bytes
  pub runtime_assets : Bytes
  pub artifacts : List Artifact

abbrev cleaned : AgentManifest → AgentManifest
cleaned m = record m { runtime_assets = clean_digest m.runtime_assets }

-- decodeManifest, behind the strict decoder.
unfoldable pub checked_agent_manifest : Option AgentManifest → Outcome UpdateError AgentManifest
unfolding valid_version
checked_agent_manifest none = err undecodable
checked_agent_manifest (some m) =
    if not (m.schema_version == 3) || length m.version == 0 || length m.artifacts == 0
    then err incomplete
    else if not (length (cleaned m).runtime_assets == 64)
    then err bad_digest
    else if not (all_bytes is_hex (cleaned m).runtime_assets)
    then err bad_digest
    else if valid_version m.version
    then ok (cleaned m)
    else err bad_version

-- The loop of selectArtifact: the first artifact for the platform decides.
unfoldable pub first_artifact : Bytes → Bytes → List Artifact → Outcome UpdateError Artifact
first_artifact goos goarch [] = err no_artifact
first_artifact goos goarch (a ∷ rest) =
    let later = first_artifact goos goarch rest in
    if not (for_platform goos goarch a)
    then later
    else if not (length a.sha256 == 64) || a.size == 0
    then err bad_artifact
    else ok a

-- An entry of the tar archive; `content` is what reading it gives, if it does.
pub record TarEntry : Type 0 where
  pub name : Bytes
  pub regular : Bool
  pub size : ℕ
  pub content : Option Bytes

-- What the loop has found so far.
pub record Extracted : Type 0 where
  pub binary : Option Bytes
  pub assets : List (Bytes × Bytes)

-- A binary that is there twice is refused. The contents are not empty, so that a nil slice is none.
abbrev pub keep_binary : Extracted → Bytes → Outcome UpdateError Extracted
keep_binary x content = elim x.binary [
  | some _ ↦ err duplicate_entry
  | none ↦ ok (record x { binary = some content })
]

abbrev pub keep_asset : Extracted → Bytes → Bytes → Option Bytes → Outcome UpdateError Extracted
keep_asset x name content (some _) = err duplicate_entry
keep_asset x name content none = ok (record x { assets = put_version name content x.assets })

module _ (sha256_hex : Bytes → Bytes) (asset_names : List Bytes) where
  abbrev pub tar_limit : Bytes → ℕ
  tar_limit name = if bytes_eq name agent_name then max_binary_bytes else mebibyte

  abbrev pub read_whole : TarEntry → Extracted → Option Bytes → Outcome UpdateError Extracted
  read_whole e x none = err unreadable_entry
  read_whole e x (some content) =
      if not (length content == e.size)
      then err unreadable_entry
      else if bytes_eq e.name agent_name
      then keep_binary x content
      else keep_asset x e.name content (find_version e.name x.assets)

  -- One round of the loop.
  unfoldable pub extract_entry : TarEntry → Extracted → Outcome UpdateError Extracted
  extract_entry e x =
      if not (member e.name (agent_name ∷ asset_names))
      then err unexpected_entry
      else if not e.regular || e.size == 0 || ltb (tar_limit e.name) e.size
      then err bad_entry
      else read_whole e x e.content

  -- The loop ends with the first error.
  abbrev pub extract_next : TarEntry → Outcome UpdateError Extracted → Outcome UpdateError Extracted
  extract_next e (ok x) = extract_entry e x
  extract_next e (err u) = err u

  unfoldable pub extract_entries :
      List TarEntry → Outcome UpdateError Extracted → Outcome UpdateError Extracted
  unfolding extract_entry
  extract_entries [] x = x
  extract_entries (e ∷ es) x = extract_entries es (extract_next e x)

  -- The lines `digest  name` of the assets, in the order of runtimeAssetNames.
  unfoldable pub asset_lines : List Bytes → List (Bytes × Bytes) → Option Bytes
  asset_lines [] assets = some []
  asset_lines (name ∷ names) assets =
      let rest = asset_lines names assets in
      elim (find_version name assets) [
        | none ↦ none
        | some content ↦ elim rest [
          | none ↦ none
          | some ls ↦ some (sha256_hex content ++ (b' ' ∷ b' ' ∷ (name ++ (b'\n' ∷ ls))))
        ]
      ]

  abbrev pub with_assets : Bytes → Option Bytes → Outcome UpdateError (Bytes × Bytes)
  with_assets binary none = err missing_asset
  with_assets binary (some ls) = ok (binary, sha256_hex ls)

  abbrev pub finish_extract : Extracted → Option Bytes → Outcome UpdateError (Bytes × Bytes)
  finish_extract x none = err no_binary
  finish_extract x (some binary) = with_assets binary (asset_lines asset_names x.assets)

  abbrev pub with_extracted : Outcome UpdateError Extracted → Outcome UpdateError (Bytes × Bytes)
  with_extracted (err u) = err u
  with_extracted (ok x) = finish_extract x x.binary

  -- extractRelease, for the entries that gzip and tar read from the archive.
  unfoldable pub extract_release : List TarEntry → Outcome UpdateError (Bytes × Bytes)
  unfolding extract_entries asset_lines
  extract_release entries =
      with_extracted (extract_entries entries (ok (record { binary = none; assets = [] })))
