-- ===== src/Binary/Upgrade.antt =====
-- The states that an update from one applied bundle to another passes through.
pub mod Bundles
pub mod Writing
pub mod Pruning
pub mod Restore
pub mod Installation
pub mod Activation
pub mod Safety
pub mod Recovery
use xui_agent.Prelude.{
  ℕ, ◌≡◌, ◌==◌, Bool, true, false, Option, none, some, List, length, ◌⊎◌, inl, inr, All,
}
use xui_agent.Spool.Bytes.{Bytes, bytes_eq}
use xui_agent.Binary.Manifest.{required_files}
use xui_agent.Binary.Disk.{
  File, missing, corrupt, holds, AppliedState, PendingState, UpdateResult, BundleState, BundleFile,
  Bundle, Disk, Env, find_version,
}
use xui_agent.Binary.Bundle.{secure_file, valid_bundle_state, same_release}
use xui_agent.Binary.Files.{valid_applied}
use xui_agent.Binary.Install.{pending_of}

-- A file of a bundle is there, as the code wants it, and has the recorded digest.
pub record IsVerified (env : Env) (files : List (Bytes × BundleFile)) (name want : Bytes)
    : Type 0 where
  pub file : BundleFile
  pub there : find_version name files ≡ some file
  pub secure : secure_file env name file ≡ true
  pub digest : bytes_eq (env.sha256_hex file.content) want ≡ true

-- The same, for what a bundle's state records under the name.
pub record IsListed (env : Env) (b : Bundle) (s : BundleState) (name : Bytes) : Type 0 where
  pub want : Bytes
  pub recorded : find_version name s.digests ≡ some want
  pub long : (length want == 64) ≡ true
  pub verified : IsVerified env b.files name want

-- A bundle under a target that `loadVerifiedTarget` accepts, with the state that it returns.
pub record IsBundle (env : Env) (target : Bytes) (s : BundleState)
    (versions : List (Bytes × Bundle)) : Type 0 where
  pub bundle : Bundle
  pub found : find_version target versions ≡ some bundle
  pub is_secure : bundle.secure ≡ true
  pub stored : bundle.state ≡ holds s
  pub valid : valid_bundle_state target s ≡ true
  pub complete : All (IsListed env bundle s) required_files

-- The bundle of an applied state is whole, and of its release.
pub record IsIntact (env : Env) (a : AppliedState) (versions : List (Bytes × Bundle)) : Type 0 where
  pub state : BundleState
  pub is_bundle : IsBundle env a.target state versions
  pub same : same_release env a.version a.xray_version a.archive_digest state ≡ true

-- Two different applied states that the code accepts, for a command with an identifier.
pub record IsUpdate (command : Bytes) (a n : AppliedState) : Type 0 where
  pub named : (length command == 0) ≡ false
  pub valid_old : valid_applied a ≡ true
  pub valid_new : valid_applied n ≡ true
  pub other_target : bytes_eq n.target a.target ≡ false

pub record IsSettled (env : Env) (a : AppliedState) (pending : File PendingState)
    (current : Option Bytes) (applied : File AppliedState) (versions : List (Bytes × Bundle))
    : Type 0 where
  pub no_pending : pending ≡ missing
  pub linked : current ≡ some a.target
  pub recorded : applied ≡ holds a
  pub intact : IsIntact env a versions

-- Nothing is pending, and the link, the applied state and an intact bundle agree.
abbrev pub Settled : Env → AppliedState → Disk → Type 0
Settled env a d = IsSettled env a d.pending d.current d.applied d.versions

abbrev pub has_config : File (Unit {0}) → Bool
has_config missing = false
has_config corrupt = false
has_config (holds _) = true

-- There is no configuration to serve, or the process was found healthy with the bundle.
abbrev pub Serves : Env → Bytes → Option Bytes → Type 0
Serves env target running = (has_config env.applied_config ≡ false) ⊎ (running ≡ some target)

abbrev pub Live : Env → AppliedState → Disk → Type 0
Live env a d = Settled env a d × Serves env a.target d.running

module _ (env : Env) (command : Bytes) (a n : AppliedState) where
  abbrev pub update_pending : PendingState
  update_pending = pending_of env command n (some a)

  -- The link is one of the two, or is removed.
  pub data Linked (current : Option Bytes) : Type 0 where
    unlinked : current ≡ none → Linked current
    old_link : current ≡ some a.target → Linked current
    new_link : current ≡ some n.target → Linked current

  pub record IsMidway (pending : File PendingState) (current : Option Bytes)
      (applied : File AppliedState) (versions : List (Bytes × Bundle)) : Type 0 where
    pub is_pending : pending ≡ holds update_pending
    pub link : Linked current
    pub state : (applied ≡ holds a) ⊎ (applied ≡ holds n)
    pub old_intact : IsIntact env a versions
    pub new_intact : IsIntact env n versions

  -- The update is pending; link and applied state are still or already or again one or the other.
  abbrev pub Midway : Disk → Type 0
  Midway d = IsMidway d.pending d.current d.applied d.versions

  -- The old bundle, or the new one, or what recovery needs to come back to one of them.
  pub data Safe (d : Disk) : Type 0 where
    old_settled : Settled env a d → Safe d
    midway : Midway d → Safe d
    new_settled : Settled env n d → Safe d

  -- What an update that returns has done.
  pub data Concluded (r : UpdateResult) (d : Disk) : Type 0 where
    updated : r.success ≡ true → Live env n d → Concluded r d
    restored : r.success ≡ false → Live env a d → Concluded r d
