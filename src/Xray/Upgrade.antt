-- ===== src/Xray/Upgrade.antt =====
-- The states that an upgrade from one applied configuration to another passes through.
pub mod Versions
pub mod Steps
pub mod Pruning
pub mod Restore
pub mod Installation
pub mod Activation
pub mod Application
pub mod Safety
pub mod Recovery
pub use xui_agent.Io.{Guarded}
use xui_agent.Prelude.{ℕ, ◌≡◌, Bool, true, false, Option, none, some, List, ◌⊎◌, inl, inr}
use xui_agent.Spool.Bytes.{Bytes, bytes_eq}
use xui_agent.Xray.Disk.{
  File, missing, holds, AppliedState, PendingState, ApplyResult, VersionFile, Disk, Env,
  find_version,
}
use xui_agent.Xray.Files.{valid_applied, valid_pending, has_metadata}
use xui_agent.Io.{Io, Triple}

-- The version file of an applied state is there, and has the digest that its name says.
pub record IsIntact (env : Env) (a : AppliedState) (versions : List (Bytes × VersionFile))
    : Type 0 where
  pub file : VersionFile
  pub found : find_version a.target versions ≡ some file
  pub is_regular : file.regular ≡ true
  pub digest : bytes_eq (env.sha256_hex file.content) a.config_digest ≡ true

-- The pending state of an upgrade from `a` to `n`.
abbrev pub upgrade_pending : AppliedState → AppliedState → ℕ → PendingState
upgrade_pending a n started = record {
  command_target = n.target;
  previous_target = a.target;
  previous_applied = some a;
  config_version = n.config_version;
  config_digest = n.config_digest;
  started_at = started;
}

-- Two different applied states that the code accepts.
pub record IsUpgrade (a n : AppliedState) (started : ℕ) : Type 0 where
  pub valid_old : valid_applied a ≡ true
  pub named_old : has_metadata a.target a.config_version a.config_digest ≡ true
  pub valid_new : valid_applied n ≡ true
  pub named_new : has_metadata n.target n.config_version n.config_digest ≡ true
  pub valid_pending_state : valid_pending (upgrade_pending a n started) ≡ true
  pub other_target : bytes_eq n.target a.target ≡ false

-- Nothing is pending, and the link, the applied state and an intact version file agree.
pub record Settled (env : Env) (a : AppliedState) (d : Disk) : Type 0 where
  pub no_pending : d.pending ≡ missing
  pub linked : d.current ≡ some a.target
  pub recorded : d.applied ≡ holds a
  pub intact : IsIntact env a d.versions

-- Settled, and the process was found healthy with it.
pub record Live (env : Env) (a : AppliedState) (d : Disk) : Type 0 where
  pub settled : Settled env a d
  pub serves : d.running ≡ some a.target

module _ (env : Env) (a n : AppliedState) (started : ℕ) where
  -- The upgrade is pending; link and applied state are still or already or again one or the other.
  pub record Midway (d : Disk) : Type 0 where
    pub is_pending : d.pending ≡ holds (upgrade_pending a n started)
    pub link : (d.current ≡ some a.target) ⊎ (d.current ≡ some n.target)
    pub state : (d.applied ≡ holds a) ⊎ (d.applied ≡ holds n)
    pub old_intact : IsIntact env a d.versions
    pub new_intact : IsIntact env n d.versions

  -- Pending, with a known link and a known applied state.
  pub record At (current applied : AppliedState) (d : Disk) : Type 0 where
    pub is_pending : d.pending ≡ holds (upgrade_pending a n started)
    pub linked : d.current ≡ some current.target
    pub recorded : d.applied ≡ holds applied
    pub old_intact : IsIntact env a d.versions
    pub new_intact : IsIntact env n d.versions

  -- The old configuration, or the new one, or what recovery needs to come back to one of them.
  pub data Safe (d : Disk) : Type 0 where
    old_settled : Settled env a d → Safe d
    midway : Midway d → Safe d
    new_settled : Settled env n d → Safe d

  -- What an upgrade that returns has done.
  pub data Concluded (r : ApplyResult) (d : Disk) : Type 0 where
    upgraded : r.success ≡ true → Live env n d → Concluded r d
    restored : r.success ≡ false → Live env a d → Concluded r d
