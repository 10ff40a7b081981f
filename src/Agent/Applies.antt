-- ===== src/Agent/Applies.antt =====
-- The command that applies a configuration, down to the files: what its answer says is so.
use xui_agent.Prelude.{
  ◌<◌, ◌≡◌, refl, Bool, true, false, ◌&&◌, ◌==◌, some, length, Outcome, ok, err,
}
use xui_agent.Spool.Bytes.{u64}
use xui_agent.Classified.{ApplyError}
use xui_agent.Xray.Disk.{AppliedState, ApplyResult, Request, Disk as ConfigDisk}
use xui_agent.Xray.Files.{valid_applied, has_metadata}
use xui_agent.Xray.Apply.{apply}
use xui_agent.Xray.Upgrade.{Live, Safe, old_settled, Concluded, upgraded, restored}
use xui_agent.Xray.Upgrade.Safety.{requested, apply-Safe}
use xui_agent.Binary.Disk.{Disk as BinaryDisk}
use xui_agent.Update.Disk.{Disk as AgentDisk}
use xui_agent.Io.{
  Io, World, Meets, Triple, Either, bind-Triple, consequence, pure-Triple, attempt-Triple,
  zoom-Triple, LoadError,
}
use xui_agent.Agent.Machine.{Machine, Setting, Command, CommandResult, apply_config}
use xui_agent.Agent.Commands.{
  execute_command, dispatch, is_current, apply_payload, execute_config_apply, applied_result,
}

module _ (env : Setting) (a : AppliedState) (q : Request) where
  abbrev n : AppliedState
  n = requested env.config_env q

  -- A success is the new configuration, live; a failure is the old one, the new one, or what recovery
  -- needs to come back to one of them.
  pub data Applies (x : CommandResult × Bool) (d : ConfigDisk) : Type 0 where
    new_live : x.0.success ≡ true → Live env.config_env n d → Applies x d
    still_safe : x.0.success ≡ false → Safe env.config_env a n env.config_env.now d → Applies x d

  abbrev Rest : BinaryDisk → AgentDisk → Machine → Type 0
  Rest b g s = (s.binary ≡ b) × (s.agent ≡ g)

  abbrev Secure : Machine → Type 0
  Secure s = Safe env.config_env a n env.config_env.now s.config

  module _ (c : Command) (b : BinaryDisk) (g : AgentDisk) (valid : valid_applied a ≡ true)
      (named : has_metadata a.target a.config_version a.config_digest ≡ true)
      (newer : a.config_version < q.config_version) (fits : q.config_version < u64)
      (clock : 0 < env.config_env.now) where
    abbrev Before : Machine → Type 0
    Before s = Live env.config_env a s.config × Rest b g s

    applied-Triple :
        Triple
          (Live env.config_env a)
          (apply env.config_env q)
          (Concluded env.config_env a n env.config_env.now)
          (λ _. Safe env.config_env a n env.config_env.now)
          (Safe env.config_env a n env.config_env.now)
    applied-Triple = record {
      at = λ w live. apply-Safe env.config_env a q w valid named newer fits clock live;
    }

    result-Triple :
        (r : Outcome ApplyError ApplyResult)
        → Triple {E = LoadError}
            (λ s.
              Either
                (λ x s'. Concluded env.config_env a n env.config_env.now x s'.config × Rest b g s')
                (λ _ s'. Secure s' × Rest b g s')
                r
                s)
            (xui_agent.Io.pure (applied_result env c q r))
            (λ x s. Applies (x, false) s.config × Rest b g s)
            (λ _ _. ⊥)
            (λ s. Secure s × Rest b g s)
    result-Triple (err e) = pure-Triple _ (λ s h. (still_safe refl h.0, h.1))
    result-Triple (ok r) = pure-Triple _ (λ s h. (said h.0, h.1))
      where
        said :
            {d : ConfigDisk}
            → Concluded env.config_env a n env.config_env.now r d
            → Applies (applied_result env c q (ok r), false) d
        said (upgraded e live) = new_live e live
        said (restored e live) = still_safe e (old_settled live.settled)

    payload-Triple :
        Triple Before
          (apply_payload env c (some q))
          (λ x s. Applies (x, false) s.config × Rest b g s)
          (λ _ _. ⊥)
          (λ s. Secure s × Rest b g s)
    unfolding apply_payload
    payload-Triple =
        bind-Triple
          (attempt-Triple (
            zoom-Triple (λ s. s.config) (λ t s. record s { config = t }) (λ t s. refl) (Rest b g)
              (λ t s h. h) applied-Triple))
          result-Triple

    command-Triple :
        (length c.id == 0) ≡ false
        → is_current env c ≡ true
        → c.kind ≡ apply_config
        → (env.managed && env.config_env.enabled) ≡ true
        → c.config_payload ≡ some q
        → Triple Before
            (execute_command env c)
            (λ x s. Applies x s.config × Rest b g s)
            (λ _ _. ⊥)
            (λ s. Secure s × Rest b g s)
    unfolding execute_command dispatch execute_config_apply
    command-Triple identified current kind on payload =
        rw (identified, current, kind, on, payload)
          (bind-Triple payload-Triple (λ r. pure-Triple _ (λ s h. h)))

-- Let a live configuration be applied, and a command that is current ask a managed agent for a newer one,
-- with a 64-bit version. Under every schedule of failing system calls and of the kill of the process:
-- the command is answered by a result and never by an error, unless the process is killed; a success
-- says that the new configuration is live; otherwise the disk holds the old one, the new one, or what
-- recovery needs to come back to one of them; and the directories of the Xray binary and of the agent
-- are as they were.
pub execute_command-Applies :
    (env : Setting) (a : AppliedState) (q : Request) (c : Command) (w : World Machine)
    → valid_applied a ≡ true
    → has_metadata a.target a.config_version a.config_digest ≡ true
    → a.config_version < q.config_version
    → q.config_version < u64
    → 0 < env.config_env.now
    → (length c.id == 0) ≡ false
    → is_current env c ≡ true
    → c.kind ≡ apply_config
    → (env.managed && env.config_env.enabled) ≡ true
    → c.config_payload ≡ some q
    → Live env.config_env a w.state.config
    → Meets
        (λ x s.
          Applies env a q x s.config × ((s.binary ≡ w.state.binary) × (s.agent ≡ w.state.agent)))
        (λ _ _. ⊥)
        (λ s.
          Safe env.config_env a (requested env.config_env q) env.config_env.now s.config
          × ((s.binary ≡ w.state.binary) × (s.agent ≡ w.state.agent)))
        (execute_command env c w).0
        (execute_command env c w).1.state
execute_command-Applies env a q c w valid named newer fits clock identified current kind on payload
      live =
    (command-Triple env a q c w.state.binary w.state.agent valid named newer fits clock identified
        current kind on payload).at
      w (live, (refl, refl))
