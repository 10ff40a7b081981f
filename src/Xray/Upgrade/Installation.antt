-- ===== src/Xray/Upgrade/Installation.antt =====
-- `installVersion` in an upgrade: the new version file is written, or an intact one is found.
use xui_agent.Prelude.{
  ℕ, arith, ◌≡◌, refl, sym, Bool, true, false, Option, none, some, if◌then◌else◌,
}
use xui_agent.Spool.Bytes.{Bytes, bytes_eq}
use xui_agent.Xray.Disk.{Request, AppliedState, Disk, Env, VersionFile, find_version, put_version}
use xui_agent.Xray.Target.{version_target}
use xui_agent.Xray.Validate.{unreadable}
use xui_agent.Xray.Files.{install_version, install_over, write_version, fresh_file, is_intact}
use xui_agent.Xray.Apply.{Plan, applied_of}
use xui_agent.Xray.Upgrade.{Guarded, IsUpgrade, IsIntact, Live, Safe, old_settled}
use xui_agent.Xray.Upgrade.Versions.{IsIntact-put_other, find_version-put_version}
use xui_agent.Xray.Upgrade.Steps.{write_atomic-Triple}
use xui_agent.Io.{
  bind-Triple, consequence, pure-Triple, syscall-Triple, raise-Triple, gets-Triple, pure, raise,
}

module _ (env : Env) (q : Request) (a : AppliedState) where
  abbrev pub target : Bytes
  target = version_target q.config_version q.config_digest

  abbrev pub n : AppliedState
  n = applied_of env q target

  abbrev pub started : ℕ
  started = env.now

  abbrev pub Z : Disk → Type 0
  Z = Safe env a n started

  abbrev pub Old : Disk → Type 0
  Old = Live env a

  abbrev pub plan : Plan env
  plan = record { repair = false; previous_target = a.target; previous_applied = some a }

  abbrev pub Installed : Disk → Type 0
  Installed s = Old s × IsIntact env n s.versions

  pub Old-Z : (s : Disk) → Old s → Z s
  Old-Z s h = old_settled h.settled

  pub Installed-Z : (s : Disk) → Installed s → Z s
  Installed-Z s h = Old-Z s h.0

  module _ (is : IsUpgrade a n started)
      (same_digest : bytes_eq (env.sha256_hex q.config) q.config_digest ≡ true) where
    put_new :
        (s : Disk)
        → Old s
        → Installed
            (record s { versions = put_version target (fresh_file env q.config) s.versions })
    put_new s h = (
      record {
        settled = record {
          no_pending = h.settled.no_pending;
          linked = h.settled.linked;
          recorded = h.settled.recorded;
          intact =
              IsIntact-put_other target (fresh_file env q.config) is.other_target h.settled.intact;
        };
        serves = h.serves;
      },
      record {
        file = fresh_file env q.config;
        found = find_version-put_version target (fresh_file env q.config) s.versions;
        is_regular = refl;
        digest = same_digest;
      },
    )

    write-Triple :
        Guarded Old (write_version env target q.config) (λ t s. (t ≡ target) × Installed s) Z
    unfolding write_version
    write-Triple =
        bind-Triple (write_atomic-Triple _ Old-Z put_new Installed-Z unreadable)
          (λ _. pure-Triple target (λ s h. (refl, h)))

    found_new :
        (f : VersionFile) (s : Disk)
        → is_intact env q f ≡ true
        → (some f ≡ find_version target s.versions) × Old s
        → (target ≡ target) × Installed s
    found_new f s whole h = (
      refl,
      (h.1, record { file = f; found = sym h.0; is_regular = ground arith; digest = ground arith }),
    )

    reuse-Triple :
        (f : VersionFile) (b : Bool)
        → is_intact env q f ≡ b
        → Guarded
            (λ s. (some f ≡ find_version target s.versions) × Old s)
            (if b then pure target else raise unreadable)
            (λ t s. (t ≡ target) × Installed s)
            Z
    reuse-Triple f true whole = pure-Triple target (λ s h. found_new f s whole h)
    reuse-Triple f false broken = raise-Triple unreadable (λ s h. Old-Z s h.1)

    install_over-Triple :
        (found : Option VersionFile)
        → Guarded
            (λ s. (found ≡ find_version target s.versions) × Old s)
            (install_over env q false found)
            (λ t s. (t ≡ target) × Installed s)
            Z
    unfolding install_over
    install_over-Triple none =
        consequence write-Triple (λ s h. h.1) (λ _ s h. h) (λ _ s h. h) (λ s h. h)
    install_over-Triple (some f) =
        bind-Triple (syscall-Triple unreadable (λ s h. Old-Z s h.1) (λ s h. Old-Z s h.1))
          (λ _. reuse-Triple f (is_intact env q f) refl)

    pub install-Triple :
        Guarded Old (install_version env q false) (λ t s. (t ≡ target) × Installed s) Z
    unfolding install_version
    install-Triple = bind-Triple (syscall-Triple unreadable Old-Z Old-Z) λ _.
        bind-Triple (syscall-Triple unreadable Old-Z Old-Z) λ _.
          bind-Triple (syscall-Triple unreadable Old-Z Old-Z) λ _.
            bind-Triple (gets-Triple (λ d. find_version target d.versions))
              λ found. install_over-Triple found
