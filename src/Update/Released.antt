-- ===== src/Update/Released.antt =====
-- `Apply` of internal/update/manager.go: what a release that is installed has passed.
use xui_agent.Prelude.{◌≡◌, refl, false, true, not, ◌||◌, ◌&&◌, ◌==◌, length, Option, some, ok}
use xui_agent.Spool.Bytes.{Bytes, bytes_eq}
use xui_agent.Binary.Manifest.{Artifact}
use xui_agent.Update.Archive.{
  AgentManifest, checked_agent_manifest, first_artifact, extract_release,
}
use xui_agent.Update.Disk.{Disk, Env, unreadable, version_directory, agent_target}
use xui_agent.Update.Apply.{
  AgentArchive, AgentReleases, runtime_asset_names, assets_match, same_digest, checked_archive,
  verify_installed_assets, install_release, apply_agent,
}
use xui_agent.Update.Install.{install_local}
use xui_agent.Update.Safety.{
  Unswitched, Switched, Safe, unswitched, release_name, install_local-Triple,
}
use xui_agent.Io.{
  World, Meets, Guarded, bind-Triple, consequence, given-Triple, pure-Triple, check-Triple,
  syscall-Triple, syscall,
}

-- What the release client returns for a version, and the file of installed assets.
pub record Offered (env : Env) (releases : AgentReleases) (version : Bytes) : Type 0 where
  pub decoded : Option AgentManifest
  pub manifest : AgentManifest
  pub artifact : Artifact
  pub archive : AgentArchive
  pub binary : Bytes
  pub assets : Bytes
  pub installed : Bytes
  pub is_manifest : releases.manifest_of version ≡ some decoded
  pub is_checked : checked_agent_manifest decoded ≡ ok manifest
  pub is_artifact : first_artifact releases.goos releases.goarch manifest.artifacts ≡ ok artifact
  pub is_archive : releases.archive_of manifest.version artifact.arch ≡ some archive
  pub is_extracted :
      extract_release env.sha256_hex runtime_asset_names archive.entries ≡ ok (binary, assets)
  pub is_installed : releases.installed_assets ≡ some installed

-- All checks that `Apply` makes of them.
pub record Passed {env : Env} {releases : AgentReleases} {version : Bytes}
    (o : Offered env releases version) : Type 0 where
  pub requested : (length version == 0 || bytes_eq o.manifest.version version) ≡ true
  pub registered : assets_match o.manifest.runtime_assets o.installed ≡ true
  pub sized : (not (o.artifact.size == 0) && length o.archive.content == o.artifact.size) ≡ true
  pub digested : same_digest (env.sha256_hex o.archive.content) o.artifact.sha256 ≡ true
  pub complete : bytes_eq o.assets o.manifest.runtime_assets ≡ true

module _ (env : Env) (releases : AgentReleases) (command version prev directory old : Bytes)
    (o : Offered env releases version) where
  abbrev Old : Disk → Type 0
  Old d = Unswitched env command o.manifest.version o.binary prev directory old d

  abbrev EitherWay : Disk → Type 0
  EitherWay d = Safe env command o.manifest.version o.binary prev directory old d

  abbrev New : Disk → Type 0
  New d = Switched env command o.manifest.version o.binary prev directory old d

  called : Guarded Old (syscall unreadable) (λ _. Old) EitherWay
  called = syscall-Triple unreadable (λ s. unswitched) (λ s. unswitched)

  archive-Triple :
      Guarded Old
        (checked_archive env releases o.manifest o.artifact o.archive)
        (λ content s.
          ((content ≡ o.binary)
            × ((not (o.artifact.size == 0) && length o.archive.content == o.artifact.size) ≡ true)
            × (same_digest (env.sha256_hex o.archive.content) o.artifact.sha256 ≡ true)
            × (bytes_eq o.assets o.manifest.runtime_assets ≡ true))
          × Old s)
        EitherWay
  unfolding checked_archive
  archive-Triple = bind-Triple (check-Triple _ unreadable (λ s. unswitched)) λ _.
      given-Triple λ sized. bind-Triple (check-Triple _ unreadable (λ s. unswitched)) λ _.
        given-Triple λ digested. rw o.is_extracted (
          bind-Triple
            (pure-Triple {Q = λ x s. (x ≡ (o.binary, o.assets)) × Old s} _ (λ s h. (refl, h)))
            λ x. given-Triple λ e. rw e (
              bind-Triple (check-Triple _ unreadable (λ s. unswitched)) λ _.
                given-Triple
                  λ complete. pure-Triple _ (λ s h. ((refl, sized, digested, complete), h))))

  registered-Triple :
      Guarded Old
        (verify_installed_assets env releases o.manifest.runtime_assets)
        (λ _ s. (assets_match o.manifest.runtime_assets o.installed ≡ true) × Old s)
        EitherWay
  unfolding verify_installed_assets
  registered-Triple = bind-Triple called λ _. rw o.is_installed (
      bind-Triple (pure-Triple {Q = λ x s. (x ≡ o.installed) × Old s} _ (λ s h. (refl, h)))
        λ x. given-Triple λ e. rw e (check-Triple _ unreadable (λ s. unswitched)))

  module _ (named : version_directory prev ≡ some directory)
      (other : bytes_eq (release_name env o.manifest.version o.binary) directory ≡ false)
      (fresh : bytes_eq prev (agent_target (release_name env o.manifest.version o.binary))
        ≡ false) where
    installed-Triple :
        Passed o
        → Guarded Old
            (install_local env command o.manifest.version o.binary)
            (λ v s. Passed o × ((v ≡ o.manifest.version) × New s))
            EitherWay
    installed-Triple passed =
        consequence
          (install_local-Triple env command o.manifest.version o.binary prev directory old other
            fresh named)
          (λ s h. h) (λ _ s h. (passed, h)) (λ _ s h. h) (λ s h. h)

    install_release-Triple :
        Guarded Old
          (install_release env releases command version o.manifest)
          (λ v s. Passed o × ((v ≡ o.manifest.version) × New s))
          EitherWay
    unfolding install_release
    install_release-Triple = bind-Triple (check-Triple _ unreadable (λ s. unswitched)) λ _.
        given-Triple λ requested. bind-Triple registered-Triple λ _. given-Triple λ registered.
          rw o.is_artifact (
            bind-Triple (pure-Triple {Q = λ a s. (a ≡ o.artifact) × Old s} _ (λ s h. (refl, h)))
              λ a. given-Triple λ same. rw same (
                bind-Triple called λ _. rw o.is_archive (
                  bind-Triple
                    (pure-Triple {Q = λ x s. (x ≡ o.archive) × Old s} _ (λ s h. (refl, h)))
                    λ x. given-Triple λ e. rw e (
                      bind-Triple archive-Triple λ content. given-Triple λ facts. rw facts.0 (
                        installed-Triple (record {
                          requested = requested;
                          registered = registered;
                          sized = facts.1;
                          digested = facts.2;
                          complete = facts.3;
                        }))))))

    apply_agent-Triple :
        Guarded Old
          (apply_agent env releases command version)
          (λ v s. Passed o × ((v ≡ o.manifest.version) × New s))
          EitherWay
    unfolding apply_agent
    apply_agent-Triple = bind-Triple (check-Triple _ unreadable (λ s. unswitched)) λ _.
        given-Triple λ _. bind-Triple (check-Triple _ unreadable (λ s. unswitched)) λ _.
          given-Triple λ _. bind-Triple called λ _. rw o.is_manifest (
            bind-Triple (pure-Triple {Q = λ x s. (x ≡ o.decoded) × Old s} _ (λ s h. (refl, h))) λ x.
              given-Triple λ e.
                rw (e, o.is_checked)
                  (bind-Triple
                    (pure-Triple {Q = λ m s. (m ≡ o.manifest) × Old s} _ (λ s h. (refl, h)))
                    λ m. given-Triple λ same. rw same install_release-Triple))

pub apply_agent-Safe :
    (env : Env) (releases : AgentReleases) (command version prev directory old : Bytes)
    (o : Offered env releases version) (w : World Disk)
    → version_directory prev ≡ some directory
    → bytes_eq (release_name env o.manifest.version o.binary) directory ≡ false
    → bytes_eq prev (agent_target (release_name env o.manifest.version o.binary)) ≡ false
    → Unswitched env command o.manifest.version o.binary prev directory old w.state
    → Meets
        (λ v s.
          Passed o
          × ((v ≡ o.manifest.version)
              × Switched env command o.manifest.version o.binary prev directory old s))
        (λ _. Safe env command o.manifest.version o.binary prev directory old)
        (Safe env command o.manifest.version o.binary prev directory old)
        (apply_agent env releases command version w).0
        (apply_agent env releases command version w).1.state
apply_agent-Safe env releases command version prev directory old o w named other fresh start =
    (apply_agent-Triple env releases command version prev directory old o named other fresh).at w
      start
