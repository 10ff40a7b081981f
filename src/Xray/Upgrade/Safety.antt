-- ===== src/Xray/Upgrade/Safety.antt =====
-- The whole of `Apply` for a newer configuration.
use xui_agent.Prelude.{
  ℕ, arith, ◌≡◌, ◌<◌, refl, sym, ap, ◌∙◌, Bool, true, false, some, if◌then◌else◌, Outcome, ok, err,
  inl, inr, Bool-cases,
}
use xui_agent.Spool.Bytes.{Bytes, bytes_eq, bytes_eq_iff, u64}
use xui_agent.Xray.Target.{version_target, target_metadata, validate_target}
use xui_agent.Xray.Target.RoundTrip.{target_metadata-version_target, is_hex-lower, IsDigest}
use xui_agent.Xray.Disk.{
  holds, Request, Validation, AppliedState, Disk, Env, validation_failed, not_required,
}
use xui_agent.Xray.Validate.{
  LoadError, not_exist, unreadable, not_configured, bad_request, clean_request, valid_request,
  load_result, validate, validate_after, validate_fresh, verdict, io_failed, load_failed, older,
  other_digest,
}
use xui_agent.Xray.Validate.Cleaning.{clean_request-clean_request}
use xui_agent.Xray.Files.{valid_applied, valid_pending, has_metadata}
use xui_agent.Xray.Rollback.{classify}
use xui_agent.Xray.Apply.{apply, apply_valid, applied_of, rejected}
use xui_agent.Xray.Reading.{load_file-Reads}
use xui_agent.Xray.Upgrade.{Guarded, IsUpgrade, Live, Safe, old_settled, Concluded, restored}
use xui_agent.Xray.Upgrade.Restore.{valid_applied-length, valid_applied-target}
use xui_agent.Xray.Upgrade.Versions.{bytes_eq_refl}
use xui_agent.Xray.Upgrade.Application.{apply_valid-Triple}
use xui_agent.Xray.Upgrade.Steps.{write_atomic-Triple}
use xui_agent.Io.{
  Io, World, Meets, bind-Triple, consequence, given-Triple, pure-Triple, attempt-Reads,
  check-Triple, Reads-Triple, Reads, syscall-Triple, raise-Triple, wrap-Triple, pure, bind-Reads,
  check-Reads, pure-Reads,
}

-- The applied state that `Apply` records for a request.
abbrev pub requested : Env → Request → AppliedState
requested env request =
    let q = clean_request request in
    applied_of env q (version_target q.config_version q.config_digest)

load_result-Reads : (env : Env) → Reads (load_result env)
unfolding load_result
load_result-Reads env =
    bind-Reads (load_file-Reads (λ d. d.validation))
      (λ v. bind-Reads (check-Reads _ unreadable) (λ _. pure-Reads v))

module _ (env : Env) (a : AppliedState) where
  abbrev Old : Disk → Type 0
  Old = Live env a

  fresh-Triple : (q : Request) → Guarded Old (validate_fresh env q) (λ _. Old) Old
  unfolding validate_fresh
  fresh-Triple q = bind-Triple (syscall-Triple io_failed (λ s h. h) (λ s h. h)) λ _.
      bind-Triple (syscall-Triple io_failed (λ s h. h) (λ s h. h)) λ _.
        bind-Triple (write_atomic-Triple _ (λ s h. h) candidate (λ s h. h) io_failed) λ _.
          bind-Triple (write_atomic-Triple _ (λ s h. h) noted (λ s h. h) io_failed)
            λ _. pure-Triple _ (λ s h. h)
    where
      candidate : (s : Disk) → Old s → Old (record s { candidate = q.config })
      candidate s h = record {
        settled = record {
          no_pending = h.settled.no_pending;
          linked = h.settled.linked;
          recorded = h.settled.recorded;
          intact = h.settled.intact;
        };
        serves = h.serves;
      }

      noted : (s : Disk) → Old s → Old (record s { validation = holds (verdict env q) })
      noted s h = record {
        settled = record {
          no_pending = h.settled.no_pending;
          linked = h.settled.linked;
          recorded = h.settled.recorded;
          intact = h.settled.intact;
        };
        serves = h.serves;
      }

  choose :
      {A : Type 0} {Q : A → Disk → Type 0} {Z : Disk → Type 0} {E : Type 0} {m n : Io Disk E A}
      (b : Bool)
      → Guarded Old m Q Z
      → Guarded Old n Q Z
      → Guarded Old (if b then m else n) Q Z
  choose true t u = t
  choose false t u = u

  after-Triple :
      (q : Request) (previous : Outcome LoadError Validation)
      → Guarded Old (validate_after env q previous) (λ _. Old) Old
  unfolding validate_after
  after-Triple q (ok v) = choose _ (raise-Triple older (λ s h. h)) (
      choose _ (raise-Triple other_digest (λ s h. h))
        (choose _ (pure-Triple v (λ s h. h)) (fresh-Triple q)))
  after-Triple q (err not_exist) = fresh-Triple q
  after-Triple q (err unreadable) = raise-Triple load_failed (λ s h. h)

  validate-Triple :
      (request : Request)
      → Guarded Old
          (validate env request)
          (λ _ s. (valid_request env (clean_request request) ≡ true) × Old s)
          Old
  unfolding validate
  validate-Triple request = bind-Triple (check-Triple env.enabled not_configured (λ s h. h)) λ _.
      bind-Triple
        (consequence
          (check-Triple (valid_request env (clean_request request)) bad_request (λ s h. h))
          (λ s h. h.1) (λ _ s h. h) (λ _ s h. h) (λ s h. h))
        λ _. given-Triple λ valid.
          bind-Triple (Reads-Triple (attempt-Reads (load_result-Reads env))) λ previous.
            consequence (after-Triple (clean_request request) previous) (λ s h. h)
              (λ _ s h. (valid, h)) (λ _ s h. h) (λ s h. h)

pub has_metadata-intro :
    (t : Bytes) (v : ℕ) (d : Bytes) → target_metadata t ≡ some (v, d) → has_metadata t v d ≡ true
has_metadata-intro t v d h = rw (h, has_metadata) (ground (arith, bytes_eq_refl d))

-- A target has one version.
metadata-same :
    {v w : ℕ} {d' : Bytes} (t d : Bytes)
    → has_metadata t v d ≡ true
    → target_metadata t ≡ some (w, d')
    → w ≡ v
metadata-same t d h e = ground (arith)

module _ (env : Env) (a : AppliedState) (request : Request) (old_valid : valid_applied a ≡ true)
    (old_named : has_metadata a.target a.config_version a.config_digest ≡ true)
    (newer : a.config_version < request.config_version) (fits : request.config_version < u64)
    (clock : 0 < env.now) where
  abbrev q : Request
  q = clean_request request

  abbrev n : AppliedState
  n = requested env request

  request_digest :
      valid_request env q ≡ true → bytes_eq (env.sha256_hex q.config) q.config_digest ≡ true
  unfolding valid_request
  request_digest h = ground arith

  request-IsDigest : valid_request env q ≡ true → IsDigest q.config_digest
  request-IsDigest h =
      rw (← (bytes_eq_iff (env.sha256_hex q.config) q.config_digest).0 (request_digest h))
        (env.sha256_hex-IsDigest q.config)

  request-version : valid_request env q ≡ true → request.config_version ≡ q.config_version
  unfolding clean_request
  request-version h = refl

  named :
      valid_request env q ≡ true
      → (validate_target n.target ≡ true)
        × (target_metadata n.target ≡ some (q.config_version, q.config_digest))
  named h =
      target_metadata-version_target q.config_version q.config_digest
        (rw (← request-version h) (omega arith)) (rw (← request-version h) fits)
        (request-IsDigest h)

  new_named :
      valid_request env q ≡ true → has_metadata n.target n.config_version n.config_digest ≡ true
  new_named h = has_metadata-intro n.target q.config_version q.config_digest (named h).1

  new_valid : valid_request env q ≡ true → valid_applied n ≡ true
  unfolding valid_applied
  new_valid h = ground (
    arith,
    (named h).0,
    (request-IsDigest h).0,
    is_hex-lower q.config_digest (request-IsDigest h).1,
    request-version h,
  )

  differs : valid_request env q ≡ true → bytes_eq n.target a.target ≡ false
  differs h = elim (Bool-cases (bytes_eq n.target a.target)) [
    | inl e ↦ absurd (
        omega (
          arith,
          request-version h,
          metadata-same a.target a.config_digest old_named
              (ap target_metadata (sym ((bytes_eq_iff n.target a.target).0 e)) ∙ (named h).1),
        ))
    | inr ne ↦ ne
  ]

  pub request-IsUpgrade : valid_request env q ≡ true → IsUpgrade a n env.now
  unfolding valid_pending
  request-IsUpgrade h = record {
    valid_old = old_valid;
    named_old = old_named;
    valid_new = new_valid h;
    named_new = new_named h;
    valid_pending_state = ground (
      arith,
      (named h).0,
      (request-IsDigest h).0,
      new_named h,
      bytes_eq_refl a.target,
      valid_applied-length a old_valid,
      valid_applied-target a old_valid,
      request-version h,
    );
    other_target = differs h;
  }

  -- What `apply` returns: the new configuration, or the old one with a result that says so.
  conclude :
      (v : Validation)
      → valid_request env q ≡ true
      → (b : Bool)
      → Guarded
          (Live env a)
          (if b then apply_valid env q else pure (rejected env v))
          (Concluded env a n env.now)
          (Safe env a n env.now)
  conclude v h true =
      apply_valid-Triple env q a (request-IsUpgrade h) (request_digest h)
        (rw (← request-version h) newer)
  conclude v h false = pure-Triple _ (λ s old. restored refl old)

  Live-Safe : (s : Disk) → Live env a s → Safe env a n env.now s
  Live-Safe s h = old_settled h.settled

  apply-Triple :
      Guarded (Live env a) (apply env request) (Concluded env a n env.now) (Safe env a n env.now)
  unfolding apply
  apply-Triple = bind-Triple (check-Triple env.enabled _ Live-Safe) λ _. given-Triple λ _.
      bind-Triple
        (consequence
          (wrap-Triple (classify validation_failed not_required) (validate-Triple env a q)
            (λ e s h. h))
          (λ s h. h) cleaned (λ _. Live-Safe) Live-Safe)
        λ v. given-Triple (λ h. conclude v h v.success)
    where
      cleaned :
          (v : Validation) (s : Disk)
          → (valid_request env (clean_request q) ≡ true) × Live env a s
          → (valid_request env q ≡ true) × Live env a s
      cleaned v s h =
          (ap (valid_request env) (sym (clean_request-clean_request request)) ∙ h.0, h.1)

-- Let a live configuration be applied and a newer one, with a 64-bit version, be requested. Under
-- every schedule of failing system calls and of the kill of the process: if `Apply` returns a success
-- then the new configuration is linked, recorded, intact, live and not pending; if it returns a
-- failure the old one is; and if it ends in an error or is killed the disk holds the old one, the new
-- one, or the pending upgrade with both version files intact.
pub apply-Safe :
    (env : Env) (a : AppliedState) (request : Request) (w : World Disk)
    → valid_applied a ≡ true
    → has_metadata a.target a.config_version a.config_digest ≡ true
    → a.config_version < request.config_version
    → request.config_version < u64
    → 0 < env.now
    → Live env a w.state
    → Meets
        (Concluded env a (requested env request) env.now)
        (λ _. Safe env a (requested env request) env.now)
        (Safe env a (requested env request) env.now)
        (apply env request w).0
        (apply env request w).1.state
apply-Safe env a request w valid named newer fits clock live =
    (apply-Triple env a request valid named newer fits clock).at w live
