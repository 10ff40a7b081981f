-- ===== src/Xray/Validate.antt =====
-- internal/xrayconfig/manager.go: shadow validation of a configuration, remembered by version.
pub mod Cleaning
pub use xui_agent.Io.{LoadError, not_exist, unreadable, decoded}
unfoldable pub use xui_agent.Io.{load_file, write_atomic}
use xui_agent.Prelude.{
  ℕ, suc, ◌+◌, ◌*◌, ◌^◌, ◌≡◌, Bool, true, false, ◌&&◌, ◌||◌, not, Option, none, some, List, [], ◌∷◌,
  length, ltb, leb, ◌==◌, if◌then◌else◌, Outcome, ok, err,
}
use xui_agent.Spool.Bytes.{Bytes, bytes_eq}
use xui_agent.Xray.Digits.{is_hex, all_bytes, to_lower}
use xui_agent.Xray.Disk.{File, missing, corrupt, holds, Request, Validation, Disk, Env}
use xui_agent.Io.{Io, ◌>>=◌, ◌>>◌, pure, raise, gets, attempt, modify, syscall, check}

pub data ValidateError : Type 0 where
  not_configured bad_request older other_digest load_failed io_failed : ValidateError

abbrev pub max_config_bytes : ℕ
max_config_bytes = 4 * 2 ^ 20

unfoldable pub is_space : ℕ → Bool
is_space c = c == 32 || (leb 9 c && leb c 13)

unfoldable pub trim_left : Bytes → Bytes
trim_left [] = []
trim_left (c ∷ cs) = let rest = trim_left cs in if is_space c then rest else c ∷ cs

unfoldable pub trim_right : Bytes → Bytes
trim_right [] = []
trim_right (c ∷ cs) =
    let rest = trim_right cs in if is_space c && length rest == 0 then [] else c ∷ rest

-- `strings.ToLower(strings.TrimSpace(digest))`, on ASCII.
unfoldable pub clean_digest : Bytes → Bytes
unfolding trim_left trim_right
clean_digest digest = to_lower (trim_left (trim_right digest))

unfoldable pub clean_request : Request → Request
clean_request q = record q { config_digest = clean_digest q.config_digest }

module _ (env : Env) where
  open env use {enabled, sha256_hex, valid_json, accepts, now}

  -- validateRequest: the digest, decoded, is that of the received bytes.
  unfoldable pub valid_request : Request → Bool
  valid_request q =
      not (q.config_version == 0)
      && not (length q.config == 0 || ltb max_config_bytes (length q.config))
      && valid_json q.config
      && (all_bytes is_hex q.config_digest && length q.config_digest == 64)
      && bytes_eq (sha256_hex q.config) q.config_digest

  -- The state that `loadResult` accepts.
  unfoldable pub valid_validation : Validation → Bool
  valid_validation v = not (v.config_version == 0) && not (length v.config_digest == 0)

  unfoldable pub load_result : Io Disk LoadError Validation
  load_result = do v ← load_file (λ d. d.validation); check (valid_validation v) unreadable; pure v

  abbrev pub verdict : Request → Validation
  verdict q = record {
    config_version = q.config_version;
    config_digest = q.config_digest;
    success = accepts q.config;
    validated_at = now;
  }

  -- The part of `Validate` behind its tests of the previous result.
  unfoldable pub validate_fresh : Request → Io Disk ValidateError Validation
  validate_fresh q = do
    syscall io_failed
    syscall io_failed
    write_atomic io_failed (λ d. record d { candidate = q.config })
    write_atomic io_failed (λ d. record d { validation = holds (verdict q) })
    pure (verdict q)

  -- The `switch` on the previous result.
  unfoldable pub validate_after :
      Request → Outcome LoadError Validation → Io Disk ValidateError Validation
  validate_after q (ok v) =
      if ltb q.config_version v.config_version
      then raise older
      else if q.config_version == v.config_version && not (bytes_eq q.config_digest v.config_digest)
      then raise other_digest
      else if q.config_version == v.config_version
      then pure v
      else validate_fresh q
  validate_after q (err not_exist) = validate_fresh q
  validate_after q (err unreadable) = raise load_failed

  unfoldable pub validate : Request → Io Disk ValidateError Validation
  validate request = do
    check enabled not_configured
    let q = clean_request request
    check (valid_request q) bad_request
    previous ← attempt load_result
    validate_after q previous
