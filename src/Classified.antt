-- ===== src/Classified.antt =====
-- Errors with a class and a recovery status: the constants and error types that
-- internal/xrayruntime/manager.go and internal/xrayupdate/manager.go both declare.
use xui_agent.Io.{Io, LoadError, raise, wrap, Guarded, wrap-Triple, raise-Triple}

pub data ErrorCode : Type 0 where
  validation_failed preparation_failed activation_failed persistence_failed : ErrorCode
  recovery_failed : ErrorCode

pub data RecoveryStatus : Type 0 where
  not_required rolled_back recovery_status_failed unknown : RecoveryStatus

-- `applyError` and `updateError`, without their text.
pub record ApplyError : Type 0 where
  pub code : ErrorCode
  pub recovery : RecoveryStatus

abbrev pub classify : ErrorCode → RecoveryStatus → {F : Type 0} → F → ApplyError
classify c r e = record { code = c; recovery = r }

module _ {S A : Type 0} where
  -- `if err := m; err != nil { return Result{}, newApplyError(c, r, err) }`
  abbrev pub must : ErrorCode → RecoveryStatus → Io S LoadError A → Io S ApplyError A
  must c r m = wrap (classify c r) m

  abbrev pub fail_with : ErrorCode → RecoveryStatus → Io S ApplyError A
  fail_with c r = raise (record { code = c; recovery = r })

module _ {S A : Type 0} {P : S → Type 0} {Q : A → S → Type 0} {Z : S → Type 0} where
  -- An error that is given a class leaves what the step left.
  pub must-Triple :
      {m : Io S LoadError A} (c : ErrorCode) (r : RecoveryStatus)
      → Guarded P m Q Z
      → Guarded P (must c r m) Q Z
  must-Triple c r t = wrap-Triple (classify c r) t (λ e s h. h)

  pub fail_with-Triple :
      (c : ErrorCode) (r : RecoveryStatus) → ((s : S) → P s → Z s) → Guarded P (fail_with c r) Q Z
  fail_with-Triple c r safe = raise-Triple (record { code = c; recovery = r }) safe
