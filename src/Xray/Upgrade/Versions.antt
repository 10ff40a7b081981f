-- ===== src/Xray/Upgrade/Versions.antt =====
-- Writing and removing version files leaves those under other names alone.
pub use xui_agent.Versions.{
  bytes_eq_refl, bytes_eq_sym, find_version-put_version, find_version-put_other,
  find_version-remove_other,
}
pub use xui_agent.Retention.{to_remove-unprotected, member-other}
use xui_agent.Prelude.{◌≡◌, ◌∙◌, false, List}
use xui_agent.Spool.Bytes.{Bytes, bytes_eq}
use xui_agent.Xray.Disk.{AppliedState, VersionFile, Env, put_version, remove_version}
use xui_agent.Xray.Upgrade.{IsIntact}

-- An intact version file stays intact when one under another name is written or removed.
pub IsIntact-put_other :
    {env : Env} {a : AppliedState} {vs : List (Bytes × VersionFile)} (target : Bytes)
    (file : VersionFile)
    → bytes_eq target a.target ≡ false
    → IsIntact env a vs
    → IsIntact env a (put_version target file vs)
IsIntact-put_other {a = a} {vs = vs} target file h k = record {
  file = k.file;
  found = find_version-put_other target file a.target vs h ∙ k.found;
  is_regular = k.is_regular;
  digest = k.digest;
}

pub IsIntact-remove_other :
    {env : Env} {a : AppliedState} {vs : List (Bytes × VersionFile)} (target : Bytes)
    → bytes_eq target a.target ≡ false
    → IsIntact env a vs
    → IsIntact env a (remove_version target vs)
IsIntact-remove_other {a = a} {vs = vs} target h k = record {
  file = k.file;
  found = find_version-remove_other target a.target vs h ∙ k.found;
  is_regular = k.is_regular;
  digest = k.digest;
}
