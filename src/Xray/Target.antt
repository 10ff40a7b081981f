-- ===== src/Xray/Target.antt =====
-- The names of immutable configuration versions, internal/xrayruntime/manager.go: how they are built
-- and how their version and digest are read back.
pub mod RoundTrip
use xui_agent.Prelude.{
  ℕ, zero, suc, ◌+◌, ◌-◌, ◌*◌, ◌^◌, ◌≤◌, ◌<◌, ◌≡◌, refl, sym, ap, ◌∙◌, Bool, true, false, ◌&&◌,
  ◌||◌, not, Option, none, some, List, [], ◌∷◌, ◌++◌, map, arith, length, length-append, All, ltb,
  leb, ◌==◌, if◌then◌else◌, inl, inr, Bool-cases,
}
use xui_agent.Spool.Bytes.{Bytes, u64, bytes_eq, bytes_eq_iff}
use xui_agent.Xray.Digits.{
  is_digit, is_hex, all_bytes, to_lower, to_lower_byte, padded, parse_uint64, length-padded,
}

-- "versions/"
abbrev pub versions_prefix : Bytes
versions_prefix = b'v' ∷ b'e' ∷ b'r' ∷ b's' ∷ b'i' ∷ b'o' ∷ b'n' ∷ b's' ∷ b'/' ∷ []

-- ".json"
abbrev pub json_suffix : Bytes
json_suffix = b'.' ∷ b'j' ∷ b's' ∷ b'o' ∷ b'n' ∷ []

-- "repair-"
abbrev pub repair_mark : Bytes
repair_mark = b'r' ∷ b'e' ∷ b'p' ∷ b'a' ∷ b'i' ∷ b'r' ∷ b'-' ∷ []

-- `strings.HasPrefix` and `strings.TrimPrefix` together: what follows the prefix.
unfoldable pub after_prefix : Bytes → Bytes → Option Bytes
after_prefix [] s = some s
after_prefix (p ∷ ps) [] = none
after_prefix (p ∷ ps) (c ∷ cs) = let rest = after_prefix ps cs in if p == c then rest else none

unfoldable pub contains : ℕ → Bytes → Bool
contains x [] = false
contains x (c ∷ cs) = x == c || contains x cs

-- `filepath.Clean` keeps a single element below "versions" as it is, but for "", "." and "..".
abbrev pub is_element : Bytes → Bool
is_element name =
    not (contains b'/' name)
    && not (bytes_eq name [] || bytes_eq name (b'.' ∷ []) || bytes_eq name (b'.' ∷ b'.' ∷ []))

abbrev element_after : Option Bytes → Option Bytes
element_after none = none
element_after (some name) = if is_element name then some name else none

-- The file name of a valid target, `filepath.Base(target)`, or none where `validateTarget` fails.
unfoldable pub target_name : Bytes → Option Bytes
unfolding after_prefix contains
target_name target = element_after (after_prefix versions_prefix target)

unfoldable pub validate_target : Bytes → Bool
unfolding target_name
validate_target target = elim (target_name target) [ none ↦ false | some _ ↦ true ]

-- `strings.TrimSuffix(name, ".json")`
unfoldable pub trim_json : Bytes → Bytes
trim_json [] = []
trim_json (c ∷ cs) = if bytes_eq (c ∷ cs) json_suffix then [] else c ∷ trim_json cs

-- `strings.Split(name, "-")`: the part before the first dash, and the name behind it, if any.
unfoldable pub cut_dash : Bytes → Bytes × Option Bytes
cut_dash [] = ([], none)
cut_dash (c ∷ cs) =
    let (part, rest) = cut_dash cs in if c == b'-' then ([], some cs) else (c ∷ part, rest)

abbrev with_version : Option ℕ → Bytes → Option (ℕ × Bytes)
with_version none digest = none
with_version (some version) digest =
    if version == 0 || not (all_bytes is_hex digest) then none else some (version, to_lower digest)

-- The parts are long enough, the version is a positive number and the digest is hexadecimal.
abbrev parts_metadata : Bytes → Option Bytes → Option (ℕ × Bytes)
parts_metadata first none = none
parts_metadata first (some rest) =
    let digest = (cut_dash rest).0 in
    if length first == 20 && length digest == 64
    then with_version (parse_uint64 first) digest
    else none

unfoldable pub name_metadata : Bytes → Option (ℕ × Bytes)
name_metadata name = let (first, rest) = cut_dash (trim_json name) in parts_metadata first rest

abbrev metadata_of : Option Bytes → Option (ℕ × Bytes)
metadata_of none = none
metadata_of (some name) = name_metadata name

unfoldable pub target_metadata : Bytes → Option (ℕ × Bytes)
unfolding target_name
target_metadata target = metadata_of (target_name target)

-- `fmt.Sprintf("%020d-%s.json", version, digest)` under "versions/".
unfoldable pub version_target : ℕ → Bytes → Bytes
version_target version digest =
    versions_prefix ++ (padded 20 version ++ (b'-' ∷ (digest ++ json_suffix)))

-- `fmt.Sprintf("%020d-%s-repair-%d.json", …)`: `stamp` is the time's decimal digits.
unfoldable pub repair_target : ℕ → Bytes → Bytes → Bytes
repair_target version digest stamp =
    versions_prefix
    ++ (padded 20 version ++ (b'-' ∷ (digest ++ (b'-' ∷ (repair_mark ++ (stamp ++ json_suffix))))))
