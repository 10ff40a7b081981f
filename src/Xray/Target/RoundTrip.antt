-- ===== src/Xray/Target/RoundTrip.antt =====
-- The version and the digest of a target are read back as they were put into its name.
use xui_agent.Prelude.{
  ℕ, suc, ◌^◌, ◌<◌, ◌≡◌, refl, ap, ◌∙◌, Bool, true, false, ◌&&◌, ◌||◌, none, some, [], ◌∷◌, ◌++◌,
  arith, length, length-append, leb, ◌==◌, inl, inr, Bool-cases,
}
use mathlib.Core.List.{append_assoc}
use xui_agent.Spool.Bytes.{Bytes, u64, bytes_eq, bytes_eq_iff}
use xui_agent.Xray.Digits.{
  is_digit, is_hex, all_bytes, to_lower, padded, parse_uint64, length-padded, parse-padded,
  padded-is_digit,
}
use xui_agent.Xray.Target.{
  json_suffix, contains, target_name, validate_target, trim_json, cut_dash, name_metadata,
  target_metadata, version_target,
}

unfoldable pub is_lower_hex : ℕ → Bool
is_lower_hex c = (leb b'0' c && leb c b'9') || (leb b'a' c && leb c b'f')

-- 64 lower case hexadecimal digits.
abbrev pub IsDigest : Bytes → Type 0
IsDigest d = (length d ≡ 64) × (all_bytes is_lower_hex d ≡ true)

contains-append :
    (x : ℕ) (a b : Bytes)
    → contains x a ≡ false
    → contains x b ≡ false
    → contains x (a ++ b) ≡ false
unfolding contains
contains-append x [] b h k = k
contains-append x (c ∷ a) b h k = ground (arith, contains-append x a b)

all_bytes-contains :
    (p : ℕ → Bool) (x : ℕ) (a : Bytes)
    → ((c : ℕ) → p c ≡ true → (x == c) ≡ false)
    → all_bytes p a ≡ true
    → contains x a ≡ false
unfolding contains all_bytes
all_bytes-contains p x [] no_x h = refl
all_bytes-contains p x (c ∷ a) no_x h = ground (arith, no_x c, all_bytes-contains p x a no_x)

bytes_eq-longer : (a b : Bytes) → length b < length a → bytes_eq a b ≡ false
bytes_eq-longer a b h = elim (Bool-cases (bytes_eq a b)) [
  | inl e ↦ absurd (omega (arith, ap length ((bytes_eq_iff a b).0 e)))
  | inr ne ↦ ne
]

trim_json-append : (a : Bytes) → trim_json (a ++ json_suffix) ≡ a
unfolding trim_json bytes_eq
trim_json-append [] = refl
trim_json-append (c ∷ a) =
    rw
      (bytes_eq-longer (c ∷ (a ++ json_suffix)) json_suffix
        (omega (arith, length-append a json_suffix)))
      (ap (λ r. c ∷ r) (trim_json-append a))

cut_dash-append : (a r : Bytes) → contains b'-' a ≡ false → cut_dash (a ++ (b'-' ∷ r)) ≡ (a, some r)
unfolding cut_dash contains
cut_dash-append [] r h = refl
cut_dash-append (c ∷ a) r h = ground (arith, cut_dash-append a r)

cut_dash-all : (a : Bytes) → contains b'-' a ≡ false → cut_dash a ≡ (a, none)
unfolding cut_dash contains
cut_dash-all [] h = refl
cut_dash-all (c ∷ a) h = ground (arith, cut_dash-all a)

to_lower-lower : (a : Bytes) → all_bytes is_lower_hex a ≡ true → to_lower a ≡ a
unfolding to_lower all_bytes is_lower_hex
to_lower-lower [] h = refl
to_lower-lower (c ∷ a) h = ground (arith, to_lower-lower a)

pub is_hex-lower : (a : Bytes) → all_bytes is_lower_hex a ≡ true → all_bytes is_hex a ≡ true
unfolding all_bytes is_hex is_lower_hex
is_hex-lower [] h = refl
is_hex-lower (c ∷ a) h = ground (arith, is_hex-lower a)

digit-low : (x c : ℕ) → x < b'0' → is_digit c ≡ true → (x == c) ≡ false
unfolding is_digit
digit-low x c h k = ground arith

lower_hex-low : (x c : ℕ) → x < b'0' → is_lower_hex c ≡ true → (x == c) ≡ false
unfolding is_lower_hex
lower_hex-low x c h k = ground arith

parse_uint64-padded :
    (w n : ℕ) → n < 10 ^ suc w → n < u64 → parse_uint64 (padded (suc w) n) ≡ some n
unfolding parse_uint64 padded
parse_uint64-padded w n h k = parse-padded (suc w) n 0 h (omega arith) ∙ ap some (omega arith)

name_of : ℕ → Bytes → Bytes
name_of version digest = padded 20 version ++ (b'-' ∷ (digest ++ json_suffix))

metadata-name_of :
    (version : ℕ) (digest : Bytes)
    → 0 < version
    → version < u64
    → IsDigest digest
    → name_metadata (name_of version digest) ≡ some (version, digest)
unfolding name_metadata name_of
metadata-name_of version digest pos fits d =
    let pad = padded 20 version in
    let digits = padded-is_digit 20 version (omega arith) in
    let shape : (pad ++ (b'-' ∷ digest)) ++ json_suffix ≡ pad ++ (b'-' ∷ (digest ++ json_suffix)) =
      append_assoc pad (b'-' ∷ digest) json_suffix in
    let trimmed : trim_json (pad ++ (b'-' ∷ (digest ++ json_suffix))) ≡ pad ++ (b'-' ∷ digest) =
      rw (← shape) (trim_json-append (pad ++ (b'-' ∷ digest))) in
    let cut : cut_dash (pad ++ (b'-' ∷ digest)) ≡ (pad, some digest) =
      cut_dash-append pad digest
        (all_bytes-contains is_digit b'-' pad (λ c. digit-low b'-' c (omega arith)) digits) in
    let cut' : cut_dash digest ≡ (digest, none) =
      cut_dash-all digest (
        all_bytes-contains is_lower_hex b'-' digest (λ c. lower_hex-low b'-' c (omega arith))
          d.1) in
    let parsed : parse_uint64 pad ≡ some version =
      parse_uint64-padded 19 version (omega arith) fits in
    rw (trimmed, cut, cut')
      (ground (
        arith,
        parsed,
        length-padded 20 version,
        is_hex-lower digest d.1,
        to_lower-lower digest d.1,
      ))

not_special :
    (a : Bytes)
    → 2 < length a
    → (bytes_eq a [] || bytes_eq a (b'.' ∷ []) || bytes_eq a (b'.' ∷ b'.' ∷ [])) ≡ false
not_special a h = ground (
  arith,
  bytes_eq-longer a [] (omega arith),
  bytes_eq-longer a (b'.' ∷ []) (omega arith),
  bytes_eq-longer a (b'.' ∷ b'.' ∷ []) (omega arith),
)

target_name-version_target :
    (version : ℕ) (digest : Bytes)
    → version < u64
    → IsDigest digest
    → target_name (version_target version digest) ≡ some (name_of version digest)
unfolding target_name version_target name_of
target_name-version_target version digest fits d =
    let no_slash =
      contains-append b'/' (padded 20 version) (b'-' ∷ (digest ++ json_suffix))
        (all_bytes-contains is_digit b'/' (padded 20 version) (λ c. digit-low b'/' c (omega arith))
          (padded-is_digit 20 version (omega arith)))
        (contains-append b'/' digest json_suffix
          (all_bytes-contains is_lower_hex b'/' digest (λ c. lower_hex-low b'/' c (omega arith))
            d.1)
          refl) in
    rw (
      no_slash,
      not_special (padded 20 version ++ (b'-' ∷ (digest ++ json_suffix))) (
          omega (
            arith,
            length-append (padded 20 version) (b'-' ∷ (digest ++ json_suffix)),
            length-padded 20 version,
          )),
    )

-- The name of the version file of a positive 64-bit version with a SHA-256 digest is a valid target,
-- and that version and digest are read back from it.
pub target_metadata-version_target :
    (version : ℕ) (digest : Bytes)
    → 0 < version
    → version < u64
    → IsDigest digest
    → (validate_target (version_target version digest) ≡ true)
      × (target_metadata (version_target version digest) ≡ some (version, digest))
unfolding validate_target target_metadata
target_metadata-version_target version digest pos fits d =
    let name = target_name-version_target version digest fits d in
    (
      rw (name, validate_target),
      rw (name, target_metadata) (metadata-name_of version digest pos fits d),
    )
