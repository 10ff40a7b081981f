-- ===== src/Versions.antt =====
-- A directory of versions as a list of names and what stands under them. The packages xrayruntime,
-- xrayupdate and update keep such a directory.
use xui_agent.Prelude.{
  ◌≡◌, refl, sym, ap, true, false, Option, none, some, List, [], ◌∷◌, inl, inr, Bool-cases, arith,
  if◌then◌else◌,
}
use xui_agent.Spool.Bytes.{Bytes, bytes_eq, bytes_eq_iff}

pub bytes_eq_refl : (b : Bytes) → bytes_eq b b ≡ true
bytes_eq_refl b = (bytes_eq_iff b b).1 refl

pub bytes_eq_sym : (a b : Bytes) → bytes_eq a b ≡ false → bytes_eq b a ≡ false
bytes_eq_sym a b h = elim (Bool-cases (bytes_eq b a)) [
  | inl e ↦ ground (arith, (bytes_eq_iff a b).1 (sym ((bytes_eq_iff b a).0 e)))
  | inr ne ↦ ne
]

module _ {V : Type 0} where
  -- The first file under a name in a directory listing.
  unfoldable pub find_version : Bytes → List (Bytes × V) → Option V
  find_version target [] = none
  find_version target ((t, f) ∷ rest) =
      let later = find_version target rest in if bytes_eq t target then some f else later

  -- A file that is renamed into place.
  unfoldable pub put_version : Bytes → V → List (Bytes × V) → List (Bytes × V)
  put_version target file [] = (target, file) ∷ []
  put_version target file ((t, f) ∷ rest) =
      let later = put_version target file rest in
      if bytes_eq t target then (target, file) ∷ rest else (t, f) ∷ later

  unfoldable pub remove_version : Bytes → List (Bytes × V) → List (Bytes × V)
  remove_version target [] = []
  remove_version target ((t, f) ∷ rest) =
      let later = remove_version target rest in if bytes_eq t target then later else (t, f) ∷ later

  -- A change of what stands under a name.
  unfoldable pub change_version : Bytes → (V → V) → List (Bytes × V) → List (Bytes × V)
  change_version target change [] = []
  change_version target change ((t, f) ∷ rest) =
      let later = change_version target change rest in
      (t, if bytes_eq t target then change f else f) ∷ later

  module _ (target : Bytes) (file : V) where
    pub find_version-put_version :
        (vs : List (Bytes × V)) → find_version target (put_version target file vs) ≡ some file
    unfolding find_version put_version
    find_version-put_version [] = ground (arith, bytes_eq_refl target)
    find_version-put_version ((t, f) ∷ vs) =
        ground (arith, bytes_eq_refl target, find_version-put_version vs)

    pub find_version-put_other :
        (other : Bytes) (vs : List (Bytes × V))
        → bytes_eq target other ≡ false
        → find_version other (put_version target file vs) ≡ find_version other vs
    unfolding find_version put_version
    find_version-put_other other [] h = ground arith
    find_version-put_other other ((t, f) ∷ vs) h =
        ground (arith, find_version-put_other other vs h, (bytes_eq_iff t target).0)

  pub find_version-change_version :
      (target : Bytes) (change : V → V) (v : V) (vs : List (Bytes × V))
      → find_version target vs ≡ some v
      → find_version target (change_version target change vs) ≡ some (change v)
  unfolding find_version change_version
  find_version-change_version target change v [] h = ground (arith, h)
  find_version-change_version target change v ((t, f) ∷ vs) h =
      elim (Bool-cases (bytes_eq t target)) [
        | inl e ↦ let same : f ≡ v = (ground (arith, h, e)) in rw e (ap (λ x. some (change x)) same)
        | inr ne ↦ ground (arith, ne, find_version-change_version target change v vs, h)
      ]

  pub find_version-remove_other :
      (target other : Bytes) (vs : List (Bytes × V))
      → bytes_eq target other ≡ false
      → find_version other (remove_version target vs) ≡ find_version other vs
  unfolding find_version remove_version
  find_version-remove_other target other [] h = refl
  find_version-remove_other target other ((t, f) ∷ vs) h =
      ground (arith, find_version-remove_other target other vs h, (bytes_eq_iff t target).0)

  pub find_version-change_other :
      (target other : Bytes) (change : V → V) (vs : List (Bytes × V))
      → bytes_eq target other ≡ false
      → find_version other (change_version target change vs) ≡ find_version other vs
  unfolding find_version change_version
  find_version-change_other target other change [] h = refl
  find_version-change_other target other change ((t, f) ∷ vs) h =
      ground (arith, find_version-change_other target other change vs h, (bytes_eq_iff t target).0)
