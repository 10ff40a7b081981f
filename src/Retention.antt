-- ===== src/Retention.antt =====
-- Which old versions are removed. `pruneVersions` of xrayruntime, xrayupdate and update sorts the
-- versions that it found, keeps the first few, and removes those of the others that nothing names.
pub mod Newest
use xui_agent.Prelude.{
  ℕ, zero, suc, ◌≡◌, Bool, true, false, ◌||◌, List, [], ◌∷◌, ltb, ◌==◌, if◌then◌else◌, ap, arith,
  All, Bool-cases, inl, inr,
}
use xui_agent.Spool.Bytes.{Bytes, bytes_eq, bytes_eq_iff, bytes_lt}

-- A name and its modification time.
abbrev pub Stamped : Type 0
Stamped = Bytes × ℕ

-- The comparison of the `sort.Slice`: newer first, then by name backwards.
unfoldable pub newer : Stamped → Stamped → Bool
newer (s, m) (t, n) = if m == n then bytes_lt t s else ltb n m

unfoldable pub insert_entry : Stamped → List Stamped → List Stamped
insert_entry e [] = e ∷ []
insert_entry e (x ∷ xs) = let rest = insert_entry e xs in if newer x e then x ∷ rest else e ∷ x ∷ xs

unfoldable pub sort_entries : List Stamped → List Stamped
unfolding insert_entry newer
sort_entries [] = []
sort_entries (x ∷ xs) = insert_entry x (sort_entries xs)

unfoldable pub member : Bytes → List Bytes → Bool
member t [] = false
member t (x ∷ xs) = bytes_eq x t || member t xs

-- The loop over the sorted files: those behind the first `keep` that are not protected.
unfoldable pub to_remove : ℕ → List Bytes → List Stamped → List Bytes
to_remove keep protected [] = []
to_remove zero protected ((t, m) ∷ rest) =
    let later = to_remove zero protected rest in if member t protected then later else t ∷ later
to_remove (suc keep) protected ((t, m) ∷ rest) = to_remove keep protected rest

-- None of the files to remove is protected.
pub to_remove-unprotected :
    (keep : ℕ) (protected : List Bytes) (es : List Stamped)
    → All (λ t. member t protected ≡ false) (to_remove keep protected es)
unfolding to_remove
to_remove-unprotected keep protected [] = tt
to_remove-unprotected zero protected ((t, f) ∷ es) = elim (Bool-cases (member t protected)) [
  | inl e ↦ rw e (to_remove-unprotected zero protected es)
  | inr ne ↦ rw ne (ne, to_remove-unprotected zero protected es)
]
to_remove-unprotected (suc keep) protected ((t, f) ∷ es) = to_remove-unprotected keep protected es

pub member-other :
    (t target : Bytes) (protected : List Bytes)
    → member target protected ≡ true
    → member t protected ≡ false
    → bytes_eq t target ≡ false
member-other t target protected h k = elim (Bool-cases (bytes_eq t target)) [
  | inl e ↦ ground (arith, ap (λ x. member x protected) ((bytes_eq_iff t target).0 e))
  | inr ne ↦ ne
]
