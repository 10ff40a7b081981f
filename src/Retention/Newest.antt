-- ===== src/Retention/Newest.antt =====
-- What is removed stands behind the first few versions, and is no newer than these.
use xui_agent.Prelude.{
  ℕ, zero, suc, ◌≤◌, ◌≡◌, refl, true, false, List, [], ◌∷◌, arith, All, All-map, Bool-cases, inl,
  inr, take, drop,
}
use mathlib.Core.List.Perm
use mathlib.Core.List.{Perm}
use xui_agent.Retention.{
  Stamped, newer, insert_entry, sort_entries, member, to_remove, to_remove-unprotected,
}
use xui_agent.Spool.Bytes.{Bytes}

abbrev pub NoNewer : Stamped → Stamped → Type 0
NoNewer x y = y.1 ≤ x.1

-- Every entry is at least as new as those behind it.
abbrev pub IsSorted : List Stamped → Type 0
IsSorted [] = Unit {0}
IsSorted (x ∷ xs) = All (NoNewer x) xs × IsSorted xs

newer-le : (x y : Stamped) → newer x y ≡ true → y.1 ≤ x.1
unfolding newer
newer-le (s, m) (t, n) h = ground arith

not_newer-le : (x y : Stamped) → newer x y ≡ false → x.1 ≤ y.1
unfolding newer
not_newer-le (s, m) (t, n) h = ground arith

All-insert_entry :
    (P : Stamped → Type 0) (e : Stamped) (xs : List Stamped)
    → P e
    → All P xs
    → All P (insert_entry e xs)
unfolding insert_entry
All-insert_entry P e [] p ps = (p, tt)
All-insert_entry P e (x ∷ xs) p ps = elim (Bool-cases (newer x e)) [
  | inl h ↦ rw h (ps.0, All-insert_entry P e xs p ps.1)
  | inr h ↦ rw h (p, (ps.0, ps.1))
]

insert_entry-IsSorted :
    (e : Stamped) (xs : List Stamped) → IsSorted xs → IsSorted (insert_entry e xs)
unfolding insert_entry
insert_entry-IsSorted e [] h = (tt, tt)
insert_entry-IsSorted e (x ∷ xs) h = elim (Bool-cases (newer x e)) [
  | inl k ↦
      rw k (All-insert_entry (NoNewer x) e xs (newer-le x e k) h.0, insert_entry-IsSorted e xs h.1)
  | inr k ↦
      let le = not_newer-le x e k in rw k ((le, All-map (λ y l. omega arith) xs h.0), (h.0, h.1))
]

pub sort_entries-IsSorted : (xs : List Stamped) → IsSorted (sort_entries xs)
unfolding sort_entries
sort_entries-IsSorted [] = tt
sort_entries-IsSorted (x ∷ xs) =
    insert_entry-IsSorted x (sort_entries xs) (sort_entries-IsSorted xs)

insert_entry-Perm : (e : Stamped) (xs : List Stamped) → Perm (insert_entry e xs) (e ∷ xs)
unfolding insert_entry
insert_entry-Perm e [] = Perm.refl (e ∷ [])
insert_entry-Perm e (x ∷ xs) = elim (Bool-cases (newer x e)) [
  | inl h ↦ rw h (Perm.trans (Perm.cons x (insert_entry-Perm e xs)) (Perm.swap e x xs))
  | inr h ↦ rw h (Perm.refl (e ∷ x ∷ xs))
]

All-drop : (P : Stamped → Type 0) (k : ℕ) (xs : List Stamped) → All P xs → All P (drop k xs)
All-drop P zero xs h = h
All-drop P (suc k) [] h = tt
All-drop P (suc k) (x ∷ xs) h = All-drop P k xs h.1

take-NoNewer :
    (k : ℕ) (xs : List Stamped) → IsSorted xs → All (λ x. All (NoNewer x) (drop k xs)) (take k xs)
take-NoNewer zero xs h = tt
take-NoNewer (suc k) [] h = tt
take-NoNewer (suc k) (x ∷ xs) h = (All-drop (NoNewer x) k xs h.0, take-NoNewer k xs h.1)

to_remove-drop :
    (k : ℕ) (protected : List Bytes) (xs : List Stamped)
    → to_remove k protected xs ≡ to_remove 0 protected (drop k xs)
unfolding to_remove
to_remove-drop zero protected xs = refl
to_remove-drop (suc k) protected [] = refl
to_remove-drop (suc k) protected ((t, m) ∷ xs) = to_remove-drop k protected xs

sort_entries-Perm : (xs : List Stamped) → Perm (sort_entries xs) xs
unfolding sort_entries
sort_entries-Perm [] = Perm.refl []
sort_entries-Perm (x ∷ xs) =
    Perm.trans (insert_entry-Perm x (sort_entries xs)) (Perm.cons x (sort_entries-Perm xs))

-- Whatever is protected: the files that pruning looks at are those that were found, sorted; it removes
-- only from those behind the first `k`; of these no one is newer than one of the first `k`; and it
-- removes none that is protected.
pub to_remove-Newest :
    (k : ℕ) (protected : List Bytes) (found : List Stamped)
    → Perm (sort_entries found) found
      × ((to_remove k protected (sort_entries found)
            ≡ to_remove 0 protected (drop k (sort_entries found)))
          × (All (λ x. All (NoNewer x) (drop k (sort_entries found))) (take k (sort_entries found))
              × All (λ t. member t protected ≡ false) (to_remove k protected (sort_entries found))))
to_remove-Newest k protected found = (
  sort_entries-Perm found,
  (
    to_remove-drop k protected (sort_entries found),
    (
      take-NoNewer k (sort_entries found) (sort_entries-IsSorted found),
      to_remove-unprotected k protected (sort_entries found),
    ),
  ),
)
