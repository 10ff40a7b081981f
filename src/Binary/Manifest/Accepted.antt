-- ===== src/Binary/Manifest/Accepted.antt =====
-- Exactly which archives `validateBundleArchive` accepts.
use xui_agent.Prelude.{
  ℕ, ◌+◌, ◌≤◌, ◌≡◌, ◌↔◌, refl, ap, ◌∙◌, arith, Bool, true, false, Option, none, some, List, [], ◌∷◌,
  Outcome, ok, err, All, if◌then◌else◌,
}
use xui_agent.Spool.Bytes.{Bytes}
use xui_agent.Versions.{find_version}
use xui_agent.Retention.{member}
use xui_agent.Binary.Manifest.{
  Entry, ArchiveError, missing_file, allowed, max_expanded_bytes, required_files, after_entry,
  check_entries, all_seen, with_required, validate_archive,
}

-- An allowed name, and a regular file of at least one byte and at most the limit of that name.
pub record IsEntry (e : Entry) : Type 0 where
  pub limit : ℕ
  pub is_allowed : find_version e.name allowed ≡ some limit
  pub is_regular : e.regular ≡ true
  pub not_empty : 1 ≤ e.size
  pub small : e.size ≤ limit

unfoldable pub total : List Entry → ℕ
total [] = 0
total (e ∷ es) = e.size + total es

-- No entry has a name that was seen before.
abbrev pub Fresh : List Bytes → List Entry → Type 0
Fresh seen [] = Unit {0}
Fresh seen (e ∷ es) = (member e.name seen ≡ false) × Fresh (e.name ∷ seen) es

unfoldable pub names : List Entry → List Bytes → List Bytes
names [] seen = seen
names (e ∷ es) seen = names es (e.name ∷ seen)

-- Entries that are all allowed, under different names, together no larger than the limit, with every
-- required file among them.
pub record IsArchive (es : List Entry) : Type 0 where
  pub each : All IsEntry es
  pub fresh : Fresh [] es
  pub fits : total es ≤ max_expanded_bytes
  pub complete : all_seen required_files (names es []) ≡ true

after_entry-IsEntry :
    (limit : Option ℕ) (e : Entry) (expanded : ℕ) (seen r : List Bytes)
    (rest : Outcome ArchiveError (List Bytes))
    → find_version e.name allowed ≡ limit
    → after_entry limit e expanded seen rest ≡ ok r
    → IsEntry e
      × ((member e.name seen ≡ false) × ((expanded + e.size ≤ max_expanded_bytes) × (rest ≡ ok r)))
after_entry-IsEntry none e expanded seen r rest f h = absurd (ground (arith, h))
after_entry-IsEntry (some l) e expanded seen r rest f h = (
  record {
    limit = l;
    is_allowed = f;
    is_regular = ground (arith, h);
    not_empty = ground (arith, h);
    small = ground (arith, h);
  },
  (ground (arith, h), (ground (arith, h), ground (arith, h))),
)

IsEntry-after_entry :
    (limit : Option ℕ) (e : Entry) (expanded : ℕ) (seen : List Bytes)
    (rest : Outcome ArchiveError (List Bytes))
    → find_version e.name allowed ≡ limit
    → IsEntry e
    → member e.name seen ≡ false
    → expanded + e.size ≤ max_expanded_bytes
    → after_entry limit e expanded seen rest ≡ rest
IsEntry-after_entry none e expanded seen rest f k fresh fits =
    absurd (ground (arith, f, k.is_allowed))
IsEntry-after_entry (some l) e expanded seen rest f k fresh fits =
    let same : l ≡ k.limit = (ground (arith, f, k.is_allowed)) in
    ground (arith, same, k.is_regular, k.not_empty, k.small, fresh, fits)

-- What the loop accepts, from any state of its variables that is within the limit.
check_entries_sound :
    (es : List Entry) (expanded : ℕ) (seen r : List Bytes)
    → expanded ≤ max_expanded_bytes
    → check_entries es expanded seen ≡ ok r
    → All IsEntry es
      × (Fresh seen es × ((expanded + total es ≤ max_expanded_bytes) × (names es seen ≡ r)))
unfolding check_entries total names
check_entries_sound [] expanded seen r small h = (tt, (tt, (omega arith, ground (arith, h))))
check_entries_sound (e ∷ es) expanded seen r small h =
    let one =
      after_entry-IsEntry (find_version e.name allowed) e expanded seen r
        (check_entries es (expanded + e.size) (e.name ∷ seen)) refl h in
    let later = check_entries_sound es (expanded + e.size) (e.name ∷ seen) r one.1.1.0 one.1.1.1 in
    ((one.0, later.0), ((one.1.0, later.1.0), (omega (arith, later.1.1.0), later.1.1.1)))

check_entries_complete :
    (es : List Entry) (expanded : ℕ) (seen : List Bytes)
    → All IsEntry es
    → Fresh seen es
    → expanded + total es ≤ max_expanded_bytes
    → check_entries es expanded seen ≡ ok (names es seen)
unfolding check_entries total names
check_entries_complete [] expanded seen each fresh fits = refl
check_entries_complete (e ∷ es) expanded seen each fresh fits =
    IsEntry-after_entry (find_version e.name allowed) e expanded seen
      (check_entries es (expanded + e.size) (e.name ∷ seen)) refl each.0 fresh.0
      (omega (arith, fits))
    ∙ check_entries_complete es (expanded + e.size) (e.name ∷ seen) each.1 fresh.1
        (omega (arith, fits))

abbrev accepted : Outcome ArchiveError (Unit {0})
accepted = ok tt

all_seen-true : (b : Bool) → (if b then ok tt else err missing_file) ≡ accepted → b ≡ true
all_seen-true true k = refl
all_seen-true false k = absurd (ground (arith, k))

required_sound :
    (es : List Entry) (c : Outcome ArchiveError (List Bytes))
    → check_entries es 0 [] ≡ c
    → with_required c ≡ ok tt
    → IsArchive es
required_sound es (err x) e h = absurd (ground (arith, h))
required_sound es (ok r) e h =
    let loop = check_entries_sound es 0 [] r (omega arith) e in
    record {
      each = loop.0;
      fresh = loop.1.0;
      fits = omega (arith, loop.1.1.0);
      complete =
          ap (all_seen required_files) loop.1.1.1 ∙ all_seen-true (all_seen required_files r) h;
    }

required_complete : (es : List Entry) → IsArchive es → with_required (check_entries es 0 []) ≡ ok tt
required_complete es k =
    let loop : check_entries es 0 [] ≡ ok (names es []) =
      check_entries_complete es 0 [] k.each k.fresh (omega (arith, k.fits)) in
    rw (loop, k.complete) refl

-- An archive is accepted exactly if each entry has an allowed name and is a regular file of at least one
-- byte and at most the limit of its name, no name is there twice, all are together at most 128 MiB, and
-- the three required files are there.
pub validate_archive-IsArchive : (es : List Entry) → (validate_archive es ≡ ok tt) ↔ IsArchive es
unfolding validate_archive
validate_archive-IsArchive es =
    (required_sound es (check_entries es 0 []) refl, required_complete es)
