-- ===== src/Binary/Upgrade/Writing.antt =====
-- Writing the files of an archive: what is written verifies.
use xui_agent.Prelude.{
  ℕ, suc, ◌+◌, arith, ◌≡◌, refl, sym, subst, ◌∙◌, true, false, ◌==◌, Option, none, some, List, [],
  ◌∷◌, length, ltb, All, Bool-cases, inl, inr, if◌then◌else◌,
}
use xui_agent.Spool.Bytes.{Bytes, bytes_eq, bytes_eq_iff}
use xui_agent.Versions.{bytes_eq_refl, find_version-put_version, find_version-put_other}
use xui_agent.Binary.Manifest.{Entry, is_required, entry_limit, xray_name, geoip_name, geosite_name}
use xui_agent.Binary.Disk.{BundleFile, Disk, Env, find_version, put_version}
use xui_agent.Binary.Bundle.{
  Written, unreadable, secure_file, copy_entry, write_entry, write_entries, add_entry, fresh_entry,
}
use xui_agent.Binary.Upgrade.{IsVerified}
use xui_agent.Io.{
  Guarded, bind-Triple, consequence, given-Triple, pure-Triple, raise-Triple, check-Triple,
  syscall-Triple,
}

abbrev counted : Option Bytes → ℕ
counted none = 0
counted (some d) = 1

abbrev hit : Bytes → Bytes → ℕ
hit name r = if bytes_eq name r then 1 else 0

-- How many of the required files have a digest.
abbrev pub count : List (Bytes × Bytes) → ℕ
count ds =
    counted (find_version xray_name ds)
    + counted (find_version geoip_name ds)
    + counted (find_version geosite_name ds)

module _ (name value : Bytes) where
  length-put_version :
      (ds : List (Bytes × Bytes))
      → find_version name ds ≡ none
      → length (put_version name value ds) ≡ suc (length ds)
  unfolding put_version find_version
  length-put_version [] h = refl
  length-put_version ((t, d) ∷ ds) h = ground (arith, length-put_version ds)

  module _ (ds : List (Bytes × Bytes)) (gone : find_version name ds ≡ none) where
    count_at :
        (r : Bytes)
        → counted (find_version r (put_version name value ds))
          ≡ hit name r + counted (find_version r ds)
    count_at r = elim (Bool-cases (bytes_eq name r)) [
      | inl e ↦
          subst
            (λ r.
              counted (find_version r (put_version name value ds))
              ≡ hit name r + counted (find_version r ds))
            ((bytes_eq_iff name r).0 e)
            (ground (arith, gone, bytes_eq_refl name, find_version-put_version name value ds))
      | inr ne ↦ ground (arith, find_version-put_other name value r ds ne)
    ]

    one_of :
        is_required name ≡ true
        → hit name xray_name + hit name geoip_name + hit name geosite_name ≡ 1
    unfolding is_required bytes_eq
    one_of h = ground (
      arith,
      (bytes_eq_iff name xray_name).0,
      (bytes_eq_iff name geoip_name).0,
      (bytes_eq_iff name geosite_name).0,
    )

    count-put_version : is_required name ≡ true → count (put_version name value ds) ≡ suc (count ds)
    count-put_version h =
        omega (arith, one_of h, count_at xray_name, count_at geoip_name, count_at geosite_name)

-- Every digest is of a file that verifies, and there are as many as required files that have one.
pub record IsConsistent (env : Env) (w : Written) : Type 0 where
  pub verified :
      (name d : Bytes) → find_version name w.digests ≡ some d → IsVerified env w.files name d
  pub all_counted : length w.digests ≡ count w.digests

pub empty-IsConsistent : (env : Env) → IsConsistent env (record { files = []; digests = [] })
unfolding find_version
empty-IsConsistent env = record {
  verified = λ name d h. absurd (ground (arith, h));
  all_counted = refl;
}

abbrev pub IsNonempty : Entry → Type 0
IsNonempty e = (e.size == 0) ≡ false

module _ (env : Env) (w : Written) (k : IsConsistent env w) (e : Entry) where
  abbrev w' : Written
  w' = add_entry env e w

  absent :
      (found : Option Bytes)
      → find_version e.name w.digests ≡ found
      → find_version e.name w.files ≡ none
      → found ≡ none
  absent none h gone = refl
  absent (some d) h gone = let v = k.verified e.name d h in absurd (ground (arith, v.there, gone))

  module _ (secure : secure_file env e.name (fresh_entry env e) ≡ true) where
    added : (d : Bytes) → find_version e.name w'.digests ≡ some d → IsVerified env w'.files e.name d
    added d h =
        let same : env.sha256_hex e.content ≡ d =
          (ground
            (arith, h, find_version-put_version e.name (env.sha256_hex e.content) w.digests)) in
        record {
          file = fresh_entry env e;
          there = find_version-put_version e.name (fresh_entry env e) w.files;
          secure = secure;
          digest = (bytes_eq_iff (env.sha256_hex e.content) d).1 same;
        }

    add-IsVerified :
        (name d : Bytes) → find_version name w'.digests ≡ some d → IsVerified env w'.files name d
    add-IsVerified name d h = elim (Bool-cases (bytes_eq e.name name)) [
      | inl q ↦
          let same = (bytes_eq_iff e.name name).0 q in
          subst (λ x. IsVerified env w'.files x d) same
            (added d (subst (λ x. find_version x w'.digests ≡ some d) (sym same) h))
      | inr ne ↦
          let v = k.verified name d (
            sym (find_version-put_other e.name (env.sha256_hex e.content) name w.digests ne) ∙ h) in
          record {
            file = v.file;
            there = find_version-put_other e.name (fresh_entry env e) name w.files ne ∙ v.there;
            secure = v.secure;
            digest = v.digest;
          }
    ]

    add-IsConsistent :
        find_version e.name w.files ≡ none → is_required e.name ≡ true → IsConsistent env w'
    add-IsConsistent gone required =
        let none_yet = absent (find_version e.name w.digests) refl gone in
        let value = env.sha256_hex e.content in
        record {
          verified = add-IsVerified;
          all_counted = omega (
            arith,
            k.all_counted,
            length-put_version e.name value w.digests none_yet,
            count-put_version e.name value w.digests none_yet required,
          );
        }

module _ {P : Disk → Type 0} (env : Env) where
  copy-Triple :
      (e : Entry)
      → Guarded P
          (copy_entry env e)
          (λ _ s.
            ((length e.content ≡ e.size) × (ltb (entry_limit e.name) (length e.content) ≡ false))
            × P s)
          P
  unfolding copy_entry
  copy-Triple e = bind-Triple (syscall-Triple unreadable (λ s h. h) (λ s h. h)) (λ _.
      consequence (check-Triple _ unreadable (λ s h. h)) (λ s h. h)
        (λ _ s h. ((ground (arith, h.0), ground (arith, h.0)), h.1)) (λ _ s h. h) (λ s h. h))

  write_entry-Triple :
      (w : Written) (e : Entry) (found : Option BundleFile)
      → IsConsistent env w
      → IsNonempty e
      → is_required e.name ≡ true
      → find_version e.name w.files ≡ found
      → Guarded P (write_entry env e w found) (λ w' s. IsConsistent env w' × P s) P
  unfolding write_entry secure_file
  write_entry-Triple w e (some f) k nonempty required gone = raise-Triple unreadable (λ s h. h)
  write_entry-Triple w e none k nonempty required gone =
      bind-Triple (syscall-Triple unreadable (λ s h. h) (λ s h. h)) λ _.
        bind-Triple (copy-Triple e) λ _. given-Triple λ c.
          bind-Triple (syscall-Triple unreadable (λ s h. h) (λ s h. h))
            λ _. pure-Triple _ (λ s h. (add-IsConsistent env w k e (secure c) gone required, h))
    where
      secure :
          (length e.content ≡ e.size) × (ltb (entry_limit e.name) (length e.content) ≡ false)
          → secure_file env e.name (fresh_entry env e) ≡ true
      secure c = ground (arith, c.0, c.1, nonempty)

  pub write_entries-Triple :
      (es : List Entry) (w : Written)
      → All IsNonempty es
      → IsConsistent env w
      → Guarded P (write_entries env es w) (λ w' s. IsConsistent env w' × P s) P
  unfolding write_entries
  write_entries-Triple [] w ns k = pure-Triple w (λ s h. (k, h))
  write_entries-Triple (e ∷ es) w ns k = elim (Bool-cases (is_required e.name)) [
    | inl required ↦ rw required (
        bind-Triple (write_entry-Triple w e (find_version e.name w.files) k ns.0 required refl)
          (λ w'. given-Triple (λ k'. write_entries-Triple es w' ns.1 k')))
    | inr ne ↦
        rw ne
          (bind-Triple (copy-Triple e) (λ _. given-Triple (λ c. write_entries-Triple es w ns.1 k)))
  ]
