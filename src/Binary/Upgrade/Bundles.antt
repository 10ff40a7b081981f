-- ===== src/Binary/Upgrade/Bundles.antt =====
-- Which steps only read bundles and state files, and what a verification establishes.
use xui_agent.Prelude.{
  ◌≡◌, refl, sym, ◌∙◌, ◌==◌, Bool, true, false, Option, none, some, List, [], ◌∷◌, length, All,
}
use xui_agent.Spool.Bytes.{Bytes, bytes_eq}
use xui_agent.Versions.{
  find_version-put_other, find_version-remove_other, find_version-change_other,
}
use xui_agent.Links.{present-Reads, read_link-Reads}
use xui_agent.Binary.Manifest.{required_files}
use xui_agent.Binary.Disk.{
  File, missing, corrupt, holds, AppliedState, BundleState, BundleFile, Bundle, Disk, Env,
  find_version, put_version, remove_version, change_version,
}
use xui_agent.Binary.Bundle.{
  not_exist, unreadable, present, hash_bundle_file, secure_file, verify_files, load_verified_target,
  valid_bundle_state,
}
use xui_agent.Binary.Files.{load_applied, load_pending, verify_applied_target, verify_applied}
use xui_agent.Binary.Upgrade.{IsListed, IsBundle, IsIntact}
use xui_agent.Io.{
  Guarded, Reads, bind-Reads, pure-Reads, raise-Reads, gets-Reads, check-Reads, syscall-Reads,
  load_file-Reads, decoded, ◌>>=◌, ◌>>◌, pure, bind-Triple, consequence, given-Triple, pure-Triple,
  raise-Triple, gets-Triple, check-Triple, syscall-Triple, check, syscall,
}

pub load_applied-Reads : Reads load_applied
unfolding load_applied
load_applied-Reads =
    bind-Reads (load_file-Reads (λ d. d.applied))
      (λ a. bind-Reads (check-Reads _ unreadable) (λ _. pure-Reads a))

pub load_pending-Reads : Reads load_pending
unfolding load_pending
load_pending-Reads =
    bind-Reads (load_file-Reads (λ d. d.pending))
      (λ p. bind-Reads (check-Reads _ unreadable) (λ _. pure-Reads p))

decoded_state-Reads : (file : File BundleState) → Reads {S = Disk} (decoded file)
decoded_state-Reads missing = raise-Reads not_exist
decoded_state-Reads corrupt = raise-Reads unreadable
decoded_state-Reads (holds s) = pure-Reads s

record IsHashed (env : Env) (name : Bytes) (found : Option BundleFile) (got : Bytes) : Type 0 where
  file : BundleFile
  there : found ≡ some file
  secure : secure_file env name file ≡ true
  same : got ≡ env.sha256_hex file.content

module _ (env : Env) where
  hash_bundle_file-Reads :
      (name : Bytes) (found : Option BundleFile) → Reads (hash_bundle_file env name found)
  unfolding hash_bundle_file
  hash_bundle_file-Reads name found = bind-Reads (syscall-Reads unreadable) λ _.
      bind-Reads (present-Reads found) λ f.
        bind-Reads (syscall-Reads unreadable)
          λ _. bind-Reads (check-Reads _ unreadable) (λ _. pure-Reads _)

  verify_files-Reads :
      (b : Bundle) (s : BundleState) (names : List Bytes) → Reads (verify_files env b s names)
  unfolding verify_files
  verify_files-Reads b s [] = pure-Reads tt
  verify_files-Reads b s (name ∷ names) = bind-Reads (present-Reads _) λ want.
      bind-Reads (check-Reads _ unreadable) λ _.
        bind-Reads (hash_bundle_file-Reads name _)
          λ got. bind-Reads (check-Reads _ unreadable) (λ _. verify_files-Reads b s names)

  pub load_verified_target-Reads : (target : Bytes) → Reads (load_verified_target env target)
  unfolding load_verified_target
  load_verified_target-Reads target = bind-Reads (check-Reads _ unreadable) λ _.
      bind-Reads (syscall-Reads unreadable) λ _. bind-Reads (gets-Reads _) λ found.
        bind-Reads (present-Reads found) λ b. bind-Reads (check-Reads _ unreadable) λ _.
          bind-Reads (syscall-Reads unreadable) λ _. bind-Reads (decoded_state-Reads b.state) λ s.
            bind-Reads (check-Reads _ unreadable)
              λ _. bind-Reads (verify_files-Reads b s required_files) (λ _. pure-Reads s)

  pub verify_applied_target-Reads : (a : AppliedState) → Reads (verify_applied_target env a)
  unfolding verify_applied_target
  verify_applied_target-Reads a =
      bind-Reads (check-Reads _ unreadable)
        λ _. bind-Reads (load_verified_target-Reads a.target) (λ s. check-Reads _ unreadable)

  pub verify_applied-Reads : (a : AppliedState) → Reads (verify_applied env a)
  unfolding verify_applied
  verify_applied-Reads a =
      bind-Reads (read_link-Reads _)
        λ current. bind-Reads (check-Reads _ unreadable) (λ _. verify_applied_target-Reads a)

  module _ {P : Disk → Type 0} where
    present-found :
        {A : Type 0} (found : Option A)
        → Guarded P (present found) (λ x s. (found ≡ some x) × P s) P
    unfolding present
    present-found none = raise-Triple not_exist (λ s h. h)
    present-found (some x) = pure-Triple x (λ s h. (refl, h))

    decoded-found :
        (file : File BundleState) → Guarded P (decoded file) (λ x s. (file ≡ holds x) × P s) P
    decoded-found missing = raise-Triple not_exist (λ s h. h)
    decoded-found corrupt = raise-Triple unreadable (λ s h. h)
    decoded-found (holds x) = pure-Triple x (λ s h. (refl, h))

    checked : (b : Bool) → Guarded P (check b unreadable) (λ _ s. (b ≡ true) × P s) P
    checked b = check-Triple b unreadable (λ s h. h)

    called : Guarded P (syscall unreadable) (λ _. P) P
    called = syscall-Triple unreadable (λ s h. h) (λ s h. h)

    hash-Triple :
        (name : Bytes) (found : Option BundleFile)
        → Guarded P (hash_bundle_file env name found) (λ got s. IsHashed env name found got × P s) P
    unfolding hash_bundle_file
    hash-Triple name found = bind-Triple called λ _. bind-Triple (present-found found) λ f.
        given-Triple λ e. bind-Triple called λ _.
          bind-Triple (checked (secure_file env name f)) λ _.
            given-Triple λ k.
              pure-Triple _ (λ s h. (record { file = f; there = e; secure = k; same = refl }, h))

    verify_files-Triple :
        (b : Bundle) (s : BundleState) (names : List Bytes)
        → Guarded P (verify_files env b s names) (λ _ d. All (IsListed env b s) names × P d) P
    unfolding verify_files
    verify_files-Triple b s [] = pure-Triple tt (λ d h. (tt, h))
    verify_files-Triple b s (name ∷ names) =
        bind-Triple (present-found (find_version name s.digests)) λ want. given-Triple λ e.
          bind-Triple (checked (length want == 64)) λ _. given-Triple λ long.
            bind-Triple (hash-Triple name (find_version name b.files)) λ got. given-Triple λ hashed.
              bind-Triple (checked (bytes_eq got want)) λ _. given-Triple λ same.
                let listed : IsListed env b s name = record {
                  want = want;
                  recorded = e;
                  long = long;
                  verified = record {
                    file = hashed.file;
                    there = hashed.there;
                    secure = hashed.secure;
                    digest = rw (← hashed.same) same;
                  };
                } in
                consequence (verify_files-Triple b s names) (λ d h. h)
                  (λ _ d h. ((listed, h.0), h.1)) (λ _ d h. h) (λ d h. h)

  -- A verification that succeeds has found the whole bundle.
  pub load_verified_target-Triple :
      (P : Disk → Type 0) (target : Bytes)
      → Guarded P
          (load_verified_target env target)
          (λ s d. IsBundle env target s d.versions × P d)
          P
  unfolding load_verified_target
  load_verified_target-Triple P target = bind-Triple (checked _) λ _. given-Triple λ _.
      bind-Triple called λ _.
        bind-Triple (gets-Triple (λ d. find_version target d.versions))
          λ found. consequence (whole found) (λ d h. h) (λ _ d h. h) (λ _ d h. h.1) (λ d h. h.1)
    where
      whole :
          (found : Option Bundle)
          → Guarded
              (λ d. (found ≡ find_version target d.versions) × P d)
              (do
                b ← present found
                check b.secure unreadable
                syscall unreadable
                s ← decoded b.state
                check (valid_bundle_state target s) unreadable
                verify_files env b s required_files
                pure s)
              (λ s d. IsBundle env target s d.versions × P d)
              (λ d. (found ≡ find_version target d.versions) × P d)
      whole found = bind-Triple (present-found found) λ b. given-Triple λ e.
          bind-Triple (checked b.secure) λ _. given-Triple λ secure. bind-Triple called λ _.
            bind-Triple (decoded-found b.state) λ s. given-Triple λ stored.
              bind-Triple (checked (valid_bundle_state target s)) λ _. given-Triple λ valid.
                bind-Triple (verify_files-Triple b s required_files) λ _. given-Triple λ all.
                  pure-Triple s (λ d h. (
                    record {
                      bundle = b;
                      found = sym h.0 ∙ e;
                      is_secure = secure;
                      stored = stored;
                      valid = valid;
                      complete = all;
                    },
                    h.1,
                  ))

-- An intact bundle stays intact when one under another name is written, changed or removed.
module _ {env : Env} {a : AppliedState} {vs : List (Bytes × Bundle)} (target : Bytes)
    (other : bytes_eq target a.target ≡ false) (k : IsIntact env a vs) where
  IsIntact-moved :
      (vs' : List (Bytes × Bundle))
      → find_version a.target vs' ≡ find_version a.target vs
      → IsIntact env a vs'
  IsIntact-moved vs' e = record {
    state = k.state;
    is_bundle = record {
      bundle = k.is_bundle.bundle;
      found = e ∙ k.is_bundle.found;
      is_secure = k.is_bundle.is_secure;
      stored = k.is_bundle.stored;
      valid = k.is_bundle.valid;
      complete = k.is_bundle.complete;
    };
    same = k.same;
  }

  pub IsIntact-put_other : (b : Bundle) → IsIntact env a (put_version target b vs)
  IsIntact-put_other b =
      IsIntact-moved (put_version target b vs) (find_version-put_other target b a.target vs other)

  pub IsIntact-remove_other : IsIntact env a (remove_version target vs)
  IsIntact-remove_other =
      IsIntact-moved (remove_version target vs) (find_version-remove_other target a.target vs other)

  pub IsIntact-change_other :
      (change : Bundle → Bundle) → IsIntact env a (change_version target change vs)
  IsIntact-change_other change =
      IsIntact-moved (change_version target change vs)
        (find_version-change_other target a.target change vs other)
