-- ===== src/Links.antt =====
-- Symbolic links, and what is or is not found in a directory: the calls that xrayruntime, xrayupdate
-- and update make, for any state of a directory.
use xui_agent.Prelude.{
  arith, ◌≡◌, refl, ◌∙◌, ap, Option, none, some, List, [], ◌∷◌, Outcome, ok, err,
}
use xui_agent.Spool.Bytes.{Bytes}
use xui_agent.Xray.Target.{validate_target}
use xui_agent.Io.{
  Io, ◌>>=◌, ◌>>◌, pure, raise, gets, syscall, check, attempt, LoadError, not_exist, unreadable,
  Guarded, Triple, Either, bind-Triple, consequence, pure-Triple, raise-Triple, gets-Triple,
  check-Triple, syscall-Triple, Reads, Reads-Triple, bind-Reads, pure-Reads, raise-Reads,
  gets-Reads, check-Reads, syscall-Reads, attempt-Reads,
}

module _ {S : Type 0} where
  -- What is there, or the error for a file that does not exist.
  unfoldable pub present : {A : Type 0} → Option A → Io S LoadError A
  present none = raise not_exist
  present (some a) = pure a

  abbrev pub checked_link : Option Bytes → Io S LoadError Bytes
  checked_link none = raise not_exist
  checked_link (some target) = do check (validate_target target) unreadable; pure target

  -- `os.Readlink`
  unfoldable pub read_link : (S → Option Bytes) → Io S LoadError Bytes
  unfolding present
  read_link link = do syscall unreadable; found ← gets link; present found

  -- `os.Readlink` and validateTarget.
  unfoldable pub read_target : (S → Option Bytes) → Io S LoadError Bytes
  read_target link = do syscall unreadable; found ← gets link; checked_link found

  -- What a link or a state file names, if it is there.
  abbrev pub optional :
      {A B : Type 0} → Outcome LoadError A → (A → List B) → Io S LoadError (List B)
  optional (ok a) f = pure (f a)
  optional (err not_exist) f = pure []
  optional (err unreadable) f = raise unreadable

module _ {S : Type 0} where
  pub present-Reads : {A : Type 0} (found : Option A) → Reads {S = S} (present found)
  unfolding present
  present-Reads none = raise-Reads not_exist
  present-Reads (some a) = pure-Reads a

  checked_link-Reads : (found : Option Bytes) → Reads {S = S} (checked_link found)
  checked_link-Reads none = raise-Reads not_exist
  checked_link-Reads (some target) = bind-Reads (check-Reads _ unreadable) (λ _. pure-Reads target)

  pub read_link-Reads : (link : S → Option Bytes) → Reads (read_link link)
  unfolding read_link
  read_link-Reads link =
      bind-Reads (syscall-Reads unreadable)
        (λ _. bind-Reads (gets-Reads link) (λ found. present-Reads found))

  pub read_target-Reads : (link : S → Option Bytes) → Reads (read_target link)
  unfolding read_target
  read_target-Reads link =
      bind-Reads (syscall-Reads unreadable)
        (λ _. bind-Reads (gets-Reads link) (λ found. checked_link-Reads found))

  pub optional-Reads :
      {A B : Type 0} (found : Outcome LoadError A) (f : A → List B)
      → Reads {S = S} (optional found f)
  optional-Reads (ok a) f = pure-Reads (f a)
  optional-Reads (err not_exist) f = pure-Reads []
  optional-Reads (err unreadable) f = raise-Reads unreadable

  module _ {P : S → Type 0} where
    -- A step that only reads, behind what is known of an earlier value.
    pub reads-keep :
        {A : Type 0} (F : Type 0) {m : Io S LoadError A}
        → Reads m
        → Guarded (λ s. F × P s) m (λ _ s. F × P s) P
    reads-keep F k =
        consequence (Reads-Triple k) (λ s h. h) (λ _ s h. h) (λ _ s h. h.1) (λ s h. h.1)

    pub found-keep :
        {A : Type 0} (F : Type 0) {m : Io S LoadError A}
        → Reads m
        → Guarded (λ s. F × P s) (attempt {E = LoadError} {F = LoadError} m) (λ _ s. F × P s) P
    found-keep F k = reads-keep F (attempt-Reads k)

-- A link that is there is read, or is not readable.
module _ {S : Type 0} (target : Bytes) (P : S → Type 0) (link : S → Option Bytes)
    (linked : (s : S) → P s → link s ≡ some target) where
  checked_link-Triple :
      (found : Option Bytes)
      → Triple
          (λ s. (found ≡ link s) × P s)
          (checked_link found)
          (λ t s. (t ≡ target) × P s)
          (λ e s. (e ≡ unreadable) × P s)
          P
  checked_link-Triple none =
      raise-Triple not_exist (λ s h. absurd (ground (arith, h.0 ∙ linked s h.1)))
  checked_link-Triple (some t) =
      bind-Triple (check-Triple (_) unreadable (λ s h. (refl, h.1)))
        (λ _. pure-Triple t (λ s h. (ground (arith, h.1.0 ∙ linked s h.1.1), h.1.1)))

  present-Triple :
      (found : Option Bytes)
      → Triple
          (λ s. (found ≡ link s) × P s)
          (present found)
          (λ t s. (t ≡ target) × P s)
          (λ e s. (e ≡ unreadable) × P s)
          P
  unfolding present
  present-Triple none = raise-Triple not_exist (λ s h. absurd (ground (arith, h.0 ∙ linked s h.1)))
  present-Triple (some t) = pure-Triple t (λ s h. (ground (arith, h.0 ∙ linked s h.1), h.1))

  abbrev ReadsIt : Io S LoadError Bytes → Type 0
  ReadsIt m = Triple P m (λ t s. (t ≡ target) × P s) (λ e s. (e ≡ unreadable) × P s) P

  pub read_target-Triple : ReadsIt (read_target link)
  unfolding read_target
  read_target-Triple =
      bind-Triple (syscall-Triple unreadable (λ s h. (refl, h)) (λ s h. h))
        (λ _. bind-Triple (gets-Triple link) (λ found. checked_link-Triple found))

  pub read_link-Triple : ReadsIt (read_link link)
  unfolding read_link
  read_link-Triple =
      bind-Triple (syscall-Triple unreadable (λ s h. (refl, h)) (λ s h. h))
        (λ _. bind-Triple (gets-Triple link) (λ found. present-Triple found))

  pub optional_linked-Triple :
      (c : Outcome LoadError Bytes)
      → Guarded
          (λ s. Either (λ t s'. (t ≡ target) × P s') (λ e s'. (e ≡ unreadable) × P s') c s)
          (optional c (λ t. t ∷ []))
          (λ l s. (l ≡ target ∷ []) × P s)
          P
  optional_linked-Triple (ok t) = pure-Triple (t ∷ []) (λ s h. (ap (λ x. x ∷ []) h.0, h.1))
  optional_linked-Triple (err not_exist) = pure-Triple [] (λ s h. absurd (ground (arith, h.0)))
  optional_linked-Triple (err unreadable) = raise-Triple unreadable (λ s h. h.1)
