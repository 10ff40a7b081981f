-- ===== src/Io/Files.antt =====
-- State files and the calls that read and write them, for any state of a directory, and errors that
-- are handled.
use xui_agent.Prelude.{arith, ◌≡◌, refl, ◌∙◌, Outcome}
use xui_agent.Prelude
use xui_agent.Io.Monad.{Io, ◌>>=◌, ◌>>◌, pure, raise, gets, attempt, modify, syscall}
use xui_agent.Io.Hoare.{
  Triple, Either, bind-Triple, consequence, pure-Triple, raise-Triple, gets-Triple, attempt-Triple,
  modify-Triple, syscall-Triple,
}
use xui_agent.Io.Frame.{Reads, bind-Reads, pure-Reads, raise-Reads, gets-Reads, syscall-Reads}

-- A state file: not there, there with contents that the strict decoder refuses, or a value.
pub data File (A : Type 0) : Type 0 where
  missing corrupt : File A
  holds : A → File A

pub data LoadError : Type 0 where
  not_exist unreadable : LoadError

module _ {S : Type 0} where
  -- What `os.ReadFile` and a strict decoder make of the file.
  abbrev pub decoded : {A : Type 0} → File A → Io S LoadError A
  decoded missing = raise not_exist
  decoded corrupt = raise unreadable
  decoded (holds a) = pure a

  unfoldable pub load_file : {A : Type 0} → (S → File A) → Io S LoadError A
  load_file field = do syscall unreadable; file ← gets field; decoded file

  -- A temporary file, its rename, and the sync of its directory: a failed sync leaves the new file.
  unfoldable pub write_atomic : {E : Type 0} → E → (S → S) → Io S E (Unit {0})
  write_atomic e put = do syscall e; modify put; syscall e

  -- `os.Remove`, a missing file being fine, and the sync of the directory.
  unfoldable pub remove_and_sync : (S → S) → Io S LoadError (Unit {0})
  remove_and_sync remove = do syscall unreadable; modify remove; syscall unreadable

  abbrev pub branch : {F E A B : Type 0} → (F → Io S E B) → (A → Io S E B) → Outcome F A → Io S E B
  branch failure rest (Prelude.ok a) = rest a
  branch failure rest (Prelude.err e) = failure e

  -- `if err := m; err != nil { failure } ; rest`
  abbrev pub handle : {F E A B : Type 0} → Io S F A → (F → Io S E B) → (A → Io S E B) → Io S E B
  handle m failure rest = do r ← attempt m; branch failure rest r

  -- From `P` the action reaches `Q`, and every error and every kill leaves `Z`.
  abbrev pub Guarded :
      {E A : Type 0} → (S → Type 0) → Io S E A → (A → S → Type 0) → (S → Type 0) → Type 0
  Guarded P m Q Z = Triple P m Q (λ _. Z) Z

module _ {S : Type 0} {P Q Z : S → Type 0} (put : S → S) (safe : (s : S) → P s → Z s)
    (step : (s : S) → P s → Q (put s)) (safe' : (s : S) → Q s → Z s) where
  pub write_atomic-Triple : {E : Type 0} (e : E) → Guarded P (write_atomic e put) (λ _. Q) Z
  unfolding write_atomic
  write_atomic-Triple e =
      bind-Triple (syscall-Triple e safe safe)
        λ _. bind-Triple (modify-Triple put step) (λ _. syscall-Triple e safe' safe')

  pub remove_and_sync-Triple : Guarded P (remove_and_sync put) (λ _. Q) Z
  unfolding remove_and_sync
  remove_and_sync-Triple =
      bind-Triple (syscall-Triple unreadable safe safe)
        λ _. bind-Triple (modify-Triple put step) (λ _. syscall-Triple unreadable safe' safe')

-- A state file that is there is read, or is not readable.
module _ {S A : Type 0} (P : S → Type 0) (field : S → File A) (a : A) where
  decoded-Triple :
      (file : File A)
      → Triple
          (λ s. (file ≡ holds a) × P s)
          (decoded file)
          (λ x s. (x ≡ a) × P s)
          (λ e s. (e ≡ unreadable) × P s)
          P
  decoded-Triple missing = raise-Triple not_exist (λ s h. absurd (ground (arith, h.0)))
  decoded-Triple corrupt = raise-Triple unreadable (λ s h. (refl, h.1))
  decoded-Triple (holds x) = pure-Triple x (λ s h. (ground (arith, h.0), h.1))

  pub load_file-Triple :
      ((s : S) → P s → field s ≡ holds a)
      → Triple P (load_file field) (λ x s. (x ≡ a) × P s) (λ e s. (e ≡ unreadable) × P s) P
  unfolding load_file
  load_file-Triple there =
      bind-Triple (syscall-Triple unreadable (λ s h. (refl, h)) (λ s h. h)) λ _.
        bind-Triple (gets-Triple field) λ file.
          consequence (decoded-Triple file) (λ s h. (h.0 ∙ there s h.1, h.1)) (λ _ s h. h)
            (λ _ s h. h) (λ s h. h)

-- A state file that is not there is reported as missing, or as not readable.
module _ {S A : Type 0} (P : S → Type 0) (field : S → File A) where
  decoded-missing :
      (file : File A) → Triple (λ s. (file ≡ missing) × P s) (decoded file) (λ _ _. ⊥) (λ _. P) P
  decoded-missing missing = raise-Triple not_exist (λ s h. h.1)
  decoded-missing corrupt = raise-Triple unreadable (λ s h. h.1)
  decoded-missing (holds x) = pure-Triple x (λ s h. ground (arith, h.0))

  pub load_missing-Triple :
      ((s : S) → P s → field s ≡ missing) → Triple P (load_file field) (λ _ _. ⊥) (λ _. P) P
  unfolding load_file
  load_missing-Triple gone = bind-Triple (syscall-Triple unreadable (λ s h. h) (λ s h. h)) λ _.
      bind-Triple (gets-Triple field) λ file.
        consequence (decoded-missing file) (λ s h. (h.0 ∙ gone s h.1, h.1)) (λ _ s h. h)
          (λ _ s h. h) (λ s h. h)

module _ {S A B E F : Type 0} {Y Z : S → Type 0} {M : A → S → Type 0} {Q : B → S → Type 0}
    {failure : F → Io S E B} {rest : A → Io S E B} where
  branch-Triple :
      ((e : F) → Guarded Y (failure e) Q Z)
      → ((a : A) → Guarded (M a) (rest a) Q Z)
      → (r : Outcome F A) → Guarded (Either M (λ _. Y) r) (branch failure rest r) Q Z
  branch-Triple f g (Prelude.ok a) = g a
  branch-Triple f g (Prelude.err e) = f e

  -- An error of `m` is handled from what `m` left.
  pub handle-Triple :
      {P : S → Type 0} {m : Io S F A}
      → Triple P m M (λ _. Y) Z
      → ((e : F) → Guarded Y (failure e) Q Z)
      → ((a : A) → Guarded (M a) (rest a) Q Z)
      → Guarded P (handle m failure rest) Q Z
  handle-Triple t f g = bind-Triple (attempt-Triple t) (λ r. branch-Triple f g r)

decoded-Reads : {S A : Type 0} (file : File A) → Reads {S = S} (decoded file)
decoded-Reads missing = raise-Reads not_exist
decoded-Reads corrupt = raise-Reads unreadable
decoded-Reads (holds a) = pure-Reads a

pub load_file-Reads : {S A : Type 0} (field : S → File A) → Reads (load_file field)
unfolding load_file
load_file-Reads field =
    bind-Reads (syscall-Reads unreadable)
      (λ _. bind-Reads (gets-Reads field) (λ file. decoded-Reads file))
