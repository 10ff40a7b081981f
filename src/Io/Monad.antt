-- ===== src/Io/Monad.antt =====
-- Actions on a state that may return, fail, or be cut off by the end of the process.
use xui_agent.Prelude.{List, [], ◌∷◌, Bool, true, false, Outcome}
use xui_agent.Prelude

pub data Fault : Type 0 where
  pass fail crash : Fault

-- A run that is killed has no result: nothing that would follow is done.
pub data Result (E : Type 0) (A : Type 0) : Type 0 where
  done : A → Result E A
  failed : E → Result E A
  killed : Result E A

-- The state of the machine, and the schedule of its next system calls.
pub record World (S : Type 0) : Type 0 where
  pub faults : List Fault
  pub state : S

abbrev pub Io : Type 0 → Type 0 → Type 0 → Type 0
Io S E A = World S → Result E A × World S

module _ {S E A B : Type 0} where
  abbrev pub continue : Result E A → (A → Io S E B) → Io S E B
  continue (done a) f w = f a w
  continue (failed e) f w = (failed e, w)
  continue killed f w = (killed, w)

  infixl 5 ◌>>=◌ ◌>>◌
  unfoldable pub ◌>>=◌ : Io S E A → (A → Io S E B) → Io S E B
  ◌>>=◌ m f w = let (r, w') = m w in continue r f w'

  abbrev pub ◌>>◌ : Io S E A → Io S E B → Io S E B
  m >> k = m >>= λ _. k

module _ {E F A : Type 0} where
  abbrev pub caught : Result F A → Result E (Outcome F A)
  caught (done a) = done (Prelude.ok a)
  caught (failed f) = done (Prelude.err f)
  caught killed = killed

  abbrev pub wrapped : (F → E) → Result F A → Result E A
  wrapped f (done a) = done a
  wrapped f (failed e) = failed (f e)
  wrapped f killed = killed

module _ {S E A : Type 0} where
  unfoldable pub pure : A → Io S E A
  pure a w = (done a, w)

  unfoldable pub raise : E → Io S E A
  raise e w = (failed e, w)

  unfoldable pub gets : (S → A) → Io S E A
  gets f w = (done (f w.state), w)

  -- An error becomes a value that the code looks at: `if err := m(); err != nil { … }`.
  unfoldable pub attempt : {F : Type 0} → Io S F A → Io S E (Outcome F A)
  attempt m w = let (r, w') = m w in (caught r, w')

  -- The same action with its error wrapped: `return fmt.Errorf("…: %w", err)`.
  unfoldable pub wrap : {F : Type 0} → (F → E) → Io S F A → Io S E A
  wrap f m w = let (r, w') = m w in (wrapped f r, w')

module _ {S E : Type 0} where
  unfoldable pub modify : (S → S) → Io S E (Unit {0})
  modify f w = (done tt, record w { state = f w.state })

  abbrev pub call : E → List Fault → S → Result E (Unit {0}) × World S
  call e [] s = (done tt, record { faults = []; state = s })
  call e (pass ∷ fs) s = (done tt, record { faults = fs; state = s })
  call e (fail ∷ fs) s = (failed e, record { faults = fs; state = s })
  call e (crash ∷ fs) s = (killed, record { faults = fs; state = s })

  -- A system call that changes nothing by itself.
  unfoldable pub syscall : E → Io S E (Unit {0})
  syscall e w = call e w.faults w.state

  unfoldable pub check : Bool → E → Io S E (Unit {0})
  check true e w = (done tt, w)
  check false e w = (failed e, w)
