-- ===== src/Io/Hoare.antt =====
-- What holds after an action, whichever way it ends, and the rules for each way to build an action.
use xui_agent.Prelude.{◌≡◌, refl, Bool, true, false, List, [], ◌∷◌, Outcome}
use xui_agent.Prelude
use xui_agent.Io.Monad.{
  Fault, pass, fail, crash, Result, done, failed, killed, World, Io, continue, ◌>>=◌, pure, raise,
  gets, attempt, caught, wrap, wrapped, modify, call, syscall, check,
}

module _ {S E A : Type 0} where
  -- After a return, after an error, and where the process is killed.
  abbrev pub Meets : (A → S → Type 0) → (E → S → Type 0) → (S → Type 0) → Result E A → S → Type 0
  Meets Q R X (done a) s = Q a s
  Meets Q R X (failed e) s = R e s
  Meets Q R X killed s = X s

  -- From a state with `P`, under every schedule, `m` returns with `Q`, fails with `R` or dies with `X`.
  pub record Triple (P : S → Type 0) (m : Io S E A) (Q : A → S → Type 0) (R : E → S → Type 0)
      (X : S → Type 0) : Type 0 where
    pub at : (w : World S) → P w.state → Meets Q R X (m w).0 (m w).1.state

  Meets-map :
      {Q Q' : A → S → Type 0} {R R' : E → S → Type 0} {X X' : S → Type 0}
      → ((a : A) (s : S) → Q a s → Q' a s)
      → ((e : E) (s : S) → R e s → R' e s)
      → ((s : S) → X s → X' s)
      → (r : Result E A) (s : S) → Meets Q R X r s
      → Meets Q' R' X' r s
  Meets-map q r x (done a) s h = q a s h
  Meets-map q r x (failed e) s h = r e s h
  Meets-map q r x killed s h = x s h

  pub consequence :
      {P P' : S → Type 0} {m : Io S E A} {Q Q' : A → S → Type 0} {R R' : E → S → Type 0}
      {X X' : S → Type 0}
      → Triple P m Q R X
      → ((s : S) → P' s → P s)
      → ((a : A) (s : S) → Q a s → Q' a s)
      → ((e : E) (s : S) → R e s → R' e s)
      → ((s : S) → X s → X' s)
      → Triple P' m Q' R' X'
  consequence {m = m} t p q r x = record {
    at = λ w h. Meets-map q r x (m w).0 (m w).1.state (t.at w (p w.state h));
  }

  -- A fact of the precondition that is not about the state may be used to find the proof.
  pub given-Triple :
      {F : Type 0} {P : S → Type 0} {m : Io S E A} {Q : A → S → Type 0} {R : E → S → Type 0}
      {X : S → Type 0}
      → (F → Triple P m Q R X)
      → Triple (λ s. F × P s) m Q R X
  given-Triple k = record { at = λ w h. (k h.0).at w h.1 }

  pub pure-Triple :
      {P : S → Type 0} {Q : A → S → Type 0} {R : E → S → Type 0} {X : S → Type 0} (a : A)
      → ((s : S) → P s → Q a s)
      → Triple P (pure a) Q R X
  unfolding pure
  pure-Triple a q = record { at = λ w h. q w.state h }

  pub raise-Triple :
      {P : S → Type 0} {Q : A → S → Type 0} {R : E → S → Type 0} {X : S → Type 0} (e : E)
      → ((s : S) → P s → R e s)
      → Triple P (raise e) Q R X
  unfolding raise
  raise-Triple e r = record { at = λ w h. r w.state h }

  pub gets-Triple :
      {P : S → Type 0} {R : E → S → Type 0} {X : S → Type 0} (f : S → A)
      → Triple P (gets f) (λ a s. (a ≡ f s) × P s) R X
  unfolding gets
  gets-Triple f = record { at = λ w h. (refl, h) }

module _ {S E A B : Type 0} where
  bind-Meets :
      {M : A → S → Type 0} {Q : B → S → Type 0} {R : E → S → Type 0} {X : S → Type 0}
      (f : A → Io S E B)
      → ((a : A) → Triple (M a) (f a) Q R X)
      → (r : Result E A) (w : World S) → Meets M R X r w.state
      → Meets Q R X (continue r f w).0 (continue r f w).1.state
  bind-Meets f k (done a) w h = (k a).at w h
  bind-Meets f k (failed e) w h = h
  bind-Meets f k killed w h = h

  pub bind-Triple :
      {P : S → Type 0} {M : A → S → Type 0} {Q : B → S → Type 0} {R : E → S → Type 0}
      {X : S → Type 0} {m : Io S E A} {f : A → Io S E B}
      → Triple P m M R X
      → ((a : A) → Triple (M a) (f a) Q R X)
      → Triple P (m >>= f) Q R X
  unfolding ◌>>=◌
  bind-Triple {m = m} {f = f} t k = record { at = λ w h. bind-Meets f k (m w).0 (m w).1 (t.at w h) }

module _ {S F A : Type 0} where
  -- What holds of the value that `attempt` returns.
  abbrev pub Either : (A → S → Type 0) → (F → S → Type 0) → Outcome F A → S → Type 0
  Either Q R (Prelude.ok a) s = Q a s
  Either Q R (Prelude.err e) s = R e s

module _ {S E F A : Type 0} where
  attempt-Meets :
      (Q : A → S → Type 0) (R : F → S → Type 0) (R' : E → S → Type 0) (X : S → Type 0)
      (r : Result F A) (s : S)
      → Meets Q R X r s
      → Meets (Either Q R) R' X (caught r) s
  attempt-Meets Q R R' X (done a) s h = h
  attempt-Meets Q R R' X (failed e) s h = h
  attempt-Meets Q R R' X killed s h = h

  pub attempt-Triple :
      {P : S → Type 0} {Q : A → S → Type 0} {R : F → S → Type 0} {R' : E → S → Type 0}
      {X : S → Type 0} {m : Io S F A}
      → Triple P m Q R X
      → Triple P (attempt m) (Either Q R) R' X
  unfolding attempt
  attempt-Triple {Q = Q} {R = R} {R' = R'} {X = X} {m = m} t = record {
    at = λ w h. attempt-Meets Q R R' X (m w).0 (m w).1.state (t.at w h);
  }

  wrap-Meets :
      (Q : A → S → Type 0) (R : F → S → Type 0) (R' : E → S → Type 0) (X : S → Type 0) (f : F → E)
      → ((e : F) (s : S) → R e s → R' (f e) s)
      → (r : Result F A) (s : S) → Meets Q R X r s
      → Meets Q R' X (wrapped f r) s
  wrap-Meets Q R R' X f k (done a) s h = h
  wrap-Meets Q R R' X f k (failed e) s h = k e s h
  wrap-Meets Q R R' X f k killed s h = h

  pub wrap-Triple :
      {P : S → Type 0} {Q : A → S → Type 0} {R : F → S → Type 0} {R' : E → S → Type 0}
      {X : S → Type 0} {m : Io S F A} (f : F → E)
      → Triple P m Q R X
      → ((e : F) (s : S) → R e s → R' (f e) s)
      → Triple P (wrap f m) Q R' X
  unfolding wrap
  wrap-Triple {Q = Q} {R = R} {R' = R'} {X = X} {m = m} f t k = record {
    at = λ w h. wrap-Meets Q R R' X f k (m w).0 (m w).1.state (t.at w h);
  }

module _ {S E : Type 0} where
  pub modify-Triple :
      {P : S → Type 0} {Q : Unit {0} → S → Type 0} {R : E → S → Type 0} {X : S → Type 0} (f : S → S)
      → ((s : S) → P s → Q tt (f s))
      → Triple P (modify f) Q R X
  unfolding modify
  modify-Triple f q = record { at = λ w h. q w.state h }

  call-Meets :
      (P : S → Type 0) (R : E → S → Type 0) (X : S → Type 0) (e : E)
      → ((s : S) → P s → R e s)
      → ((s : S) → P s → X s)
      → (fs : List Fault) (s : S) → P s
      → Meets (λ (_ : Unit {0}) s'. P s') R X (call e fs s).0 (call e fs s).1.state
  call-Meets P R X e r x [] s h = h
  call-Meets P R X e r x (pass ∷ fs) s h = h
  call-Meets P R X e r x (fail ∷ fs) s h = r s h
  call-Meets P R X e r x (crash ∷ fs) s h = x s h

  pub syscall-Triple :
      {P : S → Type 0} {R : E → S → Type 0} {X : S → Type 0} (e : E)
      → ((s : S) → P s → R e s)
      → ((s : S) → P s → X s)
      → Triple P (syscall e) (λ _. P) R X
  unfolding syscall
  syscall-Triple {P = P} {R = R} {X = X} e r x = record {
    at = λ w h. call-Meets P R X e r x w.faults w.state h;
  }

  pub check-Triple :
      {P : S → Type 0} {R : E → S → Type 0} {X : S → Type 0} (b : Bool) (e : E)
      → ((s : S) → P s → R e s)
      → Triple P (check b e) (λ _ s. (b ≡ true) × P s) R X
  unfolding check
  check-Triple true e r = record { at = λ w h. (refl, h) }
  check-Triple false e r = record { at = λ w h. r w.state h }
