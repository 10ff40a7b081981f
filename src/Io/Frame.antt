-- ===== src/Io/Frame.antt =====
-- Actions that change nothing but the schedule, and what it takes to be one.
use xui_agent.Prelude.{◌≡◌, refl, sym, subst, ◌∙◌, Bool, true, false, List, [], ◌∷◌, if◌then◌else◌}
use xui_agent.Io.Monad.{
  Fault, pass, fail, crash, Result, done, failed, killed, World, Io, continue, ◌>>=◌, pure, raise,
  gets, attempt, wrap, call, syscall, check,
}
use xui_agent.Io.Hoare.{Meets, Triple}

module _ {S E A : Type 0} where
  pub record Reads (m : Io S E A) : Type 0 where
    pub same : (w : World S) → (m w).1.state ≡ w.state

  Meets-keep : (P : S → Type 0) (r : Result E A) (s : S) → P s → Meets (λ _. P) (λ _. P) P r s
  Meets-keep P (done a) s h = h
  Meets-keep P (failed e) s h = h
  Meets-keep P killed s h = h

  -- A property of the state holds after an action that only reads, however it ends.
  pub Reads-Triple : {P : S → Type 0} {m : Io S E A} → Reads m → Triple P m (λ _. P) (λ _. P) P
  Reads-Triple {P = P} {m = m} k = record {
    at = λ w h. Meets-keep P (m w).0 (m w).1.state (subst P (sym (k.same w)) h);
  }

  pub pure-Reads : (a : A) → Reads (pure a)
  unfolding pure
  pure-Reads a = record { same = λ w. refl }

  pub raise-Reads : (e : E) → Reads (raise e)
  unfolding raise
  raise-Reads e = record { same = λ w. refl }

  pub gets-Reads : (f : S → A) → Reads (gets f)
  unfolding gets
  gets-Reads f = record { same = λ w. refl }

  pub if-Reads : {m n : Io S E A} (b : Bool) → Reads m → Reads n → Reads (if b then m else n)
  if-Reads true k l = k
  if-Reads false k l = l

module _ {S E A B : Type 0} where
  continue-same :
      (f : A → Io S E B)
      → ((a : A) → Reads (f a))
      → (r : Result E A) (w : World S) → (continue r f w).1.state ≡ w.state
  continue-same f k (done a) w = (k a).same w
  continue-same f k (failed e) w = refl
  continue-same f k killed w = refl

  pub bind-Reads :
      {m : Io S E A} {f : A → Io S E B} → Reads m → ((a : A) → Reads (f a)) → Reads (m >>= f)
  unfolding ◌>>=◌
  bind-Reads {m = m} {f = f} k l = record {
    same = λ w. continue-same f l (m w).0 (m w).1 ∙ k.same w;
  }

module _ {S E F A : Type 0} where
  pub attempt-Reads : {m : Io S F A} → Reads m → Reads {S = S} {E = E} (attempt m)
  unfolding attempt
  attempt-Reads k = record { same = λ w. k.same w }

  pub wrap-Reads : {m : Io S F A} (f : F → E) → Reads m → Reads (wrap f m)
  unfolding wrap
  wrap-Reads f k = record { same = λ w. k.same w }

module _ {S E : Type 0} where
  call-same : (e : E) (fs : List Fault) (s : S) → (call e fs s).1.state ≡ s
  call-same e [] s = refl
  call-same e (pass ∷ fs) s = refl
  call-same e (fail ∷ fs) s = refl
  call-same e (crash ∷ fs) s = refl

  pub syscall-Reads : (e : E) → Reads {S = S} (syscall e)
  unfolding syscall
  syscall-Reads e = record { same = λ w. call-same e w.faults w.state }

  pub check-Reads : (b : Bool) (e : E) → Reads {S = S} (check b e)
  unfolding check
  check-Reads true e = record { same = λ w. refl }
  check-Reads false e = record { same = λ w. refl }
