-- ===== src/Io/Zoom.antt =====
-- An action on a part of the state is one on the whole.
use xui_agent.Prelude.{◌≡◌, sym, subst}
use xui_agent.Io.Monad.{Result, done, failed, killed, Io}
use xui_agent.Io.Hoare.{Meets, Triple}

module _ {S T : Type 0} (get : S → T) (put : T → S → S) where
  unfoldable pub zoom : {E A : Type 0} → Io T E A → Io S E A
  zoom m w =
      let (r, w') = m (record { faults = w.faults; state = get w.state }) in
      (r, record { faults = w'.faults; state = put w'.state w.state })

  module _ (get-put : (t : T) (s : S) → get (put t s) ≡ t) {E A : Type 0} (F : S → Type 0)
      (frame : (t : T) (s : S) → F s → F (put t s)) where
    zoomed :
        (Q : A → T → Type 0) (R : E → T → Type 0) (X : T → Type 0) (r : Result E A) (t : T) (s : S)
        → F s
        → Meets Q R X r t
        → Meets
            (λ a s'. Q a (get s') × F s')
            (λ e s'. R e (get s') × F s')
            (λ s'. X (get s') × F s')
            r
            (put t s)
    zoomed Q R X (done a) t s f h = (subst (Q a) (sym (get-put t s)) h, frame t s f)
    zoomed Q R X (failed e) t s f h = (subst (R e) (sym (get-put t s)) h, frame t s f)
    zoomed Q R X killed t s f h = (subst X (sym (get-put t s)) h, frame t s f)

    -- What holds of the part, beside what the part has no say in.
    pub zoom-Triple :
        {P : T → Type 0} {m : Io T E A} {Q : A → T → Type 0} {R : E → T → Type 0} {X : T → Type 0}
        → Triple P m Q R X
        → Triple
            (λ s. P (get s) × F s)
            (zoom m)
            (λ a s. Q a (get s) × F s)
            (λ e s. R e (get s) × F s)
            (λ s. X (get s) × F s)
    unfolding zoom
    zoom-Triple {m = m} {Q = Q} {R = R} {X = X} t = record {
      at = λ w h.
          zoomed Q R X (m (record { faults = w.faults; state = get w.state })).0
            (m (record { faults = w.faults; state = get w.state })).1.state w.state h.1
            (t.at (record { faults = w.faults; state = get w.state }) h.0);
    }
