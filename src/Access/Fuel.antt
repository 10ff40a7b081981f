-- ===== src/Access/Fuel.antt =====
-- The loop of `drain` ends: every round but the last takes a slice.
use xui_agent.Prelude.{
  ℕ, zero, suc, arith, ◌<◌, ◌≡◌, refl, Bool, true, false, List, [], ◌∷◌, length, ◌==◌,
  if◌then◌else◌, Outcome, ok, err,
}
use xui_agent.Spool.Bytes.{Bytes}
use xui_agent.Spool.Types.{AccessCheckpoint}
use xui_agent.Access.Lines.{
  Slice, line_end, buffer_full, at_end, broken, Line, ReadError, extend, read_line, read_line_from,
  no_line,
}
use xui_agent.Access.Drain.{
  Queue, Parsed, DrainError, cancelled, read_error, out_of_fuel, queue_error, advance, handle_line,
  next, on_line, drain,
}

abbrev pub ran_out : {E : Type 0} → Outcome (DrainError E) Bool → Bool
ran_out (ok b) = false
ran_out (err cancelled) = false
ran_out (err read_error) = false
ran_out (err out_of_fuel) = true
ran_out (err (queue_error e)) = false

-- What is left behind a line that is complete.
abbrev Shrinks : ℕ → Outcome ReadError Line × List Slice → Type 0
Shrinks n (err e, rs) = Unit {0}
Shrinks n (ok l, rs) = l.complete ≡ true → length rs < n

read_line_from-Shrinks :
    (l : Line) (rs : List Slice) → l.complete ≡ false → Shrinks (length rs) (read_line_from l rs)
unfolding read_line_from extend
read_line_from-Shrinks l [] h = λ k. absurd (ground (arith, k))
read_line_from-Shrinks l (line_end f ∷ rs) h = λ k. omega arith
read_line_from-Shrinks l (buffer_full f ∷ rs) h =
    widen (read_line_from (extend l f) rs) (read_line_from-Shrinks (extend l f) rs h)
  where
    widen :
        (r : Outcome ReadError Line × List Slice)
        → Shrinks (length rs) r
        → Shrinks (suc (length rs)) r
    widen (err e, rs') k = tt
    widen (ok l', rs') k = λ c. omega (arith, k c)
read_line_from-Shrinks l (at_end f ∷ rs) h = λ k. absurd (ground (arith, k))
read_line_from-Shrinks l (broken ∷ rs) h = tt

module _ {E : Type 0} (queue : Queue E) (sha256_hex : Bytes → Bytes) (parse : Bytes → Parsed) where
  open queue use {S}

  abbrev Rest : Type 0
  Rest = S → Outcome (DrainError E) Bool × S

  next-runs :
      (r : Outcome E (Unit {0}) × S) (rest : Rest)
      → ((s : S) → ran_out (rest s).0 ≡ false)
      → ran_out (next queue sha256_hex parse r rest).0 ≡ false
  next-runs (ok u, s) rest h = h s
  next-runs (err e, s) rest h = refl

  on_line-runs :
      (n : ℕ) (r : Outcome ReadError Line × List Slice) (rest : Line → List Slice → Rest) (s : S)
      → Shrinks n r
      → ((l : Line) (rs : List Slice) (s' : S) → length rs < n → ran_out (rest l rs s').0 ≡ false)
      → ran_out (on_line queue sha256_hex parse r rest s).0 ≡ false
  on_line-runs n (err e, rs) rest s k h = refl
  on_line-runs n (ok l, rs) rest s k h = go l.complete k
    where
      go :
          (b : Bool)
          → (b ≡ true → length rs < n)
          → ran_out (if b then rest l rs s else (ok (l.bytes_read == 0), s)).0 ≡ false
      go true k' = h l rs s (k' refl)
      go false k' = refl

  either_branch :
      (b : Bool) (r r' : Outcome (DrainError E) Bool × S)
      → ran_out r.0 ≡ false
      → ran_out r'.0 ≡ false
      → ran_out (if b then r else r').0 ≡ false
  either_branch true r r' h k = h
  either_branch false r r' h k = k

  -- With more rounds than there are slices, the drain never stops for want of rounds.
  pub drain-fuel :
      (fuel : ℕ) (live : ℕ → Bool) (rs : List Slice) (c : AccessCheckpoint) (s : S)
      → length rs < fuel
      → ran_out (drain queue sha256_hex parse fuel live rs c s).0 ≡ false
  unfolding drain read_line
  drain-fuel zero live rs c s h = absurd (omega arith)
  drain-fuel (suc fuel) live rs c s h =
      either_branch (live fuel) _ (err cancelled, s)
        (on_line-runs (length rs) (read_line rs) _ s (read_line_from-Shrinks no_line rs refl)
          (λ l rs' s' k.
            next-runs (handle_line queue sha256_hex parse l (advance queue sha256_hex parse c l) s')
              _
              (λ s''.
                drain-fuel fuel live rs' (advance queue sha256_hex parse c l) s'' (omega arith))))
        refl
