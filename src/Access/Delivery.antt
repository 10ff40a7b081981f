-- ===== src/Access/Delivery.antt =====
-- The drain of the access log over a queue: the stored checkpoint and the events that were sent.
use xui_agent.Prelude.{
  arith, ℕ, zero, suc, ◌≡◌, refl, sym, ap, ◌∙◌, Bool, true, false, some, List, [], ◌∷◌, ◌++◌, ◌==◌,
  if◌then◌else◌, Outcome, ok, err,
}
use mathlib.Core.List.{append_assoc, append-nil}
use xui_agent.Spool.Bytes.{Bytes}
use xui_agent.Spool.Types.{AccessCheckpoint}
use xui_agent.Access.Lines.{Slice, Line, ReadError, read_line}
use xui_agent.Access.Drain.{
  Queue, Report, line_too_long, parse_failed, Parsed, unrecognized, skipped, event, DrainError,
  cancelled, advance, handle_parsed, handle_line, next, on_line, drain,
}

-- These complete lines stand one after the other at the start of what is read.
pub data Consumed : List Slice → List Line → Type 0 where
  nothing : {rs : List Slice} → Consumed rs []
  one_line :
      {rs rs' : List Slice} {l : Line} {ls : List Line}
      → read_line rs ≡ (ok l, rs')
      → l.complete ≡ true
      → Consumed rs' ls
      → Consumed rs (l ∷ ls)

module _ {E : Type 0} (queue : Queue E) (sha256_hex : Bytes → Bytes) (parse : Bytes → Parsed) where
  open queue use {
    S, note, save, send, stored, sent, stored-note, sent-note, stored-save, sent-save, stored-send,
    sent-send, Ready, ready-fewer, ready-note, ready-save, ready-send,
  }

  abbrev event_of : Parsed → List Bytes
  event_of unrecognized = []
  event_of skipped = []
  event_of (event x) = x ∷ []

  abbrev pub line_events : Line → List Bytes
  line_events l = if l.too_long then [] else event_of (parse l.data_bytes)

  -- The events of the lines, in order, and the checkpoint behind them.
  unfoldable pub events_of : List Line → List Bytes
  events_of [] = []
  events_of (l ∷ ls) = line_events l ++ events_of ls

  unfoldable pub behind : AccessCheckpoint → List Line → AccessCheckpoint
  behind c [] = c
  behind c (l ∷ ls) = behind (advance queue sha256_hex parse c l) ls

  -- What a line has done to a queue that had room for it, and still has for `n` more.
  abbrev Handled : ℕ → List Bytes → AccessCheckpoint → S → Outcome E (Unit {0}) × S → Type 0
  Handled n xs c s (ok _, s') = Ready n s' × (stored s' ≡ some c) × (sent s' ≡ sent s ++ xs)
  Handled n xs c s (err e, s') = Ready n s' × (stored s' ≡ stored s) × (sent s' ≡ sent s)

  module _ (n : ℕ) where
    saved :
        (c : AccessCheckpoint) (s s0 : S) (r : Outcome E (Unit {0})) (s' : S)
        → Ready n s'
        → stored s0 ≡ stored s
        → sent s0 ≡ sent s
        → stored s' ≡ elim r [ ok _ ↦ some c | err _ ↦ stored s0 ]
        → sent s' ≡ sent s0
        → Handled n [] c s (r, s')
    saved c s s0 (ok u) s' y e f h k = (y, h, k ∙ f ∙ sym (append-nil (sent s)))
    saved c s s0 (err u) s' y e f h k = (y, h ∙ e, k ∙ f)

    was_sent :
        (x : Bytes) (c : AccessCheckpoint) (s : S) (r : Outcome E (Unit {0})) (s' : S)
        → Ready n s'
        → stored s' ≡ elim r [ ok _ ↦ some c | err _ ↦ stored s ]
        → sent s' ≡ elim r [ ok _ ↦ sent s ++ x ∷ [] | err _ ↦ sent s ]
        → Handled n (x ∷ []) c s (r, s')
    was_sent x c s (ok u) s' y h k = (y, h, k)
    was_sent x c s (err u) s' y h k = (y, h, k)

    noted :
        (q : Report) (c : AccessCheckpoint) (s : S)
        → Ready n s
        → Handled n [] c s (save c (note q s))
    noted q c s y =
        saved c s (note q s) _ _ (ready-save n c (note q s) (ready-note n q s y)) (stored-note q s)
          (sent-note q s) (stored-save c (note q s)) (sent-save c (note q s))

    handle_parsed-Handled :
        (p : Parsed) (c : AccessCheckpoint) (s : S)
        → Ready (suc n) s
        → Handled n (event_of p) c s (handle_parsed queue sha256_hex parse p c s)
    unfolding handle_parsed
    handle_parsed-Handled unrecognized c s y =
        noted parse_failed c s (ready-fewer n (suc n) s (omega arith) y)
    handle_parsed-Handled skipped c s y =
        saved c s s _ _ (ready-save n c s (ready-fewer n (suc n) s (omega arith) y)) refl refl
          (stored-save c s) (sent-save c s)
    handle_parsed-Handled (event x) c s y =
        was_sent x c s _ _ (ready-send n x c s y) (stored-send x c s) (sent-send n x c s y)

    handle_line-Handled :
        (l : Line) (c : AccessCheckpoint) (s : S)
        → Ready (suc n) s
        → Handled n (line_events l) c s (handle_line queue sha256_hex parse l c s)
    unfolding handle_line
    handle_line-Handled l c s y = go l.too_long
      where
        go :
            (b : Bool)
            → Handled n (if b then [] else event_of (parse l.data_bytes)) c s (
                if b
                then save c (note line_too_long s)
                else handle_parsed queue sha256_hex parse (parse l.data_bytes) c s)
        go true = noted line_too_long c s (ready-fewer n (suc n) s (omega arith) y)
        go false = handle_parsed-Handled (parse l.data_bytes) c s y

  -- Some of the lines, from the first on, are settled: sent, and behind the stored checkpoint.
  pub record Delivered (rs : List Slice) (c : AccessCheckpoint) (s s' : S) : Type 0 where
    pub lines : List Line
    pub consumed : Consumed rs lines
    pub checkpoint : stored s' ≡ some (behind c lines)
    pub events : sent s' ≡ sent s ++ events_of lines
    pub ready : Ready 0 s'

  unmoved :
      (rs : List Slice) (c : AccessCheckpoint) (s s' : S)
      → stored s' ≡ some c
      → sent s' ≡ sent s
      → (n : ℕ) → Ready n s'
      → Delivered rs c s s'
  unfolding behind events_of
  unmoved rs c s s' h k n y = record {
    lines = [];
    consumed = nothing;
    checkpoint = h;
    events = k ∙ sym (append-nil (sent s));
    ready = ready-fewer 0 n s' (omega arith) y;
  }

  moved :
      (rs rs' : List Slice) (l : Line) (c : AccessCheckpoint) (s s1 s' : S)
      → read_line rs ≡ (ok l, rs')
      → l.complete ≡ true
      → sent s1 ≡ sent s ++ line_events l
      → Delivered rs' (advance queue sha256_hex parse c l) s1 s'
      → Delivered rs c s s'
  unfolding behind events_of
  moved rs rs' l c s s1 s' e whole k d = record {
    lines = l ∷ d.lines;
    consumed = one_line e whole d.consumed;
    checkpoint = d.checkpoint;
    events =
        d.events
        ∙ ap (λ xs. xs ++ events_of d.lines) k
        ∙ append_assoc (sent s) (line_events l) (events_of d.lines);
    ready = d.ready;
  }

  abbrev Rest : Type 0
  Rest = S → Outcome (DrainError E) Bool × S

  -- One round of the loop, before the rest of it.
  module _ (rs : List Slice) (c : AccessCheckpoint) (s : S) (start : stored s ≡ some c) (n : ℕ)
      (y : Ready (suc n) s) where
    abbrev c' : Line → AccessCheckpoint
    c' l = advance queue sha256_hex parse c l

    abbrev Going : Line → List Slice → Rest → Type 0
    Going l rs' rest =
        (s1 : S) → stored s1 ≡ some (c' l) → Ready n s1 → Delivered rs' (c' l) s1 (rest s1).1

    next-Delivered :
        (l : Line) (rs' : List Slice) (rest : Rest)
        → read_line rs ≡ (ok l, rs')
        → l.complete ≡ true
        → Going l rs' rest
        → (r : Outcome E (Unit {0}) × S) → Handled n (line_events l) (c' l) s r
        → Delivered rs c s (next queue sha256_hex parse r rest).1
    next-Delivered l rs' rest q w going (ok u, s1) (k, at_c, more) =
        moved rs rs' l c s s1 (rest s1).1 q w more (going s1 at_c k)
    next-Delivered l rs' rest q w going (err e, s1) (k, at_s, same) =
        unmoved rs c s s1 (at_s ∙ start) same n k

    whole-Delivered :
        (l : Line) (rs' : List Slice) (rest : Rest)
        → read_line rs ≡ (ok l, rs')
        → Going l rs' rest
        → (b : Bool) → l.complete ≡ b
        → Delivered rs c s
            (if b
              then next queue sha256_hex parse (handle_line queue sha256_hex parse l (c' l) s) rest
              else (ok (l.bytes_read == 0), s)).1
    whole-Delivered l rs' rest q going true w =
        next-Delivered l rs' rest q w going (handle_line queue sha256_hex parse l (c' l) s)
          (handle_line-Handled n l (c' l) s y)
    whole-Delivered l rs' rest q going false w = unmoved rs c s s start refl (suc n) y

    on_line-Delivered :
        (rest : Line → List Slice → Rest)
        → ((l : Line) (rs' : List Slice) → Going l rs' (rest l rs'))
        → (r : Outcome ReadError Line × List Slice) → read_line rs ≡ r
        → Delivered rs c s
            (on_line queue sha256_hex parse r
              (λ l rs' s'.
                next queue sha256_hex parse
                  (handle_line queue sha256_hex parse l (c' l) s')
                  (rest l rs'))
              s).1
    on_line-Delivered rest going (err e, rs') q = unmoved rs c s s start refl (suc n) y
    on_line-Delivered rest going (ok l, rs') q =
        whole-Delivered l rs' (rest l rs') q (going l rs') l.complete refl

    round-Delivered :
        (rest : Line → List Slice → Rest)
        → ((l : Line) (rs' : List Slice) → Going l rs' (rest l rs'))
        → (b : Bool)
        → Delivered rs c s
            (if b
              then on_line queue sha256_hex parse
                  (read_line rs)
                  (λ l rs' s'.
                    next queue sha256_hex parse
                      (handle_line queue sha256_hex parse l (c' l) s')
                      (rest l rs'))
                  s
              else (err cancelled, s)).1
    round-Delivered rest going true = on_line-Delivered rest going (read_line rs) refl
    round-Delivered rest going false = unmoved rs c s s start refl (suc n) y

  -- A drain from the stored checkpoint settles the lines up to some line.
  pub drain-Delivered :
      (fuel : ℕ) (live : ℕ → Bool) (rs : List Slice) (c : AccessCheckpoint) (s : S)
      → stored s ≡ some c
      → Ready fuel s
      → Delivered rs c s (drain queue sha256_hex parse fuel live rs c s).1
  unfolding drain
  drain-Delivered zero live rs c s h y = unmoved rs c s s h refl 0 y
  drain-Delivered (suc fuel) live rs c s h y =
      round-Delivered rs c s h fuel y
        (λ l rs' s''.
          drain queue sha256_hex parse fuel live rs' (advance queue sha256_hex parse c l) s'')
        (λ l rs' s1 k z. drain-Delivered fuel live rs' (advance queue sha256_hex parse c l) s1 k z)
        (live fuel)
