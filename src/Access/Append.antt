-- ===== src/Access/Append.antt =====
-- The anchor of the checkpoint behind a line, and its check against a log that has grown.
use xui_agent.Prelude.{
  ℕ, arith, ◌+◌, ◌-◌, ◌<◌, ◌≡◌, refl, ap, ◌∙◌, true, false, some, [], ◌∷◌, ◌++◌, length, take, drop,
  length-append, length-drop, drop-append, ltb, ltb-false,
}
use xui_agent.Spool.Bytes.{Bytes, bytes_eq_iff}
use xui_agent.Spool.Types.{AccessCheckpoint}
use xui_agent.Access.Lines.{anchor_bytes}
use xui_agent.Access.Anchor.{line_of, tail_of, drop-all}
use xui_agent.Access.Drain.{with_line_anchor, Queue, Parsed, advance}
use xui_agent.Access.Collect.{read_at, anchor_matches}

take-append : (xs ys : Bytes) → take (length xs) (xs ++ ys) ≡ xs
take-append [] ys = refl
take-append (x ∷ xs) ys = ap (λ r. x ∷ r) (take-append xs ys)

module _ (before line more : Bytes) where
  abbrev m : ℕ
  m = length line - anchor_bytes

  read_tail :
      take (length (tail_of line)) (drop (length before + m) (before ++ (line ++ more)))
      ≡ tail_of line
  read_tail = rw (drop-all (length before + m) before (line ++ more) (omega arith)) (
      ap (λ k. take (length (tail_of line)) (drop k (line ++ more))) (omega arith)
      ∙ ap (take (length (tail_of line))) (drop-append m line more (omega arith))
      ∙ take-append (tail_of line) more)

  read_at-tail_of :
      read_at (before ++ (line ++ more)) (length before + m) (length (tail_of line))
      ≡ some (tail_of line)
  unfolding read_at
  read_at-tail_of = rw read_tail (
      ground
        (arith, length-append before (line ++ more), length-append line more, length-drop m line))

-- Let a checkpoint stand at the start of a line that is not empty. Behind that line its anchor matches
-- the log, whatever the log is appended.
pub anchor_matches-advance :
    {E : Type 0} (queue : Queue E) (sha256_hex : Bytes → Bytes) (parse : Bytes → Parsed)
    (before line more : Bytes) (c : AccessCheckpoint)
    → c.offset ≡ length before
    → 0 < length line
    → anchor_matches sha256_hex
        (before ++ (line ++ more))
        (advance queue sha256_hex parse c (line_of line true))
      ≡ true
unfolding anchor_matches with_line_anchor
anchor_matches-advance queue sha256_hex parse before line more c at_start full =
    let tail = tail_of line in
    let kept : length tail ≡ length line - (length line - anchor_bytes) =
      length-drop (length line - anchor_bytes) line in
    let short : ltb anchor_bytes (length tail) ≡ false =
      ltb-false anchor_bytes (length tail) (omega arith) in
    let from : length before + length line - length tail
        ≡ length before + (length line - anchor_bytes) =
      omega arith in
    let count : length before + length line - (length before + (length line - anchor_bytes))
        ≡ length tail =
      omega arith in
    rw (short, at_start, from, count, read_at-tail_of before line more)
      (ground (arith, (bytes_eq_iff (sha256_hex tail) (sha256_hex tail)).1 refl))
