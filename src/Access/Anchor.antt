-- ===== src/Access/Anchor.antt =====
-- How a line is cut into fragments makes no difference to what is known of it.
use xui_agent.Prelude.{
  ℕ, zero, suc, arith, ◌+◌, ◌-◌, ◌≤◌, ◌<◌, ◌≡◌, refl, sym, ap, subst, ◌∙◌, Bool, true, false, List,
  [], ◌∷◌, ◌++◌, length, drop, length-append, length-drop, drop-append, ltb, leb, leb→le, ltb→lt,
  if◌then◌else◌, Outcome, ok, err, inl, inr, Bool-cases,
}
use mathlib.Core.List.{append_assoc}
use xui_agent.Spool.Bytes.{Bytes}
use xui_agent.Access.Lines.{
  Slice, line_end, buffer_full, at_end, broken, Line, no_line, append_anchor, extend,
  read_line_from, read_line, anchor_bytes, max_access_line_bytes, read_failed, ReadError,
}

-- The last bytes of a line, at most 64.
abbrev pub tail_of : Bytes → Bytes
tail_of whole = drop (length whole - anchor_bytes) whole

-- The bytes up to the end of the line, of the file or of what can be read.
unfoldable pub line_bytes : List Slice → Bytes
line_bytes [] = []
line_bytes (line_end f ∷ rs) = f
line_bytes (buffer_full f ∷ rs) = f ++ line_bytes rs
line_bytes (at_end f ∷ rs) = f
line_bytes (broken ∷ rs) = []

unfoldable pub ends : List Slice → Bool
ends [] = false
ends (line_end f ∷ rs) = true
ends (buffer_full f ∷ rs) = ends rs
ends (at_end f ∷ rs) = false
ends (broken ∷ rs) = false

unfoldable pub readable : List Slice → Bool
readable [] = true
readable (line_end f ∷ rs) = true
readable (buffer_full f ∷ rs) = readable rs
readable (at_end f ∷ rs) = true
readable (broken ∷ rs) = false

-- What is known of a line with these bytes.
abbrev pub line_of : Bytes → Bool → Line
line_of whole complete =
    let over = ltb max_access_line_bytes (length whole) in
    record {
      data_bytes = if over then [] else whole;
      anchor = tail_of whole;
      bytes_read = length whole;
      complete = complete;
      too_long = over;
    }

drop-nil : (n : ℕ) → drop {A = ℕ} n [] ≡ []
drop-nil zero = refl
drop-nil (suc n) = refl

drop-drop : (m n : ℕ) (xs : Bytes) → drop m (drop n xs) ≡ drop (n + m) xs
drop-drop m zero xs = ap (λ k. drop k xs) (omega arith)
drop-drop m (suc n) [] = drop-nil m ∙ sym (drop-nil (suc n + m))
drop-drop m (suc n) (x ∷ xs) =
    let sum : suc n + m ≡ suc (n + m) = omega arith in rw sum (drop-drop m n xs)

pub drop-all : (n : ℕ) (xs ys : Bytes) → length xs ≤ n → drop n (xs ++ ys) ≡ drop (n - length xs) ys
drop-all n [] ys h = ap (λ k. drop k ys) (omega arith)
drop-all zero (x ∷ xs) ys h = absurd (omega arith)
drop-all (suc n) (x ∷ xs) ys h = drop-all n xs ys (omega arith) ∙ ap (λ k. drop k ys) (omega arith)

module _ (whole fragment : Bytes) where
  abbrev kept : ℕ
  kept = length whole - anchor_bytes

  long_fragment :
      anchor_bytes ≤ length fragment
      → tail_of (whole ++ fragment) ≡ drop (length fragment - anchor_bytes) fragment
  long_fragment h = rw (length-append whole fragment) (
      drop-all (length whole + length fragment - anchor_bytes) whole fragment (omega arith)
      ∙ ap (λ k. drop k fragment) (omega arith))

  short_fragment :
      (n : ℕ)
      → length fragment ≤ anchor_bytes
      → length whole + length fragment - anchor_bytes ≡ n
      → tail_of (whole ++ fragment) ≡ drop n whole ++ fragment
  short_fragment n h e =
      rw (length-append whole fragment) (rw e (drop-append n whole fragment (omega arith)))

  overflowing :
      length fragment ≤ anchor_bytes
      → anchor_bytes < length (tail_of whole) + length fragment
      → tail_of (whole ++ fragment)
        ≡ drop (length (tail_of whole) + length fragment - anchor_bytes) (tail_of whole) ++ fragment
  overflowing h k =
      short_fragment (kept + (length (tail_of whole) + length fragment - anchor_bytes)) h
        (omega (arith, length-drop kept whole))
      ∙ ap (λ xs. xs ++ fragment)
          (sym (drop-drop (length (tail_of whole) + length fragment - anchor_bytes) kept whole))

  fitting :
      length fragment ≤ anchor_bytes
      → length (tail_of whole) + length fragment ≤ anchor_bytes
      → tail_of (whole ++ fragment) ≡ tail_of whole ++ fragment
  fitting h k = short_fragment kept h (omega (arith, length-drop kept whole))

  append_anchor-tail_of : append_anchor (tail_of whole) fragment ≡ tail_of (whole ++ fragment)
  unfolding append_anchor
  append_anchor-tail_of = elim (Bool-cases (leb anchor_bytes (length fragment))) [
    | inl e ↦ rw e (sym (long_fragment (leb→le _ _ e)))
    | inr ne ↦ elim (Bool-cases (ltb anchor_bytes (length (tail_of whole) + length fragment))) [
      | inl e ↦ rw ne (rw e (sym (overflowing (ground (arith, ne)) (ltb→lt _ _ e))))
      | inr ne' ↦ rw ne (rw ne' (sym (fitting (ground (arith, ne)) (ground (arith, ne')))))
    ]
  ]

data_bytes-extend :
    (whole fragment : Bytes) (b : Bool)
    → (extend (line_of whole b) fragment).data_bytes ≡ (line_of (whole ++ fragment) b).data_bytes
unfolding extend
data_bytes-extend whole fragment b = ground (arith, length-append whole fragment)

too_long-extend :
    (whole fragment : Bytes) (b : Bool)
    → (extend (line_of whole b) fragment).too_long ≡ (line_of (whole ++ fragment) b).too_long
unfolding extend
too_long-extend whole fragment b = ground (arith, length-append whole fragment)

extend-line_of :
    (whole fragment : Bytes) (b : Bool)
    → extend (line_of whole b) fragment ≡ line_of (whole ++ fragment) b
unfolding extend
extend-line_of whole fragment b =
    cong (data_bytes-extend whole fragment b) (append_anchor-tail_of whole fragment)
      (sym (length-append whole fragment)) (too_long-extend whole fragment b)
  where
    cong :
        {d d' : Bytes} {a a' : Bytes} {n n' : ℕ} {t t' : Bool}
        → d ≡ d'
        → a ≡ a'
        → n ≡ n'
        → t ≡ t'
        → ◌≡◌ {A = Line}
            record { data_bytes = d; anchor = a; bytes_read = n; complete = b; too_long = t }
            record { data_bytes = d'; anchor = a'; bytes_read = n'; complete = b; too_long = t' }
    cong p q r s = λ i. record {
      data_bytes = p i;
      anchor = q i;
      bytes_read = r i;
      complete = b;
      too_long = s i;
    }

extended :
    (whole fragment : Bytes) (l : Line)
    → l ≡ line_of whole false
    → extend l fragment ≡ line_of (whole ++ fragment) false
extended whole fragment l e = ap (λ k. extend k fragment) e ∙ extend-line_of whole fragment false

abbrev Describes : Bool → Bytes → Bool → Outcome ReadError Line → Type 0
Describes true whole complete r = r ≡ ok (line_of whole complete)
Describes false whole complete r = r ≡ err read_failed

read_line_from-line_of :
    (whole : Bytes) (l : Line) (rs : List Slice)
    → l ≡ line_of whole false
    → Describes (readable rs) (whole ++ line_bytes rs) (ends rs) (read_line_from l rs).0
unfolding readable line_bytes ends read_line_from
read_line_from-line_of whole l [] e = ap ok (extended whole [] l e)
read_line_from-line_of whole l (line_end f ∷ rs) e =
    ap (λ (k : Line). ok (record k { complete = true })) (extended whole f l e)
read_line_from-line_of whole l (buffer_full f ∷ rs) e =
    subst (λ b. Describes (readable rs) b (ends rs) (read_line_from (extend l f) rs).0)
      (append_assoc whole f (line_bytes rs))
      (read_line_from-line_of (whole ++ f) (extend l f) rs (extended whole f l e))
read_line_from-line_of whole l (at_end f ∷ rs) e = ap ok (extended whole f l e)
read_line_from-line_of whole l (broken ∷ rs) e = refl

-- Whatever the fragments that the buffer cuts a line into: reading fails exactly if a read fails
-- before the end of the line; otherwise the result counts all bytes of the line, is complete exactly
-- if a newline ends it, is too long exactly if it has more than 64 KiB, keeps the bytes of a line that
-- is not, and has the last 64 bytes, or all, for an anchor.
pub read_line-line_of :
    (rs : List Slice)
    → (read_line rs).0
      ≡ (if readable rs then ok (line_of (line_bytes rs) (ends rs)) else err read_failed)
unfolding read_line
read_line-line_of rs = split (readable rs) (read_line_from-line_of [] no_line rs refl)
  where
    split :
        (b : Bool)
        → Describes b (line_bytes rs) (ends rs) (read_line rs).0
        → (read_line rs).0 ≡ (if b then ok (line_of (line_bytes rs) (ends rs)) else err read_failed)
    split true h = h
    split false h = h
