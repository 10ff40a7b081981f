-- ===== src/Access/Lines.antt =====
-- `readBoundedAccessLine` and `appendAccessAnchor` of internal/telemetry/access.go. `bufio.Reader` is
-- a list of what its `ReadSlice('\n')` returns; behind the list it is at the end of the file.
use xui_agent.Prelude.{
  ℕ, ◌+◌, ◌-◌, ◌*◌, ◌^◌, Bool, true, false, List, [], ◌∷◌, ◌++◌, length, drop, ltb, leb,
  if◌then◌else◌, Outcome, ok, err,
}
use xui_agent.Spool.Bytes.{Bytes}

abbrev pub max_access_line_bytes : ℕ
max_access_line_bytes = 64 * 2 ^ 10

abbrev pub anchor_bytes : ℕ
anchor_bytes = 64

pub data Slice : Type 0 where
  -- up to and with the newline, a full buffer without one, what is left, a read error
  line_end buffer_full at_end : Bytes → Slice
  broken : Slice

pub data ReadError : Type 0 where
  read_failed : ReadError

-- `boundedAccessLine`
pub record Line : Type 0 where
  pub data_bytes : Bytes
  pub anchor : Bytes
  pub bytes_read : ℕ
  pub complete : Bool
  pub too_long : Bool

abbrev pub no_line : Line
no_line = record {
  data_bytes = [];
  anchor = [];
  bytes_read = 0;
  complete = false;
  too_long = false;
}

unfoldable pub append_anchor : Bytes → Bytes → Bytes
append_anchor anchor fragment =
    if leb anchor_bytes (length fragment)
    then drop (length fragment - anchor_bytes) fragment
    else if ltb anchor_bytes (length anchor + length fragment)
    then drop (length anchor + length fragment - anchor_bytes) anchor ++ fragment
    else anchor ++ fragment

-- What the loop does with a fragment, before it looks at the error.
unfoldable pub extend : Line → Bytes → Line
extend l fragment =
    let read = l.bytes_read + length fragment in
    let over = ltb max_access_line_bytes read in
    record {
      data_bytes =
          if l.too_long then l.data_bytes else if over then [] else l.data_bytes ++ fragment;
      anchor = append_anchor l.anchor fragment;
      bytes_read = read;
      complete = l.complete;
      too_long = if l.too_long then true else over;
    }

unfoldable pub read_line_from : Line → List Slice → Outcome ReadError Line × List Slice
unfolding extend append_anchor
read_line_from l [] = (ok (extend l []), [])
read_line_from l (line_end f ∷ rs) = (ok (record (extend l f) { complete = true }), rs)
read_line_from l (buffer_full f ∷ rs) = read_line_from (extend l f) rs
read_line_from l (at_end f ∷ rs) = (ok (extend l f), rs)
read_line_from l (broken ∷ rs) = (err read_failed, rs)

unfoldable pub read_line : List Slice → Outcome ReadError Line × List Slice
unfolding read_line_from
read_line rs = read_line_from no_line rs
