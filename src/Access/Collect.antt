-- ===== src/Access/Collect.antt =====
-- `collectOnce` of internal/telemetry/access.go and the anchors of its checkpoint: the log file is
-- followed through appends, truncations and rotations.
use xui_agent.Prelude.{
  ℕ, suc, ◌+◌, ◌-◌, Bool, true, false, ◌&&◌, ◌||◌, not, Option, none, some, List, [], ◌∷◌, length,
  take, drop, ltb, leb, ◌==◌, if◌then◌else◌, Outcome, ok, err,
}
use xui_agent.Spool.Bytes.{Bytes, bytes_eq}
use xui_agent.Spool.Types.{AccessCheckpoint}
use xui_agent.Access.Lines.{Slice, anchor_bytes}
use xui_agent.Access.Drain.{Queue, rotation_gap, Parsed, DrainError, queue_error, drain}

-- A file as the collector sees it: its identity, its bytes, and how the reader slices them from an
-- offset on.
pub record LogFile : Type 0 where
  pub device : ℕ
  pub inode : ℕ
  pub content : Bytes
  pub slices : ℕ → List Slice

-- `ReadAt`, or none at the end of the file.
unfoldable pub read_at : Bytes → ℕ → ℕ → Option Bytes
read_at content offset count =
    if leb (offset + count) (length content) then some (take count (drop offset content)) else none

abbrev pub same_sum : (Bytes → Bytes) → Bytes → Option Bytes → Bool
same_sum sha256_hex sum none = false
same_sum sha256_hex sum (some raw) = bytes_eq sum (sha256_hex raw)

-- `checkpointAnchorMatches`. An anchor offset behind the offset is a length that is not positive.
unfoldable pub anchor_matches : (Bytes → Bytes) → Bytes → AccessCheckpoint → Bool
unfolding read_at
anchor_matches sha256_hex content c =
    let count = c.offset - c.anchor_offset in
    if c.offset == 0 || length c.anchor_sha256 == 0
    then true
    else if count == 0 || ltb anchor_bytes count
    then false
    else same_sum sha256_hex c.anchor_sha256 (read_at content c.anchor_offset count)

abbrev pub with_sum :
    (Bytes → Bytes) → AccessCheckpoint → ℕ → Option Bytes → Option AccessCheckpoint
with_sum sha256_hex c count none = none
with_sum sha256_hex c count (some raw) =
    some (record c { anchor_offset = c.offset - count; anchor_sha256 = sha256_hex raw })

-- `checkpointWithFileAnchor`
unfoldable pub with_file_anchor :
    (Bytes → Bytes) → Bytes → AccessCheckpoint → Option AccessCheckpoint
unfolding read_at
with_file_anchor sha256_hex content c =
    let count = if ltb c.offset anchor_bytes then c.offset else anchor_bytes in
    if c.offset == 0
    then some c
    else with_sum sha256_hex c count (read_at content (c.offset - count) count)

abbrev pub is_file : ℕ → ℕ → LogFile → Bool
is_file device inode f = f.device == device && f.inode == inode

-- `findFileByIdentity`, over the files of the directory.
unfoldable pub find_file : ℕ → ℕ → List LogFile → Option LogFile
find_file device inode [] = none
find_file device inode (f ∷ fs) =
    let later = find_file device inode fs in if is_file device inode f then some f else later

abbrev pub fresh_checkpoint : LogFile → ℕ → AccessCheckpoint
fresh_checkpoint f offset = record {
  device = f.device;
  inode = f.inode;
  offset = offset;
  anchor_offset = 0;
  anchor_sha256 = [];
  initialized = true;
}

abbrev pub rewound : AccessCheckpoint → AccessCheckpoint
rewound c = record c { offset = 0; anchor_offset = 0; anchor_sha256 = [] }

module _ {E : Type 0} (queue : Queue E) (sha256_hex : Bytes → Bytes) (parse : Bytes → Parsed)
    (live : ℕ → Bool) where
  open queue use {S, note, save, stored}

  abbrev pub End : Type 0
  End = Outcome (DrainError E) (Unit {0}) × S

  -- One drain of a file from a checkpoint: every round of its loop reads a slice, or is the last.
  abbrev pub drain_file : LogFile → AccessCheckpoint → S → Outcome (DrainError E) Bool × S
  drain_file f c s =
      let slices = f.slices c.offset in
      drain queue sha256_hex parse (suc (length slices)) live slices c s

  abbrev pub finished : Outcome (DrainError E) Bool × S → End
  finished (ok _, s) = (ok tt, s)
  finished (err e, s) = (err e, s)

  abbrev pub saving : AccessCheckpoint → S → (S → End) → End
  saving c s rest =
      let (r, s') = save c s in elim r [ ok _ ↦ rest s' | err e ↦ (err (queue_error e), s') ]

  -- The file that the checkpoint is about is still the log.
  unfoldable pub collect_same : LogFile → AccessCheckpoint → S → End
  unfolding anchor_matches
  collect_same f c s =
      if ltb (length f.content) c.offset || not (anchor_matches sha256_hex f.content c)
      then saving (rewound c) s (λ s'. finished (drain_file f (rewound c) s'))
      else finished (drain_file f c s)

  -- The new log is begun.
  unfoldable pub collect_new : LogFile → S → End
  collect_new f s =
      saving (fresh_checkpoint f 0) s (λ s'. finished (drain_file f (fresh_checkpoint f 0) s'))

  -- Behind the drain of the rotated file, which may not be at its end yet.
  abbrev pub behind_rotated : LogFile → Outcome (DrainError E) Bool × S → End
  behind_rotated f (err e, s) = (err e, s)
  behind_rotated f (ok false, s) = (ok tt, s)
  behind_rotated f (ok true, s) = collect_new f s

  -- The log was rotated: what is left of the old file comes first, if it is found unchanged.
  unfoldable pub collect_rotated : LogFile → AccessCheckpoint → Option LogFile → S → End
  unfolding collect_new anchor_matches
  collect_rotated f c none s = collect_new f (note rotation_gap s)
  collect_rotated f c (some old) s =
      if anchor_matches sha256_hex old.content c
      then behind_rotated f (drain_file old c s)
      else collect_new f (note rotation_gap (note rotation_gap s))

  abbrev pub collect_first : Option AccessCheckpoint → S → End
  collect_first none s = (err DrainError.read_error, s)
  collect_first (some c) s = saving c s (λ s'. (ok tt, s'))

  abbrev pub collect_with : LogFile → List LogFile → Option AccessCheckpoint → S → End
  collect_with f directory none s =
      collect_first (with_file_anchor sha256_hex f.content (fresh_checkpoint f (length f.content)))
        s
  collect_with f directory (some c) s =
      if is_file c.device c.inode f
      then collect_same f c s
      else collect_rotated f c (find_file c.device c.inode directory) s

  -- `collectOnce`, for a log that is there and can be read.
  unfoldable pub collect_once : LogFile → List LogFile → S → End
  unfolding collect_same collect_rotated with_file_anchor find_file
  collect_once f directory s = collect_with f directory (stored s) s
