-- ===== src/Tests/SpoolModel.antt =====
-- A concrete database and encoding, at which the parameters of the queue's theorems are met.
use xui_agent.Prelude.{
  ℕ, ◌≡◌, refl, ap, true, Option, none, some, String, List, [], ◌∷◌, ◌++◌, length, take, drop, All,
  arith, ◌==◌, str_eq, eq_iff, if◌then◌else◌,
}
use xui_agent.Spool.Bytes.{Bytes, bytes_lt, bytes_eq, bytes_eq_iff}
use xui_agent.Spool.Bolt.{Bolt, Pair}
use xui_agent.Spool.Types.{Event}
use xui_agent.Spool.Store.{Codec}

-- A bucket as its pairs, sorted by key.
unfoldable pub sorted_put : List Pair → Bytes → Bytes → List Pair
sorted_put [] k v = (k, v) ∷ []
sorted_put ((j, w) ∷ ps) k v =
    let later = sorted_put ps k v in
    if bytes_lt j k
    then (j, w) ∷ later
    else if bytes_eq j k
    then (k, v) ∷ ps
    else (k, v) ∷ (j, w) ∷ ps

unfoldable pub sorted_delete : List Pair → Bytes → List Pair
sorted_delete [] k = []
sorted_delete ((j, w) ∷ ps) k =
    let later = sorted_delete ps k in if bytes_eq j k then ps else (j, w) ∷ later

pub sorted_put-last :
    (ps : List Pair) (k v : Bytes)
    → All (λ (p : Pair). bytes_lt p.0 k ≡ true) ps
    → sorted_put ps k v ≡ ps ++ (k, v) ∷ []
unfolding sorted_put
sorted_put-last [] k v h = refl
sorted_put-last ((j, w) ∷ ps) k v h = rw h.0 (ap (λ r. (j, w) ∷ r) (sorted_put-last ps k v h.1))

pub sorted_delete-first :
    (b : List Pair) (k v : Bytes) (rest : List Pair) → b ≡ (k, v) ∷ rest → sorted_delete b k ≡ rest
unfolding sorted_delete
sorted_delete-first b k v rest e = rw e (rw ((bytes_eq_iff k k).1 refl))

abbrev pub sorted_bolt : Bolt
sorted_bolt = record {
  Bucket = List Pair;
  empty = [];
  put = sorted_put;
  delete = sorted_delete;
  pairs = λ b. b;
  pairs-empty = refl;
  pairs-put_last = sorted_put-last;
  pairs-delete_first = sorted_delete-first;
}

-- A tag, the numbers, and the two texts behind the length of the first.
abbrev frame : ℕ → Event → Option Bytes
frame tag e =
    some (tag ∷ e.sequence ∷ e.observed_at ∷ length e.event_id ∷ (e.event_id ++ e.payload))

unfoldable pub plain_encode : Event → Option Bytes
plain_encode e =
    if str_eq e.kind "access" then frame 0 e else if str_eq e.kind "route" then frame 1 e else none

abbrev unframe : String → List ℕ → Option Event
unframe kind (sequence ∷ at ∷ n ∷ rest) = some (record {
  sequence = sequence;
  event_id = take n rest;
  kind = kind;
  observed_at = at;
  payload = drop n rest;
})
unframe kind _ = none

unfoldable pub plain_decode : Bytes → Option Event
plain_decode [] = none
plain_decode (tag ∷ rest) = unframe (if tag == 0 then "access" else "route") rest

take-append_self : (xs ys : Bytes) → take (length xs) (xs ++ ys) ≡ xs
take-append_self [] ys = refl
take-append_self (x ∷ xs) ys = ap (λ r. x ∷ r) (take-append_self xs ys)

drop-append_self : (xs ys : Bytes) → drop (length xs) (xs ++ ys) ≡ ys
drop-append_self [] ys = refl
drop-append_self (x ∷ xs) ys = drop-append_self xs ys

pub plain_decode-encode :
    (e : Event) (raw : Bytes) → plain_encode e ≡ some raw → plain_decode raw ≡ some e
unfolding plain_encode plain_decode
plain_decode-encode e raw h = ground (
  arith,
  eq_iff e.kind "access",
  eq_iff e.kind "route",
  take-append_self e.event_id e.payload,
  drop-append_self e.event_id e.payload,
)

abbrev pub plain_codec : Codec
plain_codec = record {
  encode = plain_encode;
  decode = plain_decode;
  digest = λ node stream e. node ∷ e.sequence ∷ stream;
  decode-encode = plain_decode-encode;
}
