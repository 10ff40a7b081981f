-- ===== src/Spool/Bytes.antt =====
-- The keys and counters of internal/eventspool/store.go: eight bytes, the most significant first.
use native.Mathlib.Nat.{one-le-pow, mod-lt, div-add-mod', mod-eq_of_lt, lt_trans}
use xui_agent.Prelude.{
  ℕ, zero, suc, ◌+◌, ◌*◌, ◌/◌, ◌%◌, ◌^◌, ◌<◌, ◌↔◌, ◌≡◌, refl, Bool, true, false, List, [], ◌∷◌,
  arith, ◌⊎◌, inl, inr, length, ltb, ◌==◌, if◌then◌else◌, ◌&&◌, ◌||◌,
}

abbrev pub Bytes : Type 0
Bytes = List ℕ

-- `binary.BigEndian.PutUint64` for a width of `w` bytes, at a value below `256 ^ w`.
unfoldable pub big_endian : ℕ → ℕ → Bytes
big_endian zero n = []
big_endian (suc w) n = (n / 256 ^ w) ∷ big_endian w (n % 256 ^ w)

unfoldable pub from_big_endian : Bytes → ℕ
from_big_endian [] = 0
from_big_endian (b ∷ bs) = b * 256 ^ length bs + from_big_endian bs

abbrev pub u64 : ℕ
u64 = 2 ^ 64

unfoldable pub sequence_key : ℕ → Bytes
sequence_key n = big_endian 8 (n % u64)

unfoldable pub read_uint64 : Bytes → ℕ
read_uint64 value = if length value == 8 then from_big_endian value else 0

-- The order in which a cursor walks keys: `bytes.Compare(a, b) < 0`.
unfoldable pub bytes_lt : Bytes → Bytes → Bool
bytes_lt [] [] = false
bytes_lt [] (b ∷ bs) = true
bytes_lt (a ∷ as') [] = false
bytes_lt (a ∷ as') (b ∷ bs) = ltb a b || (a == b && bytes_lt as' bs)

pub length-big_endian : (w n : ℕ) → length (big_endian w n) ≡ w
unfolding big_endian
length-big_endian zero n = refl
length-big_endian (suc w) n = omega (arith, length-big_endian w (n % 256 ^ w))

pow_pos : (w : ℕ) → 0 < 256 ^ w
pow_pos w = one-le-pow w 256 (omega arith)

-- A value of `w` bytes is read back as it was written.
pub from-big_endian : (w n : ℕ) → n < 256 ^ w → from_big_endian (big_endian w n) ≡ n
unfolding big_endian from_big_endian
from-big_endian zero n h = omega arith
from-big_endian (suc w) n h =
    rw length-big_endian
      (rw (from-big_endian w (n % 256 ^ w) (mod-lt n (pow_pos w))) (div-add-mod' n (256 ^ w)))

lt_parts : (p m n : ℕ) → 0 < p → m < n → (m / p < n / p) ⊎ ((m / p ≡ n / p) × (m % p < n % p))
lt_parts p m n pos h = grind (arith, div-add-mod' m p, div-add-mod' n p, mod-lt m pos, mod-lt n pos)

-- Keys of one width stand in a cursor in the order of their numbers.
pub big_endian-lt :
    (w m n : ℕ) → m < n → n < 256 ^ w → bytes_lt (big_endian w m) (big_endian w n) ≡ true
unfolding big_endian bytes_lt
big_endian-lt zero m n h k = absurd (omega arith)
big_endian-lt (suc w) m n h k = elim (lt_parts (256 ^ w) m n (pow_pos w) h) [
  | inl q ↦ ground arith
  | inr (e, r) ↦
      ground (arith, big_endian-lt w (m % 256 ^ w) (n % 256 ^ w) r (mod-lt n (pow_pos w)))
]

pub read-sequence_key : (n : ℕ) → n < u64 → read_uint64 (sequence_key n) ≡ n
unfolding read_uint64 sequence_key
read-sequence_key n h = rw (mod-eq_of_lt h) (rw length-big_endian (from-big_endian 8 n h))

-- For 64-bit numbers the key of a smaller sequence stands before the key of a larger one in the byte
-- order of a cursor.
pub sequence_key-lt :
    (m n : ℕ) → m < n → n < u64 → bytes_lt (sequence_key m) (sequence_key n) ≡ true
unfolding sequence_key
sequence_key-lt m n h k =
    rw (mod-eq_of_lt (lt_trans h k)) (rw (mod-eq_of_lt k) (big_endian-lt 8 m n h k))

unfoldable pub bytes_eq : Bytes → Bytes → Bool
bytes_eq [] [] = true
bytes_eq [] (b ∷ bs) = false
bytes_eq (a ∷ as') [] = false
bytes_eq (a ∷ as') (b ∷ bs) = a == b && bytes_eq as' bs

pub bytes_eq_iff : (a b : Bytes) → (bytes_eq a b ≡ true) ↔ (a ≡ b)
unfolding bytes_eq
bytes_eq_iff [] [] = ground arith
bytes_eq_iff [] (b ∷ bs) = ground arith
bytes_eq_iff (a ∷ as') [] = ground arith
bytes_eq_iff (a ∷ as') (b ∷ bs) = ground (arith, bytes_eq_iff as' bs)
