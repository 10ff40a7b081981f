-- ===== src/Xray/Digits.antt =====
-- Decimal numbers and hexadecimal digests as the code prints and reads them.
use native.Mathlib.Nat.{one-le-pow, mod-lt, div-add-mod', pow-suc, div-lt_iff_lt-mul}
use xui_agent.Prelude.{
  ℕ, zero, suc, ◌+◌, ◌-◌, ◌*◌, ◌/◌, ◌%◌, ◌^◌, ◌<◌, ◌≡◌, refl, ap, Bool, true, ◌&&◌, ◌||◌, Option,
  none, some, [], ◌∷◌, arith, length, ltb, leb, if◌then◌else◌,
}
use xui_agent.Spool.Bytes.{Bytes, u64}

unfoldable pub is_digit : ℕ → Bool
is_digit c = leb b'0' c && leb c b'9'

-- `strconv.ParseUint(value, 10, 64)` digit by digit, over the value so far.
unfoldable pub parse_digits : ℕ → Bytes → Option ℕ
parse_digits n [] = some n
parse_digits n (c ∷ cs) =
    let rest = parse_digits (n * 10 + (c - b'0')) cs in
    if is_digit c && ltb (n * 10 + (c - b'0')) u64 then rest else none

unfoldable pub parse_uint64 : Bytes → Option ℕ
unfolding parse_digits
parse_uint64 [] = none
parse_uint64 (c ∷ cs) = parse_digits 0 (c ∷ cs)

-- `%0wd`, at a number of at most `w` digits.
unfoldable pub padded : ℕ → ℕ → Bytes
padded zero n = []
padded (suc w) n = (b'0' + n / 10 ^ w) ∷ padded w (n % 10 ^ w)

unfoldable pub is_hex : ℕ → Bool
unfolding is_digit
is_hex c = is_digit c || (leb b'a' c && leb c b'f') || (leb b'A' c && leb c b'F')

unfoldable pub all_bytes : (ℕ → Bool) → Bytes → Bool
all_bytes p [] = true
all_bytes p (c ∷ cs) = p c && all_bytes p cs

unfoldable pub to_lower_byte : ℕ → ℕ
to_lower_byte c = if leb b'A' c && leb c b'Z' then c + 32 else c

-- `strings.ToLower`, on ASCII.
unfoldable pub to_lower : Bytes → Bytes
unfolding to_lower_byte
to_lower [] = []
to_lower (c ∷ cs) = to_lower_byte c ∷ to_lower cs

pub length-padded : (w n : ℕ) → length (padded w n) ≡ w
unfolding padded
length-padded zero n = refl
length-padded (suc w) n = omega (arith, length-padded w (n % 10 ^ w))

ten_pos : (w : ℕ) → 0 < 10 ^ w
ten_pos w = one-le-pow w 10 (omega arith)

digit_of-is_digit : (p n : ℕ) → 0 < p → n < 10 * p → is_digit (b'0' + n / p) ≡ true
unfolding is_digit
digit_of-is_digit p n pos h = let q = (div-lt_iff_lt-mul pos).1 h in ground arith

step_fits : (a p r : ℕ) → 0 < p → a * p + r < u64 → a < u64
step_fits a p r pos h = grind arith

pub parse-padded :
    (w n m : ℕ)
    → n < 10 ^ w
    → m * 10 ^ w + n < u64
    → parse_digits m (padded w n) ≡ some (m * 10 ^ w + n)
unfolding parse_digits padded
parse-padded zero n m h k = ap some (omega arith)
parse-padded (suc w) n m h k =
    let p = 10 ^ w in
    let q : n / p < 10 = (div-lt_iff_lt-mul (ten_pos w)).1 (omega (arith, pow-suc 10 w)) in
    let e = div-add-mod' n p in
    let digit : b'0' + n / p - b'0' ≡ n / p = omega arith in
    let total : (m * 10 + n / p) * p + n % p ≡ m * 10 ^ suc w + n =
      omega (arith, pow-suc 10 w, ap (λ (t : ℕ). m * t) (pow-suc 10 w)) in
    let fits : m * 10 + n / p < u64 =
      step_fits (m * 10 + n / p) p (n % p) (ten_pos w) (rw total k) in
    let rest : parse_digits (m * 10 + n / p) (padded w (n % p)) ≡ some (m * 10 ^ suc w + n) =
      rw (parse-padded w (n % p) (m * 10 + n / p) (mod-lt n (ten_pos w)) (rw total k))
        (ap some total) in
    rw digit (ground (arith, digit_of-is_digit p n (ten_pos w) (omega (arith, pow-suc 10 w)), rest))

pub padded-is_digit : (w n : ℕ) → n < 10 ^ w → all_bytes is_digit (padded w n) ≡ true
unfolding all_bytes padded
padded-is_digit zero n h = refl
padded-is_digit (suc w) n h =
    rw (digit_of-is_digit (10 ^ w) n (ten_pos w) (omega (arith, pow-suc 10 w)))
      (padded-is_digit w (n % 10 ^ w) (mod-lt n (ten_pos w)))
