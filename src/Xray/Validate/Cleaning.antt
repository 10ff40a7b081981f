-- ===== src/Xray/Validate/Cleaning.antt =====
-- The digest of a request is cleaned by `Apply` and again by `Validate`: the second time changes
-- nothing.
use xui_agent.Prelude.{ℕ, arith, ◌≡◌, refl, ap, [], ◌∷◌, length}
use xui_agent.Spool.Bytes.{Bytes}
use xui_agent.Xray.Digits.{to_lower, to_lower_byte}
use xui_agent.Xray.Disk.{Request}
use xui_agent.Xray.Validate.{is_space, trim_left, trim_right, clean_digest, clean_request}

lower-is_space : (c : ℕ) → is_space (to_lower_byte c) ≡ is_space c
unfolding is_space to_lower_byte
lower-is_space c = ground arith

lower-lower : (c : ℕ) → to_lower_byte (to_lower_byte c) ≡ to_lower_byte c
unfolding to_lower_byte
lower-lower c = ground arith

to_lower-to_lower : (xs : Bytes) → to_lower (to_lower xs) ≡ to_lower xs
unfolding to_lower
to_lower-to_lower [] = refl
to_lower-to_lower (c ∷ xs) = ground (arith, lower-lower c, to_lower-to_lower xs)

length-to_lower : (xs : Bytes) → length (to_lower xs) ≡ length xs
unfolding to_lower
length-to_lower [] = refl
length-to_lower (c ∷ xs) = ground (arith, length-to_lower xs)

trim_left-to_lower : (xs : Bytes) → trim_left (to_lower xs) ≡ to_lower (trim_left xs)
unfolding to_lower trim_left
trim_left-to_lower [] = refl
trim_left-to_lower (c ∷ xs) = ground (arith, lower-is_space c, trim_left-to_lower xs)

trim_right-to_lower : (xs : Bytes) → trim_right (to_lower xs) ≡ to_lower (trim_right xs)
unfolding to_lower trim_right
trim_right-to_lower [] = refl
trim_right-to_lower (c ∷ xs) =
    ground (arith, lower-is_space c, trim_right-to_lower xs, length-to_lower (trim_right xs))

trim_left-trim_left : (xs : Bytes) → trim_left (trim_left xs) ≡ trim_left xs
unfolding trim_left
trim_left-trim_left [] = refl
trim_left-trim_left (c ∷ xs) = ground (arith, trim_left-trim_left xs)

trim_right-trim_right : (xs : Bytes) → trim_right (trim_right xs) ≡ trim_right xs
unfolding trim_right
trim_right-trim_right [] = refl
trim_right-trim_right (c ∷ xs) = ground (arith, trim_right-trim_right xs)

trim_right-trim_left : (xs : Bytes) → trim_right xs ≡ xs → trim_right (trim_left xs) ≡ trim_left xs
unfolding trim_left trim_right
trim_right-trim_left [] h = refl
trim_right-trim_left (c ∷ xs) h = ground (arith, trim_right-trim_left xs)

-- Trimming both ends and lowering the case is done after one time.
pub clean_digest-clean_digest : (d : Bytes) → clean_digest (clean_digest d) ≡ clean_digest d
unfolding clean_digest
clean_digest-clean_digest d =
    let t = trim_left (trim_right d) in
    let right : trim_right t ≡ t = trim_right-trim_left (trim_right d) (trim_right-trim_right d) in
    rw (trim_right-to_lower t, right, trim_left-to_lower t, trim_left-trim_left (trim_right d))
      (to_lower-to_lower t)

pub clean_request-clean_request : (q : Request) → clean_request (clean_request q) ≡ clean_request q
unfolding clean_request
clean_request-clean_request q =
    ap (λ d. record q { config_digest = d }) (clean_digest-clean_digest q.config_digest)
