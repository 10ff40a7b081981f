-- ===== src/Release/Retry.antt =====
-- `downloadWithRetry`: what the destination holds when it is done.
use xui_agent.Prelude.{
  ℕ, zero, suc, arith, ◌+◌, ◌≤◌, ◌<◌, ◌≡◌, inl, inr, refl, sym, ap, subst, ◌∙◌, Bool, true, false,
  ◌&&◌, ◌||◌, not, Option, none, some, [], ◌∷◌, ◌++◌, length, take, ltb, ◌==◌, if◌then◌else◌,
  Bool-cases,
}
use mathlib.Core.List.{append-nil}
use xui_agent.Spool.Bytes.{Bytes}
use xui_agent.Release.{
  ReleaseError, waited, Response, no_response, status, body, Attempt, copied, download_attempt,
  max_download_attempts, Download, Setting, behind, start_of, download_from,
}

take-all : (n : ℕ) (xs : Bytes) → length xs ≤ n → take n xs ≡ xs
take-all zero [] h = refl
take-all zero (x ∷ xs) h = absurd (omega arith)
take-all (suc n) [] h = refl
take-all (suc n) (x ∷ xs) h = ap (λ r. x ∷ r) (take-all n xs (omega arith))

empty-length : (xs : Bytes) → length xs ≡ 0 → xs ≡ []
empty-length [] h = refl
empty-length (x ∷ xs) h = absurd (omega arith)

-- The part of a response that an attempt writes when it fails: nothing of a response without a body, and of a
-- body at most one byte more than the limit.
pub data PartOf (limit : ℕ) : Response → Bytes → Type 0 where
  no_bytes : (again : Bool) → PartOf limit (no_response again) []
  refused : (code : ℕ) → PartOf limit (status code) []
  first_bytes :
      (bytes : Bytes) (broken : Option Bool)
      → PartOf limit (body bytes broken) (take (suc limit) bytes)

-- How an attempt ends: with the whole of a body within the limit, or with an error and a part.
pub data Attempted (limit : ℕ) (start : Bytes) (r : Response) (a : Attempt) : Type 0 where
  whole :
      (bytes : Bytes)
      → r ≡ body bytes none
      → length bytes ≤ limit
      → a.error ≡ none
      → a.written ≡ length bytes
      → a.destination ≡ start ++ bytes
      → Attempted limit start r a
  part :
      (e : ReleaseError) (bytes : Bytes)
      → a.error ≡ some e
      → a.written ≡ length bytes
      → PartOf limit r bytes
      → a.destination ≡ start ++ bytes
      → Attempted limit start r a

module _ (limit : ℕ) (start : Bytes) where
  copied-Attempted :
      (bytes : Bytes) (broken : Option Bool)
      → Attempted limit start (body bytes broken) (copied limit start bytes broken)
  unfolding copied
  copied-Attempted bytes none = elim (Bool-cases (ltb limit (length bytes))) [
    | inl e ↦ rw e (part _ (take (suc limit) bytes) refl refl (first_bytes bytes none) refl)
    | inr ne ↦ rw ne (
        let all = take-all (suc limit) bytes (ground (arith, ne)) in
        whole bytes refl (ground (arith, ne)) refl (ap length all) (ap (λ x. start ++ x) all))
  ]
  copied-Attempted bytes (some again) = elim (Bool-cases (ltb limit (length bytes))) [
    | inl e ↦ rw e (part _ (take (suc limit) bytes) refl refl (first_bytes bytes (some again)) refl)
    | inr ne ↦
        rw ne (part _ (take (suc limit) bytes) refl refl (first_bytes bytes (some again)) refl)
  ]

  download_attempt-Attempted :
      (r : Response) → Attempted limit start r (download_attempt limit start r)
  unfolding download_attempt
  download_attempt-Attempted (no_response again) =
      part _ [] refl refl (no_bytes again) (sym (append-nil start))
  download_attempt-Attempted (status code) =
      part _ [] refl refl (refused code) (sym (append-nil start))
  download_attempt-Attempted (body bytes broken) = copied-Attempted bytes broken

-- How a download ends: with the body of one attempt and nothing else behind what the destination
-- held, or with an error and the part that one attempt brought.
pub data Ended (t : Setting) (start : Bytes) (r : Download) : Type 0 where
  fetched :
      (attempt : ℕ) (bytes : Bytes)
      → attempt < max_download_attempts
      → t.response attempt ≡ body bytes none
      → length bytes ≤ t.limit
      → r.error ≡ none
      → r.written ≡ length bytes
      → r.destination ≡ start ++ bytes
      → Ended t start r
  broke :
      (e : ReleaseError) (attempt : ℕ) (bytes : Bytes)
      → attempt < max_download_attempts
      → PartOf t.limit (t.response attempt) bytes
      → r.error ≡ some e
      → r.written ≡ length bytes
      → r.destination ≡ start ++ bytes
      → Ended t start r

module _ (t : Setting) where
  -- An attempt is made again only from the same start.
  same_start :
      (destination bytes : Bytes) (a : Attempt)
      → a.written ≡ length bytes
      → a.destination ≡ start_of t destination ++ bytes
      → (ltb 0 a.written && not t.retry_after_write) ≡ false
      → start_of t a.destination ≡ start_of t destination
  same_start destination bytes a w d h = go t.retry_after_write d h
    where
      go :
          (b : Bool)
          → a.destination ≡ (if b then [] else destination) ++ bytes
          → (ltb 0 a.written && not b) ≡ false
          → (if b then [] else a.destination) ≡ (if b then [] else destination)
      go true d' h' = refl
      go false d' h' =
          d'
          ∙ ap (λ x. destination ++ x) (empty-length bytes (ground (arith, w, h')))
          ∙ append-nil destination

  behind-Ended :
      (attempt : ℕ) (destination : Bytes) (a : Attempt) (again : Download)
      → attempt < max_download_attempts
      → Attempted t.limit (start_of t destination) (t.response attempt) a
      → (suc attempt < max_download_attempts
          → start_of t a.destination ≡ start_of t destination
          → Ended t (start_of t destination) again)
      → Ended t (start_of t destination) (behind t attempt a a.error again)
  behind-Ended attempt destination a again fits (whole bytes r k e w d) ih =
      subst (λ o. Ended t (start_of t destination) (behind t attempt a o again)) (sym e)
        (fetched attempt bytes fits r k refl w d)
  behind-Ended attempt destination a again fits (part e bytes er w k d) ih =
      subst (λ o. Ended t (start_of t destination) (behind t attempt a o again)) (sym er)
        (elim (Bool-cases (
          suc attempt == max_download_attempts
          || not a.retryable
          || (ltb 0 a.written && not t.retry_after_write))) [
            | inl y ↦ rw y (broke e attempt bytes fits k refl w d)
            | inr go_on ↦ rw go_on (elim (Bool-cases (t.waits attempt)) [
              | inl y ↦ rw y (
                  ih (ground (arith, go_on))
                    (same_start destination bytes a w d (ground (arith, go_on))))
              | inr n ↦ rw n (broke waited attempt bytes fits k refl w d)
            ])
          ])

  download_from-Ended :
      (left attempt : ℕ) (destination : Bytes)
      → 0 < left
      → left + attempt ≡ max_download_attempts
      → Ended t (start_of t destination) (download_from t left attempt destination)
  unfolding download_from
  download_from-Ended zero attempt destination h e = absurd (omega arith)
  download_from-Ended (suc left) attempt destination h e =
      let a = download_attempt t.limit (start_of t destination) (t.response attempt) in
      behind-Ended attempt destination a (download_from t left (suc attempt) a.destination)
        (omega arith)
        (download_attempt-Attempted t.limit (start_of t destination) (t.response attempt))
        (λ more same.
          subst (λ x. Ended t x (download_from t left (suc attempt) a.destination)) same
            (download_from-Ended left (suc attempt) a.destination (omega arith) (omega arith)))

-- Whatever the three responses and the waits: a download that succeeds has put the complete body of
-- one response of at most the limit's size into the destination, behind what a destination that is
-- not emptied held, and counts its bytes; one that fails has put there the first bytes of one response,
-- at most one more than the limit, and counts them: none of another response is with them.
pub download-Ended :
    (t : Setting) (destination : Bytes)
    → Ended t (start_of t destination) (download_from t max_download_attempts 0 destination)
download-Ended t destination =
    download_from-Ended t max_download_attempts 0 destination (omega arith) (omega arith)
