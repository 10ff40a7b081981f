-- ===== src/Release.antt =====
-- The release client, internal/release/client.go. A response and the outcome of a wait are what the
-- network does: they come from the arguments.
pub mod Retry
use xui_agent.Prelude.{
  ℕ, zero, suc, ◌+◌, ◌-◌, ◌*◌, ◌^◌, ◌≡◌, Bool, true, false, ◌&&◌, ◌||◌, not, Option, none, some,
  List, [], ◌∷◌, ◌++◌, length, take, ltb, leb, ◌==◌, if◌then◌else◌, Outcome, ok, err, ◌>>=◌, ◌>>◌,
  guard,
}
use xui_agent.Spool.Bytes.{Bytes, bytes_eq}
use xui_agent.Xray.Digits.{is_digit, all_bytes}

pub data ReleaseError : Type 0 where
  bad_source bad_version not_configured bad_url too_large waited exhausted : ReleaseError
  http_status : ℕ → ReleaseError
  network : ReleaseError

-- The parts of a parsed URL that the client looks at.
pub record Url : Type 0 where
  pub is_https : Bool
  pub is_http : Bool
  pub has_host : Bool
  pub has_user : Bool
  pub has_query : Bool
  pub has_fragment : Bool

abbrev pub token_byte : ℕ → Bool
token_byte c =
    (leb b'a' c && leb c b'z')
    || (leb b'A' c && leb c b'Z')
    || (leb b'0' c && leb c b'9')
    || c == b'.'
    || c == b'_'
    || c == b'-'

-- `validToken`. A byte outside ASCII belongs to a character that the loop refuses.
unfoldable pub valid_token : Bytes → Bool
valid_token value =
    not (
      bytes_eq value []
      || bytes_eq value (b'.' ∷ [])
      || bytes_eq value (b'.' ∷ b'.' ∷ [])
      || ltb 128 (length value))
    && all_bytes token_byte value

-- `strings.Split(value, "/")`
unfoldable pub split_slash : Bytes → Bytes × List Bytes
split_slash [] = ([], [])
split_slash (c ∷ cs) =
    let (part, rest) = split_slash cs in if c == b'/' then ([], part ∷ rest) else (c ∷ part, rest)

abbrev pub two_tokens : Bytes → List Bytes → Bool
two_tokens first (second ∷ []) = valid_token first && valid_token second
two_tokens first [] = false
two_tokens first (second ∷ third ∷ rest) = false

unfoldable pub valid_repository : Bytes → Bool
unfolding split_slash valid_token
valid_repository value = let (first, rest) = split_slash value in two_tokens first rest

abbrev pub slash : Bytes → Bytes
slash rest = b'/' ∷ rest

-- "releases", "latest" and "download"
abbrev pub releases_part : Bytes
releases_part = b'r' ∷ b'e' ∷ b'l' ∷ b'e' ∷ b'a' ∷ b's' ∷ b'e' ∷ b's' ∷ []

abbrev pub latest_part : Bytes
latest_part = b'l' ∷ b'a' ∷ b't' ∷ b'e' ∷ b's' ∷ b't' ∷ []

abbrev pub download_part : Bytes
download_part = b'd' ∷ b'o' ∷ b'w' ∷ b'n' ∷ b'l' ∷ b'o' ∷ b'a' ∷ b'd' ∷ []

-- `URL`
unfoldable pub url : Bytes → Bytes → Bytes → Bytes → Outcome ReleaseError Bytes
unfolding valid_repository valid_token
url base repository version asset =
    if not (valid_repository repository) || not (valid_token asset)
    then err bad_source
    else if bytes_eq version []
    then ok (
        base
        ++ slash (
            repository
            ++ slash
                (releases_part ++ slash (latest_part ++ slash (download_part ++ slash asset)))))
    else if not (valid_token version)
    then err bad_version
    else ok (
        base
        ++ slash (
            repository
            ++ slash (releases_part ++ slash (download_part ++ slash (version ++ slash asset)))))

-- `validateRedirectURL`
unfoldable pub valid_redirect : Bool → Url → Bool
valid_redirect allow_insecure u =
    not (not u.has_host || u.has_user || u.has_fragment)
    && (u.is_https || (allow_insecure && u.is_http))

unfoldable pub valid_initial : Bool → Url → Bool
unfolding valid_redirect
valid_initial allow_insecure u = valid_redirect allow_insecure u && not u.has_query

unfoldable pub retryable_status : ℕ → Bool
retryable_status status = status == 408 || status == 429 || (leb 500 status && leb status 599)

-- What a request comes to: no response, a status other than 200, or a body, behind which the
-- connection breaks or not. An error is one that `retryableRequestError` accepts, or is not.
pub data Response : Type 0 where
  no_response : Bool → Response
  status : ℕ → Response
  body : Bytes → Option Bool → Response

pub record Attempt : Type 0 where
  pub written : ℕ
  pub retryable : Bool
  pub error : Option ReleaseError
  pub destination : Bytes

-- Behind `io.Copy` of at most limit + 1 bytes: a break behind those is not seen.
unfoldable pub copied : ℕ → Bytes → Bytes → Option Bool → Attempt
copied limit destination bytes broken =
    let got = take (suc limit) bytes in
    if ltb limit (length bytes)
    then record {
      written = length got;
      retryable = false;
      error = some too_large;
      destination = destination ++ got;
    }
    else elim broken [
      | none ↦ record {
        written = length got;
        retryable = false;
        error = none;
        destination = destination ++ got;
      }
      | some again ↦ record {
        written = length got;
        retryable = again;
        error = some network;
        destination = destination ++ got;
      }
    ]

unfoldable pub download_attempt : ℕ → Bytes → Response → Attempt
unfolding copied retryable_status
download_attempt limit destination (no_response again) = record {
  written = 0;
  retryable = again;
  error = some network;
  destination = destination;
}
download_attempt limit destination (status code) = record {
  written = 0;
  retryable = retryable_status code;
  error = some (http_status code);
  destination = destination;
}
download_attempt limit destination (body bytes broken) = copied limit destination bytes broken

abbrev pub max_download_attempts : ℕ
max_download_attempts = 3

-- The number of bytes of the last attempt, an error, and what the destination has then.
pub record Download : Type 0 where
  pub written : ℕ
  pub error : Option ReleaseError
  pub destination : Bytes

-- What the loop knows: the responses by attempt, whether the wait behind an attempt succeeds, the
-- size limit, and whether the destination is emptied before each attempt.
pub record Setting : Type 0 where
  pub response : ℕ → Response
  pub waits : ℕ → Bool
  pub limit : ℕ
  pub retry_after_write : Bool

abbrev pub given_up : Attempt → ReleaseError → Download
given_up a e = record { written = a.written; error = some e; destination = a.destination }

-- Behind an attempt: its success or its error, or what the next attempts come to.
abbrev pub behind : Setting → ℕ → Attempt → Option ReleaseError → Download → Download
behind t attempt a none again = record {
  written = a.written;
  error = none;
  destination = a.destination;
}
behind t attempt a (some e) again =
    if suc attempt == max_download_attempts
      || not a.retryable
      || (ltb 0 a.written && not t.retry_after_write)
    then given_up a e
    else if t.waits attempt
    then again
    else given_up a waited

-- `destination()`
abbrev pub start_of : Setting → Bytes → Bytes
start_of t destination = if t.retry_after_write then [] else destination

-- The loop of `downloadWithRetry`, with as many attempts left.
unfoldable pub download_from : Setting → ℕ → ℕ → Bytes → Download
unfolding download_attempt
download_from t zero attempt destination = record {
  written = 0;
  error = some exhausted;
  destination = destination;
}
download_from t (suc left) attempt destination =
    let a = download_attempt t.limit (start_of t destination) (t.response attempt) in
    behind t attempt a a.error (download_from t left (suc attempt) a.destination)

unfoldable pub download_with_retry : Setting → Bool → Option Url → Bytes → Download
unfolding download_from valid_initial
download_with_retry t allow_insecure parsed destination =
    let refuse : ReleaseError → Download =
      λ e. record { written = 0; error = some e; destination = destination } in
    if t.limit == 0 then refuse not_configured else elim parsed [
      | none ↦ refuse bad_url
      | some u ↦
          if valid_initial allow_insecure u
          then download_from t max_download_attempts 0 destination
          else refuse bad_url
    ]
