-- ===== src/Upstream.antt =====
-- The errors of upstream calls, their categories and the cooldown of each category
-- (internal/web/account_health.go, internal/web/errors.go, and DialError of
-- internal/chathub/client.go).
pub mod Classify
pub mod Cooldown
pub mod Tests
use m365_copilot2api_docker.Base.{
  ℕ, ◌-◌, ◌*◌, ◌^◌, String, Bool, Option, none, some, ◌||◌, ltb, leb, ◌==◌, str_eq, if◌then◌else◌,
  ℤ, pos, negsuc, signed64, pos_part, second, minute, hour,
}

-- The error values that the code asks for with `errors.Is`.
pub data Sentinel : Type 0 where
  canceled rate_limit_notice metering_throttled empty_completion offensive_content image_limit :
      Sentinel

pub record HttpError : Type 0 where
  pub status : ℕ
  pub retry_after : ℤ  -- seconds
  pub body : String  -- as `strings.ToLower` gives it, the only form in which it is read
  pub error_code : String

pub record DialError : Type 0 where
  pub status : ℕ
  pub retry_after : ℤ
  pub kind : String
  pub text : String  -- `strings.ToLower(e.Error())`

-- What the code observes of a Go `error` that is not nil: `errors.Is` for the sentinels,
-- `errors.As` for the two error types, and the text of the whole chain in lower case.
pub record Failure : Type 0 where
  pub is : Sentinel → Bool
  pub as_http : Option HttpError
  pub as_dial : Option DialError
  pub text : String

-- `ErrorCategory` is a string type: its constants, and any other string.
pub data Category : Type 0 where
  quota_429 overload_503 auth_expired_401 forbidden_403 retryable_422 user_banned user_throttled
        insufficient_tokens designer_disabled socks5 dns tcp tls ws_handshake ws_read_timeout
        upstream_structured client_canceled global_unavailable unknown :
      Category
  other : String → Category

-- The cases of `switch dialErr.Kind`.
unfoldable pub kind_category : String → Option Category
kind_category kind =
    if str_eq kind "QUOTA_429"
    then some quota_429
    else if str_eq kind "OVERLOAD_503"
    then some overload_503
    else if str_eq kind "AUTH_EXPIRED_401"
    then some auth_expired_401
    else if str_eq kind "FORBIDDEN_403"
    then some forbidden_403
    else if str_eq kind "SOCKS5"
    then some socks5
    else if str_eq kind "DNS"
    then some dns
    else if str_eq kind "TCP"
    then some tcp
    else if str_eq kind "TLS"
    then some tls
    else if str_eq kind "WS_HANDSHAKE"
    then some ws_handshake
    else if str_eq kind "WS_READ_TIMEOUT"
    then some ws_read_timeout
    else if str_eq kind "CLIENT_CANCELED"
    then some client_canceled
    else none

-- The conversion `ErrorCategory(kind)`, for a kind that the switch above has let through: the
-- constants that it does not name, or any other string.
unfoldable pub of_kind : String → Category
of_kind kind =
    if str_eq kind "RETRYABLE_422"
    then retryable_422
    else if str_eq kind "USER_BANNED"
    then user_banned
    else if str_eq kind "USER_THROTTLED"
    then user_throttled
    else if str_eq kind "INSUFFICIENT_TOKENS"
    then insufficient_tokens
    else if str_eq kind "DESIGNER_DISABLED"
    then designer_disabled
    else if str_eq kind "UPSTREAM_STRUCTURED"
    then upstream_structured
    else if str_eq kind "GLOBAL_UNAVAILABLE"
    then global_unavailable
    else if str_eq kind "UNKNOWN"
    then unknown
    else other kind

-- ClassifyErrorCode
unfoldable pub classify_error_code : String → Category
classify_error_code code =
    if str_eq code "ErrorUserBanned"
    then user_banned
    else if str_eq code "ErrorUserThrottled"
    then user_throttled
    else if str_eq code "InsufficientTokens"
    then insufficient_tokens
    else if str_eq code "ErrorDisallowedAADUser"
    then designer_disabled
    else unknown

-- The status switches of ClassifyError.
unfoldable pub status_category : ℕ → Option Category
status_category status =
    if status == 429
    then some quota_429
    else if status == 503
    then some overload_503
    else if status == 401
    then some auth_expired_401
    else if status == 403
    then some forbidden_403
    else if status == 422
    then some retryable_422
    else none

-- RetryAfterSeconds
pub retry_after_of : Option HttpError → Option DialError → ℤ
retry_after_of (some h) d = h.retry_after
retry_after_of none (some d) = d.retry_after
retry_after_of none none = pos 0

unfoldable pub retry_after_seconds : Failure → ℤ
unfolding retry_after_of
retry_after_seconds e = retry_after_of e.as_http e.as_dial

-- `time.Duration(retryAfter) * time.Second` is an int64 product.
pub retry_cooldown : ℕ → ℤ
retry_cooldown retry_after = elim (signed64 (retry_after * second)) [
  | pos d ↦ if ltb (30 * minute) d then pos (30 * minute) else pos d
  | negsuc d ↦ negsuc d
]

-- The exponential part; its product is at most 30 * 2^6 seconds, so it never wraps.
pub attempt_cooldown : ℕ → ℕ
attempt_cooldown attempt =
    let a = if ltb attempt 1 then 1 else attempt in
    let b = if ltb 7 a then 7 else a in
    let d = 30 * second * 2 ^ (b - 1) in if ltb (30 * minute) d || leb d 0 then 30 * minute else d

-- CooldownForCategory, in nanoseconds. `attempt` is never negative where the code calls it.
unfoldable pub cooldown_for : Category → ℤ → ℕ → ℤ
unfolding retry_cooldown attempt_cooldown
cooldown_for quota_429 retry_after attempt =
    if ltb 0 (pos_part retry_after)
    then retry_cooldown (pos_part retry_after)
    else pos (attempt_cooldown attempt)
cooldown_for overload_503 retry_after attempt = pos (15 * second)
cooldown_for auth_expired_401 retry_after attempt = pos (2 * minute)
cooldown_for forbidden_403 retry_after attempt = pos (24 * hour)
cooldown_for user_banned retry_after attempt = pos (365 * 24 * hour)
cooldown_for user_throttled retry_after attempt = pos (1 * hour)
cooldown_for insufficient_tokens retry_after attempt = pos (24 * hour)
cooldown_for designer_disabled retry_after attempt = pos 0
cooldown_for retryable_422 retry_after attempt = pos (5 * second)
cooldown_for socks5 retry_after attempt = pos (30 * second)
cooldown_for dns retry_after attempt = pos (30 * second)
cooldown_for tcp retry_after attempt = pos (15 * second)
cooldown_for tls retry_after attempt = pos (30 * second)
cooldown_for ws_handshake retry_after attempt = pos (15 * second)
cooldown_for ws_read_timeout retry_after attempt = pos (30 * second)
cooldown_for upstream_structured retry_after attempt = pos (10 * second)
cooldown_for client_canceled retry_after attempt = pos 0
cooldown_for global_unavailable retry_after attempt = pos (15 * second)
cooldown_for unknown retry_after attempt = pos (15 * second)
cooldown_for (other s) retry_after attempt = pos (15 * second)
