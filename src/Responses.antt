-- ===== src/Responses.antt =====
-- The HTTP status that a client sees for a failed upstream call (internal/web/errors.go), and the
-- tests that it asks (internal/web/account_health.go).
pub mod Agreement
mod Tests
use m365_copilot2api_docker.Base.{
  ℕ, String, Bool, true, false, Option, none, some, ◌||◌, ◌==◌, str_eq, if◌then◌else◌, contains,
}
use m365_copilot2api_docker.Upstream.{
  rate_limit_notice, metering_throttled, offensive_content, image_limit, HttpError, DialError,
  Failure, Category, quota_429, overload_503, retryable_422, user_banned, user_throttled,
  insufficient_tokens, socks5, dns, tcp, tls, ws_handshake, ws_read_timeout, upstream_structured,
  global_unavailable,
}
use m365_copilot2api_docker.Circuit.{Circuit, classify}

pub http_limited : Option HttpError → Bool
http_limited none = false
http_limited (some h) =
    h.status == 429
    || h.status == 503
    || contains h.body "limited"
    || contains h.body "图像生成功能没有成功"
    || contains h.body "metererror"

pub dial_limited : Option DialError → Bool
dial_limited none = false
dial_limited (some d) =
    d.status == 429 || d.status == 503 || str_eq d.kind "QUOTA_429" || str_eq d.kind "OVERLOAD_503"

-- IsRateLimited, for an error that is not nil
pub is_rate_limited : Failure → Bool
unfolding http_limited dial_limited
is_rate_limited e =
    e.is rate_limit_notice
    || e.is metering_throttled
    || http_limited e.as_http
    || dial_limited e.as_dial

pub dial_refused : Option DialError → Bool
dial_refused none = false
dial_refused (some d) =
    d.status == 401
    || d.status == 403
    || str_eq d.kind "AUTH_EXPIRED_401"
    || str_eq d.kind "FORBIDDEN_403"

pub auth_refused : Option HttpError → Option DialError → Bool
unfolding dial_refused
auth_refused none d = dial_refused d
auth_refused (some h) d = h.status == 401 || h.status == 403

-- IsAuthFailure
pub is_auth_failure : Failure → Bool
unfolding auth_refused
is_auth_failure e = auth_refused e.as_http e.as_dial

abbrev pub category_status : Category → ℕ
category_status user_banned = 403
category_status user_throttled = 429
category_status insufficient_tokens = 429
category_status retryable_422 = 422
category_status _ = 502

-- upstreamStatus
pub upstream_status : ℕ → Failure → Circuit → ℕ
upstream_status now e c =
    if e.is offensive_content
    then 503
    else if e.is image_limit
    then 429
    else if is_rate_limited e
    then 429
    else if is_auth_failure e
    then 401
    else category_status (classify now e c).0

-- The switch of IsRetryable
abbrev pub retryable : Category → Bool
retryable quota_429 = true
retryable overload_503 = true
retryable retryable_422 = true
retryable socks5 = true
retryable dns = true
retryable tcp = true
retryable tls = true
retryable ws_handshake = true
retryable ws_read_timeout = true
retryable upstream_structured = true
retryable global_unavailable = true
retryable _ = false

-- IsRetryable
pub is_retryable : ℕ → Failure → Circuit → Bool
is_retryable now e c = retryable (classify now e c).0
