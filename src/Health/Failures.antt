-- ===== src/Health/Failures.antt =====
-- MarkFailure and MarkSuccess (internal/web/account_health.go).
use m365_copilot2api_docker.Base.{
  ℕ, ◌+◌, ◌*◌, String, Bool, true, false, Option, none, some, ◌&&◌, ◌||◌, ltb, ◌==◌, not, str_eq,
  if◌then◌else◌, or_zero, ℤ, pos, is_zero, add_duration, second, minute,
}
use m365_copilot2api_docker.Dict.{Dict, get, put, remove}
use m365_copilot2api_docker.Upstream.{
  Failure, metering_throttled, HttpError, DialError, Category, quota_429, overload_503,
  auth_expired_401, forbidden_403, retryable_422, user_banned, user_throttled, insufficient_tokens,
  socks5, dns, tcp, tls, ws_handshake, ws_read_timeout, upstream_structured, client_canceled,
  global_unavailable, cooldown_for, retry_after_seconds,
}
use m365_copilot2api_docker.Circuit.{Circuit, classify, record_result}
use m365_copilot2api_docker.Health.{Reason, code, banned, throttled, Health, holds}

-- h.cooldown[accountID] = time.Now().Add(d)
abbrev park : String → ℕ → ℤ → Health → Health
park id now d h = record h { cooldown = put h.cooldown id (add_duration now d) }

-- h.authFail[accountID] = true; h.authFailReason[accountID] = r
abbrev refuse : String → Reason → Health → Health
refuse id r h = record h {
  auth_fail = put h.auth_fail id true;
  auth_fail_reason = put h.auth_fail_reason id r;
}

-- delete(h.authFail, accountID); delete(h.authFailReason, accountID)
abbrev admit : String → Health → Health
admit id h = record h {
  auth_fail = remove h.auth_fail id;
  auth_fail_reason = remove h.auth_fail_reason id;
}

abbrev unlimit : String → Health → Health
unlimit id h = record h { limited = remove h.limited id }

abbrev limit : String → Health → Health
limit id h = record h { limited = put h.limited id true }

reason_401 : Option HttpError → Option DialError → Reason
reason_401 (some e) d = code e.status
reason_401 none (some d) = if d.status == 0 then code 401 else code d.status
reason_401 none none = code 401

reason_403 : Option HttpError → Option DialError → Reason
reason_403 (some e) d = code e.status
reason_403 none (some d) = if d.status == 0 then code 403 else code d.status
reason_403 none none = code 403

-- The two early returns of the FORBIDDEN_403 case.
pub is_designer : Option HttpError → Option DialError → Bool
is_designer (some e) (some d) =
    str_eq e.error_code "ErrorDisallowedAADUser" || str_eq d.kind "DESIGNER_DISABLED"
is_designer (some e) none = str_eq e.error_code "ErrorDisallowedAADUser"
is_designer none (some d) = str_eq d.kind "DESIGNER_DISABLED"
is_designer none none = false

fail_quota : String → ℕ → Failure → Health → Health
fail_quota id now e h =
    let h1 = limit id (admit id h) in
    let retry = retry_after_seconds e in
    let attempt = or_zero 0 (get h1.quota_attempts id) + 1 in
    if e.is metering_throttled && is_zero retry
    then park id now (pos (15 * minute)) (record h1 { quota_attempts = put h1.quota_attempts id 0 })
    else park id now (cooldown_for quota_429 retry attempt)
        (record h1 { quota_attempts = put h1.quota_attempts id attempt })

-- The default case: the caller's window, at most 30 seconds.
fail_default : String → ℕ → ℕ → Health → Health
fail_default id now window h =
    park id now (pos (if ltb (30 * second) window then 30 * second else window)) (admit id h)

-- The switch of MarkFailure on the category. CLIENT_CANCELED and GLOBAL_UNAVAILABLE do not reach it.
pub fail_as : Category → String → ℕ → Failure → ℕ → Health → Health
unfolding reason_401 reason_403 fail_quota fail_default
fail_as auth_expired_401 id now e window h =
    refuse id (reason_401 e.as_http e.as_dial)
      (unlimit id (park id now (cooldown_for auth_expired_401 (pos 0) 1) h))
fail_as forbidden_403 id now e window h =
    if is_designer e.as_http e.as_dial
    then h
    else refuse id (reason_403 e.as_http e.as_dial)
        (unlimit id (park id now (cooldown_for forbidden_403 (pos 0) 1) h))
fail_as quota_429 id now e window h = fail_quota id now e h
fail_as overload_503 id now e window h =
    park id now (cooldown_for overload_503 (retry_after_seconds e) 1) (admit id h)
fail_as socks5 id now e window h = park id now (cooldown_for socks5 (pos 0) 1) (admit id h)
fail_as dns id now e window h = park id now (cooldown_for dns (pos 0) 1) (admit id h)
fail_as tcp id now e window h = park id now (cooldown_for tcp (pos 0) 1) (admit id h)
fail_as tls id now e window h = park id now (cooldown_for tls (pos 0) 1) (admit id h)
fail_as ws_handshake id now e window h =
    park id now (cooldown_for ws_handshake (pos 0) 1) (admit id h)
fail_as ws_read_timeout id now e window h =
    park id now (cooldown_for ws_read_timeout (pos 0) 1) (admit id h)
fail_as upstream_structured id now e window h =
    park id now (cooldown_for upstream_structured (pos 0) 1) h
fail_as user_banned id now e window h =
    park id now (cooldown_for user_banned (pos 0) 1) (refuse id banned h)
fail_as user_throttled id now e window h =
    park id now (cooldown_for user_throttled (pos 0) 1) (refuse id throttled h)
fail_as insufficient_tokens id now e window h =
    park id now (cooldown_for insufficient_tokens (pos 0) 1) (limit id (admit id h))
fail_as retryable_422 id now e window h =
    park id now (cooldown_for retryable_422 (pos 0) 1) (admit id h)
fail_as _ id now e window h = fail_default id now window h

-- What MarkFailure does to the account once the category is known; 0 stands for every window that
-- is not positive.
unfoldable pub fail : Category → String → ℕ → Failure → ℕ → Health → Health
unfolding fail_as
fail client_canceled id now e window h = h
fail global_unavailable id now e window h =
    park id now (cooldown_for global_unavailable (pos 0) 1) h
fail cat id now e window h = fail_as cat id now e (if window == 0 then 60 * second else window) h

-- MarkFailure: the error is classified, recorded in the circuit (which classifies it again), and
-- counted against the account.
unfoldable pub mark_failure : String → ℕ → Failure → ℕ → Health × Circuit → Health × Circuit
unfolding fail
mark_failure id now e window (h, c) =
    let (cat, c') = classify now e c in (fail cat id now e window h, record_result now (some e) c')

-- The rest of a deadline: kept while it lies ahead.
keep_ahead : String → ℕ → Dict ℕ → Dict ℕ
keep_ahead id now d = elim (get d id) [
  | none ↦ d
  | some t ↦ if not (t == 0) && ltb now t then put d id t else remove d id
]

restore_image_limit : String → ℕ → Bool → ℕ → Health → Health
restore_image_limit id now was until h =
    if was && ltb now until
    then record h {
      image_limited = put h.image_limited id true;
      image_limit_until = put h.image_limit_until id until;
      cooldown = put h.cooldown id until;
    }
    else record h {
      image_limited = remove h.image_limited id;
      image_limit_until = remove h.image_limit_until id;
    }

-- MarkSuccess
unfoldable pub mark_success : String → ℕ → Health × Circuit → Health × Circuit
unfolding keep_ahead restore_image_limit
mark_success id now (h, c) =
    let cleared = record h {
      cooldown = remove h.cooldown id;
      auth_fail = remove h.auth_fail id;
      limited = remove h.limited id;
      auth_fail_reason = remove h.auth_fail_reason id;
      quota_attempts = remove h.quota_attempts id;
    } in
    let restored =
      restore_image_limit id now (holds h.image_limited id) (or_zero 0 (get h.image_limit_until id))
        cleared in
    (
      record restored {
        image_gen_cooldown_until = keep_ahead id now h.image_gen_cooldown_until;
        image_gen_system_cooldown = keep_ahead id now h.image_gen_system_cooldown;
      },
      record_result now none c,
    )
