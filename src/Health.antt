-- ===== src/Health.antt =====
-- The health of accounts (accountHealth, internal/web/account_health.go). A Go map is a `Dict`; the
-- methods that also use the global circuit take it beside the receiver. `lastThrottling` is left out.
pub mod Failures
pub mod Queries
pub mod Recovery
pub mod Parking
pub mod Isolation
pub mod Surprises
pub mod Settled
pub mod Tests
use m365_copilot2api_docker.Base.{
  ℕ, ◌+◌, ◌*◌, ◌%◌, ◌^◌, String, Bool, true, false, [], Option, none, some, ◌&&◌, ltb, ◌==◌, str_eq,
  if◌then◌else◌, or_zero, ℤ, pos, is_zero, add_duration, second, minute, hour,
}
use m365_copilot2api_docker.Dict
use m365_copilot2api_docker.Dict.{Dict, get, put, remove}
use m365_copilot2api_docker.Upstream.{
  Failure, metering_throttled, HttpError, DialError, Category, quota_429, overload_503,
  auth_expired_401, forbidden_403, retryable_422, user_banned, user_throttled, insufficient_tokens,
  socks5, dns, tcp, tls, ws_handshake, ws_read_timeout, upstream_structured, client_canceled,
  global_unavailable, cooldown_for, retry_after_seconds,
}
use m365_copilot2api_docker.Circuit.{Circuit, closed, is_open, classify, record_result}

-- The texts of `authFailReason`; `code n` is `fmt.Sprintf("%d", n)`.
pub data Reason : Type 0 where
  code : ℕ → Reason
  banned throttled : Reason

pub record Health : Type 0 where
  pub cooldown : Dict ℕ
  pub auth_fail : Dict Bool
  pub limited : Dict Bool
  pub calls : Dict ℕ
  pub image_limited : Dict Bool
  pub image_limit_until : Dict ℕ
  pub image_gen_cooldown_until : Dict ℕ
  pub image_gen_system_cooldown : Dict ℕ
  pub last_meter_error : Dict String
  pub last_meter_access : Dict Bool
  pub remaining_allowance : Dict (Dict ℤ)
  pub auth_fail_reason : Dict Reason
  pub quota_attempts : Dict ℕ

-- newAccountHealth, and ClearAllCooldowns, which both reset the circuit too.
abbrev pub fresh : Health × Circuit
fresh = (
  record {
    cooldown = [];
    auth_fail = [];
    limited = [];
    calls = [];
    image_limited = [];
    image_limit_until = [];
    image_gen_cooldown_until = [];
    image_gen_system_cooldown = [];
    last_meter_error = [];
    last_meter_access = [];
    remaining_allowance = [];
    auth_fail_reason = [];
    quota_attempts = [];
  },
  closed,
)

-- m[id] of a `map[string]bool`
abbrev pub holds : Dict Bool → String → Bool
holds d id = or_zero false (get d id)

drop_past : ℕ → String → Dict ℕ → Dict ℕ
drop_past now id d = elim (get d id) [ none ↦ d | some t ↦ if ltb t now then remove d id else d ]

forget_cooldown : String → ℕ → Health → Health
unfolding drop_past
forget_cooldown id now h = record h {
  cooldown = remove h.cooldown id;
  limited = remove h.limited id;
  auth_fail = remove h.auth_fail id;
  auth_fail_reason = remove h.auth_fail_reason id;
  image_limited = remove h.image_limited id;
  calls = if holds h.limited id then remove h.calls id else h.calls;
  quota_attempts = remove h.quota_attempts id;
  image_gen_cooldown_until = drop_past now id h.image_gen_cooldown_until;
  image_gen_system_cooldown = drop_past now id h.image_gen_system_cooldown;
}

-- cleanupExpiredCooldownLocked
unfoldable pub cleanup : String → ℕ → Health → Health
unfolding forget_cooldown
cleanup id now h = elim (get h.cooldown id) [
  | none ↦ h
  | some until ↦ if ltb now until then h else forget_cooldown id now h
]

-- MarkCall; the count is a uint64.
pub mark_call : String → ℕ → Health → Health
mark_call id now h =
    if str_eq id ""
    then h
    else let h' = cleanup id now h in
      record h' { calls = put h'.calls id ((or_zero 0 (get h'.calls id) + 1) % 2 ^ 64) }

-- MarkImageLimited
pub mark_image_limited : String → ℕ → Health → Health
mark_image_limited id now h = if str_eq id "" then h else record h {
  image_limited = put h.image_limited id true;
  image_limit_until = put h.image_limit_until id (now + 24 * hour);
  cooldown = put h.cooldown id (now + 24 * hour);
}
