-- ===== src/Upstream/Cooldown.antt =====
-- How long CooldownForCategory parks an account (internal/web/account_health.go).
use native.Mathlib.Nat.{pow-le-pow_right}
use m365_copilot2api_docker.Base.{
  ℕ, zero, suc, ◌-◌, ◌*◌, ◌^◌, ◌≤◌, ◌<◌, min, ◌≡◌, refl, arith, ℤ, pos, negsuc, pos_part, second,
  minute, day,
}
use m365_copilot2api_docker.Upstream.{
  Category, quota_429, retry_cooldown, attempt_cooldown, cooldown_for, other,
}

small : (k : ℕ) → k < 7 → attempt_cooldown (suc k) ≡ min (30 * second * 2 ^ k) (30 * minute)
unfolding attempt_cooldown
small zero h = refl
small (suc zero) h = refl
small (suc (suc zero)) h = refl
small (suc (suc (suc zero))) h = refl
small (suc (suc (suc (suc zero)))) h = refl
small (suc (suc (suc (suc (suc zero))))) h = refl
small (suc (suc (suc (suc (suc (suc zero)))))) h = refl
small (suc (suc (suc (suc (suc (suc (suc k))))))) h = absurd (omega arith)

large : (k : ℕ) → 7 ≤ k → attempt_cooldown (suc k) ≡ min (30 * second * 2 ^ k) (30 * minute)
unfolding attempt_cooldown
large k h = let p : 2 ^ 7 ≤ 2 ^ k = pow-le-pow_right (omega arith) h in ground (arith, p)

-- Without a Retry-After the cooldown of the n-th quota failure in a row doubles from 30 seconds and
-- stops at 30 minutes.
pub backoff_doubles :
    (n : ℕ) → cooldown_for quota_429 (pos 0) (suc n) ≡ pos (min (30 * second * 2 ^ n) (30 * minute))
unfolding cooldown_for
backoff_doubles n = ground (arith, small n, large n)

-- A Retry-After of at most 9223372036 seconds is honoured up to 30 minutes.
pub retry_after_honoured :
    (r attempt : ℕ)
    → 0 < r
    → r ≤ 9_223_372_036
    → cooldown_for quota_429 (pos r) attempt ≡ pos (min (r * second) (30 * minute))
unfolding cooldown_for
retry_after_honoured r attempt lo hi = ground arith

-- A larger Retry-After wraps the duration: from 9223372037 seconds to twice that the cooldown ends
-- before it begins.
pub retry_after_wraps :
    (r attempt : ℕ)
    → 9_223_372_037 ≤ r
    → r ≤ 18_446_744_073
    → cooldown_for quota_429 (pos r) attempt ≡ negsuc (2 ^ 64 - r * second - 1)
unfolding cooldown_for
retry_after_wraps r attempt lo hi = ground arith

-- No cooldown is longer than a year.
abbrev pub AtMostYear : ℤ → Type 0
AtMostYear (pos d) = d ≤ 365 * day
AtMostYear (negsuc d) = Unit

attempt_bounded : (a : ℕ) → attempt_cooldown a ≤ 30 * minute
unfolding attempt_cooldown
attempt_bounded a = ground arith

retry_bounded : (r : ℕ) → AtMostYear (retry_cooldown r)
unfolding retry_cooldown
retry_bounded r = ground arith

-- Whatever the category, the Retry-After and the attempt, a cooldown is at most a year.
pub cooldown_bounded : (c : Category) (r : ℤ) (a : ℕ) → AtMostYear (cooldown_for c r a)
unfolding cooldown_for
cooldown_bounded quota_429 r a = ground (arith, retry_bounded (pos_part r), attempt_bounded a)
cooldown_bounded (other s) r a = omega arith
cooldown_bounded _ r a = omega arith
