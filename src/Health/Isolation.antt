-- ===== src/Health/Isolation.antt =====
-- What an event at one account leaves as it is at every other (internal/web/account_health.go).
use m365_copilot2api_docker.Base.{
  is_zero, ℕ, ◌≡◌, ◌≢◌, refl, String, false, ◌&&◌, arith, str_eq, eq_iff, inl, inr, Bool-cases,
}
use m365_copilot2api_docker.Dict.{get, get-put, get-remove}
use m365_copilot2api_docker.Upstream.{
  Failure, metering_throttled, Category, quota_429, forbidden_403, client_canceled,
  retry_after_seconds,
}
use m365_copilot2api_docker.Circuit.{Circuit, classify}
use m365_copilot2api_docker.Health.{Health, cleanup, mark_call}
use m365_copilot2api_docker.Health.Failures.{mark_failure, mark_success, fail, is_designer}

-- Two states agree on all that concerns one account.
pub record SameAccount (j : String) (a b : Health) : Type 0 where
  pub cooldown : get a.cooldown j ≡ get b.cooldown j
  pub auth_fail : get a.auth_fail j ≡ get b.auth_fail j
  pub limited : get a.limited j ≡ get b.limited j
  pub calls : get a.calls j ≡ get b.calls j
  pub image_limited : get a.image_limited j ≡ get b.image_limited j
  pub image_limit_until : get a.image_limit_until j ≡ get b.image_limit_until j
  pub auth_fail_reason : get a.auth_fail_reason j ≡ get b.auth_fail_reason j
  pub quota_attempts : get a.quota_attempts j ≡ get b.quota_attempts j

SameAccount-refl : (j : String) (h : Health) → SameAccount j h h
SameAccount-refl j h = record {
  cooldown = refl;
  auth_fail = refl;
  limited = refl;
  calls = refl;
  image_limited = refl;
  image_limit_until = refl;
  auth_fail_reason = refl;
  quota_attempts = refl;
}

module _ (id j : String) (other : str_eq id j ≡ false) where
  fail-SameAccount :
      (cat : Category) (now : ℕ) (e : Failure) (window : ℕ) (h : Health)
      → SameAccount j (fail cat id now e window h) h
  fail-SameAccount client_canceled now e window h = unfold fail in SameAccount-refl j h
  fail-SameAccount quota_429 now e window h =
      elim (Bool-cases (e.is metering_throttled && is_zero (retry_after_seconds e))) [
        | inl t ↦ unfold fail in rw t (grind (arith, get-put, get-remove))
        | inr t ↦ unfold fail in rw t (grind (arith, get-put, get-remove))
      ]
  fail-SameAccount forbidden_403 now e window h =
      elim (Bool-cases (is_designer e.as_http e.as_dial)) [
        | inl t ↦ unfold fail in rw t (SameAccount-refl j h)
        | inr t ↦ unfold fail in rw t (grind (arith, get-put, get-remove))
      ]
  fail-SameAccount _ now e window h = unfold fail in grind (arith, get-put, get-remove)

module _ (id j : String) (other : str_eq id j ≡ false) where
  success-SameAccount :
      (now : ℕ) (h : Health) (c : Circuit) → SameAccount j (mark_success id now (h, c)).0 h
  unfolding mark_success
  success-SameAccount now h c = grind (arith, get-put, get-remove)

  call-SameAccount : (now : ℕ) (h : Health) → SameAccount j (mark_call id now h) h
  unfolding mark_call cleanup
  call-SameAccount now h = grind (arith, get-put, get-remove)

-- A call, a failure or a success of one account changes nothing that concerns another account.
pub accounts_isolated :
    (id j : String) (now : ℕ) (e : Failure) (window : ℕ) (h : Health) (c : Circuit)
    → id ≢ j
    → SameAccount j (mark_call id now h) h
      × SameAccount j (mark_failure id now e window (h, c)).0 h
      × SameAccount j (mark_success id now (h, c)).0 h
accounts_isolated id j now e window h c d =
    let other : str_eq id j ≡ false = ground (arith, eq_iff id j) in
    (
      call-SameAccount id j other now h,
      unfold mark_failure in fail-SameAccount id j other (classify now e c).0 now e window h,
      success-SameAccount id j other now h c,
    )
