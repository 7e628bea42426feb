-- ===== src/Health/Parking.antt =====
-- What a failure does to its account, and to no other (MarkFailure, internal/web/account_health.go).
use native.Mathlib.Nat.{one-le-pow}
use native.Mathlib.Numerals.{add-one}
use m365_copilot2api_docker.Base.{
  zero, suc, negsuc, ◌^◌, is_zero, ℕ, ◌+◌, ◌≤◌, ◌<◌, ◌≡◌, ◌⊎◌, refl, String, true, false, not, ◌&&◌,
  arith, or_zero, inl, inr, Bool, Bool-cases, pos_part, pos, ℤ, second, add_duration,
}
use m365_copilot2api_docker.Dict.{get, dict_laws}
use m365_copilot2api_docker.Upstream.{
  Failure, metering_throttled, Category, quota_429, forbidden_403, client_canceled, cooldown_for,
  retry_after_seconds, designer_disabled,
}
use m365_copilot2api_docker.Upstream.Cooldown.{backoff_doubles, retry_after_honoured}
use m365_copilot2api_docker.Circuit.{Circuit, classify}
use m365_copilot2api_docker.Health.{Health, cleanup}
use m365_copilot2api_docker.Health.Failures.{mark_failure, fail, is_designer}
use m365_copilot2api_docker.Health.Queries.{available}

-- Failures that are to be held against the account: all but those of the client, and those that say
-- that the account may not generate images.
abbrev pub counts : Category → Failure → Bool
counts client_canceled e = false
counts designer_disabled e = false
counts forbidden_403 e = not (is_designer e.as_http e.as_dial)
counts _ e = true

-- The account rests from now for a second at least.
abbrev Rests : String → ℕ → Health → Type 0
Rests id now h = now + second ≤ or_zero 0 (get h.cooldown id)

quota_pause :
    (now n : ℕ) (r : ℤ)
    → pos_part r ≤ 9_223_372_036
    → now + second ≤ add_duration now (cooldown_for quota_429 r (suc n))
quota_pause now n (pos zero) h =
    let p : 1 ≤ 2 ^ n = one-le-pow n 2 (omega arith) in rw backoff_doubles (omega arith)
quota_pause now n (pos (suc r)) h =
    rw (retry_after_honoured (suc r) (suc n) (omega arith) h) (omega arith)
quota_pause now n (negsuc r) h =
    let p : 1 ≤ 2 ^ n = one-le-pow n 2 (omega arith) in
    let e : cooldown_for quota_429 (negsuc r) (suc n) ≡ cooldown_for quota_429 (pos 0) (suc n) =
      unfold cooldown_for in refl in
    rw (e, backoff_doubles) (omega arith)

fail-Rests :
    (cat : Category) (id : String) (now : ℕ) (e : Failure) (window : ℕ) (h : Health)
    → counts cat e ≡ true
    → pos_part (retry_after_seconds e) ≤ 9_223_372_036
    → (window ≡ 0) ⊎ (second ≤ window)
    → Rests id now (fail cat id now e window h)
fail-Rests client_canceled id now e window h k r w = absurd (ground arith)
fail-Rests designer_disabled id now e window h k r w = absurd (ground arith)
fail-Rests quota_429 id now e window h k r w =
    elim (Bool-cases (e.is metering_throttled && is_zero (retry_after_seconds e))) [
      | inl t ↦ unfold fail in rw t (simp dict_laws (omega arith))
      | inr t ↦
          unfold fail in
          rw t (simp (add-one, dict_laws) (quota_pause now _ (retry_after_seconds e) r))
    ]
fail-Rests forbidden_403 id now e window h k r w =
    unfold fail cooldown_for in
    elim (Bool-cases (is_designer e.as_http e.as_dial)) [
      | inl t ↦ absurd (ground arith)
      | inr t ↦ rw t (simp dict_laws (omega arith))
    ]
fail-Rests _ id now e window h k r w = unfold fail cooldown_for in simp dict_laws (ground arith)

resting-unavailable :
    (id : String) (later : ℕ) (h : Health) (c : Circuit)
    → later < or_zero 0 (get h.cooldown id)
    → (available id later (h, c)).0 ≡ false
unfolding available cleanup
resting-unavailable id later h c r = ground arith

-- A failure that is neither of the client nor a refusal of image generation makes its account
-- unavailable for at least a second, if its Retry-After is at most 9223372036 seconds and the caller's
-- window is 0, the default, or at least a second.
pub mark_failure_parks :
    (id : String) (now later : ℕ) (e : Failure) (window : ℕ) (h : Health) (c : Circuit)
    → counts (classify now e c).0 e ≡ true
    → pos_part (retry_after_seconds e) ≤ 9_223_372_036
    → (window ≡ 0) ⊎ (second ≤ window)
    → later < now + second
    → (available id later (mark_failure id now e window (h, c))).0 ≡ false
unfolding mark_failure
mark_failure_parks id now later e window h c k r w l =
    let p = fail-Rests (classify now e c).0 id now e window h k r w in
    resting-unavailable id later _ _ (omega arith)
