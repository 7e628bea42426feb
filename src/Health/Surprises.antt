-- ===== src/Health/Surprises.antt =====
-- Two surprises of MarkFailure (internal/web/account_health.go): an error that its comments and
-- CooldownForCategory exempt, and an image limit that ends early.
use mathlib.Core.Bool.{false≢true}
use m365_copilot2api_docker.Base.{
  ℕ, ◌+◌, ◌*◌, ◌≤◌, ◌<◌, ◌≡◌, ◌≢◌, refl, String, true, false, some, ◌||◌, arith, eq_refl, or_zero,
  is_some, pos, second, min,
}
use m365_copilot2api_docker.Dict.{get, get-remove, dict_laws}
use m365_copilot2api_docker.Upstream.{
  Failure, HttpError, canceled, rate_limit_notice, metering_throttled, empty_completion,
  offensive_content, image_limit, Category, quota_429, forbidden_403, client_canceled,
  designer_disabled, cooldown_for,
}
use m365_copilot2api_docker.Upstream.Classify.{typed_category}
use m365_copilot2api_docker.Circuit.{Circuit, classify, is_transport}
use m365_copilot2api_docker.Health.{Health, holds, cleanup, mark_image_limited}
use m365_copilot2api_docker.Health.Failures.{mark_failure, fail}
use m365_copilot2api_docker.Health.Queries.{image_limited}

designer_typed :
    (e : Failure) (http : HttpError)
    → e.is canceled ≡ false
    → (e.is rate_limit_notice || e.is metering_throttled) ≡ false
    → (e.is empty_completion || e.is offensive_content || e.is image_limit) ≡ false
    → e.as_http ≡ some http
    → http.error_code ≡ "ErrorDisallowedAADUser"
    → typed_category e ≡ some designer_disabled
unfolding typed_category
designer_typed e http k1 k2 k3 a code = rw (k1, k2, k3, a, code)

-- An image generation that the tenant has disabled is to cost the account nothing, says the table,
-- but the default case of MarkFailure parks the account for the window, at most 30 seconds: the
-- exemption in the FORBIDDEN_403 case never sees the error, which is classified before its status.
pub designer_disabled_parks :
    (id : String) (now : ℕ) (e : Failure) (http : HttpError) (window : ℕ) (h : Health) (c : Circuit)
    → e.is canceled ≡ false
    → (e.is rate_limit_notice || e.is metering_throttled) ≡ false
    → (e.is empty_completion || e.is offensive_content || e.is image_limit) ≡ false
    → e.as_http ≡ some http
    → http.error_code ≡ "ErrorDisallowedAADUser"
    → 0 < window
    → (cooldown_for (classify now e c).0 (pos 0) 1 ≡ pos 0)
      × (get (mark_failure id now e window (h, c)).0.cooldown id
          ≡ some (now + min window (30 * second)))
unfolding mark_failure
designer_disabled_parks id now e http window h c k1 k2 k3 a code w =
    let k : (classify now e c).0 ≡ designer_disabled =
      unfold classify in rw (designer_typed e http k1 k2 k3 a code, classify) refl in
    rw k (unfold cooldown_for fail in (refl, simp dict_laws (ground arith)))

cooled_clears :
    (id : String) (later : ℕ) (h : Health)
    → or_zero 0 (get h.cooldown id) ≤ later
    → is_some (get h.cooldown id) ≡ true
    → holds (cleanup id later h).image_limited id ≡ false
unfolding cleanup
cooled_clears id later h p q = ground (arith, get-remove h.image_limited id id, eq_refl id)

cooled_image_limit :
    (id : String) (later : ℕ) (h : Health)
    → or_zero 0 (get h.cooldown id) ≤ later
    → is_some (get h.cooldown id) ≡ true
    → (image_limited id later h).0 ≡ false
unfolding image_limited
cooled_image_limit id later h p q = grind (arith, cooled_clears)

transport_cooldown :
    (cat : Category) (id : String) (at : ℕ) (e : Failure) (window : ℕ) (h : Health)
    → is_transport cat ≡ true
    → let o = get (fail cat id at e window h).cooldown id in
      (or_zero 0 o ≤ at + 30 * second) × (is_some o ≡ true)
transport_cooldown quota_429 id at e window h t = absurd (false≢true t)
transport_cooldown forbidden_403 id at e window h t = absurd (false≢true t)
transport_cooldown client_canceled id at e window h t = absurd (false≢true t)
transport_cooldown _ id at e window h t = unfold fail cooldown_for in simp dict_laws (ground arith)

-- A transport failure after an image limit shortens the 24 hours to its own cooldown.
pub image_limit_lost :
    (id : String) (now at later : ℕ) (e : Failure) (window : ℕ) (h : Health) (c : Circuit)
    → id ≢ ""
    → is_transport (classify at e c).0 ≡ true
    → at + 30 * second ≤ later
    → (image_limited id later (mark_failure id at e window (mark_image_limited id now h, c)).0).0
      ≡ false
unfolding mark_failure
image_limit_lost id now at later e window h c named t l =
    let (short, there) =
      transport_cooldown (classify at e c).0 id at e window (mark_image_limited id now h) t in
    cooled_image_limit id later _ (omega arith) there
