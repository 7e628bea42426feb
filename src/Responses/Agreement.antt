-- ===== src/Responses/Agreement.antt =====
-- The status of an error agrees with its category (internal/web/errors.go).
use m365_copilot2api_docker.Base.{
  ℕ, ◌≡◌, refl, String, Bool, true, false, Option, none, some, ◌||◌, str_eq, arith, inl, inr, ◌⊎◌,
}
use m365_copilot2api_docker.Upstream.{
  rate_limit_notice, metering_throttled, offensive_content, image_limit, HttpError, DialError,
  Failure, Category, quota_429, overload_503, kind_category, of_kind, status_category, canceled,
  client_canceled, upstream_structured, empty_completion,
}
use m365_copilot2api_docker.Upstream.Classify.{
  typed_category, http_category, dial_category, code_category, text_category, dial_text_category,
  when, optional, ◌<|>◌,
}
use m365_copilot2api_docker.Circuit.{Circuit, classify}
use m365_copilot2api_docker.Responses.{http_limited, dial_limited, is_rate_limited, upstream_status}

-- A category that stands for a limit.
abbrev pub is_limit : Category → Bool
is_limit quota_429 = true
is_limit overload_503 = true
is_limit _ = false

text_no_limit : (msg : String) → is_limit (text_category msg) ≡ false
unfolding text_category
text_no_limit msg = ground arith

abbrev limit_of : Option Category → Bool
limit_of none = false
limit_of (some k) = is_limit k

http_limit : (h : HttpError) → limit_of (http_category h) ≡ true → http_limited (some h) ≡ true
unfolding http_category code_category status_category http_limited
http_limit h e = ground arith

kind_limit :
    (kind : String)
    → limit_of (kind_category kind) ≡ true
    → (str_eq kind "QUOTA_429" || str_eq kind "OVERLOAD_503") ≡ true
unfolding kind_category
kind_limit kind e = ground arith

of_kind_no_limit : (kind : String) → is_limit (of_kind kind) ≡ false
unfolding of_kind
of_kind_no_limit kind = ground arith

dial_text_no_limit : (msg : String) → is_limit (dial_text_category msg) ≡ false
unfolding dial_text_category
dial_text_no_limit msg = ground arith

dial_limit : (d : DialError) → limit_of (dial_category d) ≡ true → dial_limited (some d) ≡ true
unfolding dial_category status_category dial_limited
dial_limit d e =
    ground (arith, kind_limit d.kind, of_kind_no_limit d.kind, dial_text_no_limit d.text)

http_limit_of :
    (h : Option HttpError) → limit_of (optional h http_category) ≡ true → http_limited h ≡ true
http_limit_of none e = cc
http_limit_of (some h) e = http_limit h e

dial_limit_of :
    (d : Option DialError) → limit_of (optional d dial_category) ≡ true → dial_limited d ≡ true
dial_limit_of none e = cc
dial_limit_of (some d) e = dial_limit d e

-- Which rule a limit comes from.
limit_source :
    (stopped limited shaped : Bool) (h d : Option Category)
    → limit_of (
        when stopped client_canceled
        <|> when limited quota_429
        <|> when shaped upstream_structured
        <|> h
        <|> d)
      ≡ true
    → (limited ≡ true) ⊎ ((limit_of h ≡ true) ⊎ (limit_of d ≡ true))
limit_source true limited shaped h d e = cc
limit_source false true shaped h d e = inl refl
limit_source false false true h d e = cc
limit_source false false false none d e = inr (inr e)
limit_source false false false (some k) d e = inr (inl e)

typed_limit : (e : Failure) → limit_of (typed_category e) ≡ true → is_rate_limited e ≡ true
unfolding typed_category is_rate_limited
typed_limit e h =
    elim (limit_source (e.is canceled) (e.is rate_limit_notice || e.is metering_throttled)
      (e.is empty_completion || e.is offensive_content || e.is image_limit)
      (optional e.as_http http_category) (optional e.as_dial dial_category) h) [
        | inl l ↦ ground arith
        | inr (inl l) ↦ rw (http_limit_of e.as_http l) (ground arith)
        | inr (inr l) ↦ rw (dial_limit_of e.as_dial l) (ground arith)
      ]

-- An error that is classified as a quota or an overload is answered by 429, unless the content
-- policy refused it.
pub limit-status :
    (now : ℕ) (e : Failure) (c : Circuit)
    → is_limit (classify now e c).0 ≡ true
    → e.is offensive_content ≡ false
    → upstream_status now e c ≡ 429
unfolding upstream_status classify
limit-status now e c h o = ground (arith, typed_limit e, text_no_limit e.text)
