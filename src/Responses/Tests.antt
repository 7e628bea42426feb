-- ===== src/Responses/Tests.antt =====
-- Runs of the statuses, and the instance of their theorem.
use m365_copilot2api_docker.Base.{ℕ, ◌≡◌, refl, true, false, none, some, pos, contains}
use m365_copilot2api_docker.Upstream.{Failure, status_category}
use m365_copilot2api_docker.Upstream.Classify.{typed_category, http_category, code_category}
use m365_copilot2api_docker.Circuit.{closed, classify}
use m365_copilot2api_docker.Responses.{
  upstream_status, is_rate_limited, http_limited, dial_limited, is_auth_failure, auth_refused,
  is_retryable,
}
use m365_copilot2api_docker.Responses.Agreement.{is_limit}

abbrev http : ℕ → Failure
http status = record {
  is = λ s. false;
  as_http = some (record { status = status; retry_after = pos 0; body = ""; error_code = "" });
  as_dial = none;
  text = "upstream";
}

statuses :
    (upstream_status 9 (http 401) closed ≡ 401)
    × (upstream_status 9 (http 422) closed ≡ 422)
    × (is_retryable 9 (http 503) closed ≡ true)
unfolding upstream_status is_rate_limited http_limited dial_limited is_auth_failure auth_refused
    is_retryable classify typed_category http_category code_category status_category contains
statuses = (refl, refl, refl)

overload : is_limit (classify 9 (http 503) closed).0 ≡ true
unfolding classify typed_category http_category code_category status_category
overload = refl
