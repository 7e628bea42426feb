-- ===== src/Upstream/Tests.antt =====
-- Runs of the cooldown table and of the classification, and instances of their theorems.
use m365_copilot2api_docker.Base.{◌≡◌, refl, none, some, false, pos, contains}
use m365_copilot2api_docker.Upstream.{designer_disabled, tcp, Failure, classify_error_code}
use m365_copilot2api_docker.Upstream.Classify.{typed_category, text_category}

abbrev disallowed : Failure
disallowed = record {
  is = λ s. false;
  as_http = some (record {
    status = 403;
    retry_after = pos 0;
    body = "";
    error_code = "ErrorDisallowedAADUser";
  });
  as_dial = none;
  text = "upstream http 403";
}

disallowed_run : typed_category disallowed ≡ some designer_disabled
unfolding typed_category
disallowed_run = refl

abbrev dialed : Failure
dialed = record {
  is = λ s. false;
  as_http = none;
  as_dial = some (record { status = 500; retry_after = pos 0; kind = "CUSTOM"; text = "" });
  text = "";
}

error_code_run : classify_error_code "ErrorDisallowedAADUser" ≡ designer_disabled
unfolding classify_error_code
error_code_run = refl

text_run : text_category "dial tcp: connection refused" ≡ tcp
unfolding text_category contains
text_run = refl
