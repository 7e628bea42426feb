-- ===== src/Health/Tests.antt =====
-- Runs of the account health, and instances of its theorems.
use m365_copilot2api_docker.Base.{
  ℕ, ◌+◌, ◌*◌, ◌≡◌, refl, arith, none, some, true, false, List, [], ◌∷◌, String, eq_iff, inl,
  second, hour, pos, contains,
}
use m365_copilot2api_docker.Dict.{get, put, remove}
use m365_copilot2api_docker.Upstream.{Failure, cooldown_for, status_category, retry_after_seconds}
use m365_copilot2api_docker.Upstream.Classify.{typed_category, text_category}
use m365_copilot2api_docker.Circuit.{closed, classify, is_open}
use m365_copilot2api_docker.Health.{fresh, mark_image_limited}
use m365_copilot2api_docker.Health.Failures.{mark_failure}
use m365_copilot2api_docker.Health.Queries.{available, image_limited}
use m365_copilot2api_docker.Health.Recovery.{
  IsCooling, Event, called, succeeded, failed, run, run-IsCooling, fresh-IsCooling, available_again,
  IsClearing,
}
use m365_copilot2api_docker.Health.Parking.{mark_failure_parks}
use m365_copilot2api_docker.Health.Surprises.{image_limit_lost}

abbrev refused : Failure
refused = record {
  is = λ s. false;
  as_http = none;
  as_dial = none;
  text = "dial tcp: connection refused";
}

abbrev unauthorized : Failure
unauthorized = record {
  is = λ s. false;
  as_http = some (record { status = 401; retry_after = pos 0; body = ""; error_code = "" });
  as_dial = none;
  text = "upstream http 401";
}

abbrev disallowed : Failure
disallowed = record {
  is = λ s. false;
  as_http = some (record {
    status = 403;
    retry_after = pos 0;
    body = "";
    error_code = "ErrorDisallowedAADUser";
  });
  as_dial = none;
  text = "upstream http 403";
}

abbrev history : List (ℕ × String × Event)
history =
    (second, "a", called) ∷ (second, "a", failed unauthorized 0) ∷ (second, "b", succeeded) ∷ []

run-IsCooling_example :
    IsCooling (run history (fresh.0, closed)).0
    × IsClearing "a" (10 * second) (run history (fresh.0, closed)).0
run-IsCooling_example = run-IsCooling history fresh.0 closed "a" (10 * second) fresh-IsCooling

available_again_example : (available "a" second (fresh.0, closed)).0 ≡ true
unfolding get
available_again_example =
    available_again "a" second fresh.0 closed fresh-IsCooling (omega arith) (omega arith)

mark_failure_parks_example :
    (available "a" (second + 5) (mark_failure "a" second unauthorized 0 (fresh.0, closed))).0
    ≡ false
unfolding classify typed_category status_category retry_after_seconds
mark_failure_parks_example =
    mark_failure_parks "a" second (second + 5) unauthorized 0 fresh.0 closed refl (omega arith)
      (inl refl) (omega arith)

image_limit_lost_example :
    (image_limited "a" hour
      (mark_failure "a" (2 * second) refused 0 (mark_image_limited "a" second fresh.0, closed)).0).0
    ≡ false
unfolding classify typed_category text_category contains is_open
image_limit_lost_example =
    image_limit_lost "a" second (2 * second) hour refused 0 fresh.0 closed
      (ground (arith, eq_iff "a" "")) refl (omega arith)

-- A 401 parks for two minutes.
parked :
    get (mark_failure "a" second unauthorized 0 (fresh.0, closed)).0.cooldown "a"
    ≡ some (121 * second)
unfolding mark_failure classify typed_category status_category cooldown_for get put remove
parked = refl
