-- ===== src/Circuit/Tests.antt =====
-- Runs of the global circuit, and instances of its theorems.
use m365_copilot2api_docker.Base.{
  ℕ, ◌*◌, ◌≡◌, refl, none, some, false, Option, List, [], ◌∷◌, second, pos, contains,
}
use m365_copilot2api_docker.Upstream.{Failure}
use m365_copilot2api_docker.Upstream.Classify.{typed_category, text_category}
use m365_copilot2api_docker.Circuit.{Circuit, is_open, classify, record_result, record_transport}
use m365_copilot2api_docker.Circuit.Window.{Deadline, record_result-Deadline}

abbrev refused : Failure
refused = record {
  is = λ s. false;
  as_http = none;
  as_dial = none;
  text = "dial tcp: connection refused";
}

abbrev limited : Failure
limited = record {
  is = λ s. false;
  as_http = some (record { status = 429; retry_after = pos 5; body = ""; error_code = "" });
  as_dial = none;
  text = "upstream http 429";
}

-- Nine results, of which five are failures; the tenth opens the circuit.
abbrev nearly : Circuit
nearly = record { window_start = second; total = 9; failures = 5; open_until = 0 }

opened : (record_result (2 * second) (some refused) nearly).open_until ≡ 32 * second
unfolding record_result classify typed_category text_category contains is_open record_transport
opened = refl

record_result-Deadline_example :
    Deadline (2 * second) 1 nearly (record_result (2 * second) (some refused) nearly)
record_result-Deadline_example = record_result-Deadline (2 * second) (some refused) nearly

abbrev tripped : Circuit
tripped = record { window_start = second; total = 10; failures = 6; open_until = 40 * second }

abbrev history : List (ℕ × Option Failure)
history = (2 * second, some refused) ∷ (3 * second, none) ∷ []
