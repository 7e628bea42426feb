-- ===== src/ToolProtocol/Tests.antt =====
-- Runs of the check of the tool protocol, and instances of its theorems.
use m365_copilot2api_docker.Base.{◌≤◌, ◌≡◌, refl, String, [], ◌∷◌, true, false}
use m365_copilot2api_docker.Messages.{Message}
use m365_copilot2api_docker.ToolProtocol.{
  passed, broken, unanswered, duplicate_call, validate, add_calls, answer, advance, advance_all,
  without,
}
use m365_copilot2api_docker.ToolProtocol.Answers.{calls_with, results_with, calls_answered_once}

abbrev asks : String → Message
asks id = record {
  role = "assistant";
  name = "";
  content = "";
  tool_call_id = "";
  calls_given = true;
  tool_calls = record { id = id; name = "ls"; arguments = "{}"; argument_text = "{}" } ∷ [];
}

abbrev answers : String → Message
answers id = record {
  role = "tool";
  name = "";
  content = "done";
  tool_call_id = id;
  calls_given = false;
  tool_calls = [];
}

accepted : validate (asks "a" ∷ answers "a" ∷ []) ≡ passed tt
unfolding validate advance_all advance add_calls answer without
accepted = refl

rejected : validate (asks "a" ∷ []) ≡ broken (unanswered "a")
unfolding validate advance_all advance add_calls
rejected = refl

repeated : validate (asks "a" ∷ answers "a" ∷ asks "a" ∷ []) ≡ broken (duplicate_call "a")
unfolding validate advance_all advance add_calls answer without
repeated = refl

calls_answered_once_example :
    (results_with "a" (asks "a" ∷ answers "a" ∷ []) ≡ calls_with "a" (asks "a" ∷ answers "a" ∷ []))
    × (calls_with "a" (asks "a" ∷ answers "a" ∷ []) ≤ 1)
calls_answered_once_example = calls_answered_once (asks "a" ∷ answers "a" ∷ []) "a" accepted
