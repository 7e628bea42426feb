-- ===== src/ToolCalls/Tests.antt =====
-- Runs of the checks of tool calls, and instances of their theorems.
use m365_copilot2api_docker.Base.{
  ℕ, ◌≡◌, refl, String, false, Option, none, some, List, [], ◌∷◌, str_eq, if◌then◌else◌,
}
use m365_copilot2api_docker.Json.{
  Json, null, boolean, text, array, object, no_items, item, Fields, no_fields, field, value_at,
}
use m365_copilot2api_docker.ToolCalls.{
  missing, kind_of, check_required, check_additional, scalar_problem, object_case, in_items,
  enum_problem, validate, schema_valid,
}
use m365_copilot2api_docker.ToolCalls.Detected.{
  Detected, undeclared, invalid, tool_function, tool_type, tool_choice_allows, completed, refusal,
  place, validate_from, validate_detected, arguments_of,
}
use m365_copilot2api_docker.ToolCalls.Trust.{Judged, validated-Judged}

-- In place of json.Marshal and json.Unmarshal.
abbrev marshal : Json → String
marshal (text s) = s
marshal v = "null"

abbrev parse : String → Option Fields
parse s =
    if str_eq s "{}"
    then some no_fields
    else if str_eq s "{\"path\":\"x\"}"
    then some (field "path" (text "x") no_fields)
    else none

abbrev call_id : ℕ → String
call_id n = "call_1"

abbrev schema : Fields
schema = field "type" (text "object") (
    field "required" (array (item (text "path") no_items)) (
      field "properties"
        (object (field "path" (object (field "type" (text "string") no_fields)) no_fields))
        (field "additionalProperties" (boolean false) no_fields)))

abbrev tools : List Fields
tools =
    field "type" (text "function") (
      field "function"
        (object (field "name" (text "ls") (field "parameters" (object schema) no_fields)))
        no_fields)
    ∷ []

abbrev call : String → String → Detected
call name arguments = record { id = ""; kind = ""; name = name; arguments = arguments }

abbrev calls : List Detected
calls = call "ls" "{\"path\":\"x\"}" ∷ call "unknown_tool" "{}" ∷ call "ls" "" ∷ []

checked : validate_detected marshal parse call_id tools null calls ≡ (
  record { id = "call_1"; kind = "function"; name = "ls"; arguments = "{\"path\":\"x\"}" } ∷ [],
  ("unknown_tool", undeclared) ∷ ("ls", invalid (missing "path")) ∷ [],
)
unfolding validate_detected validate_from place refusal completed tool_function tool_type
    tool_choice_allows arguments_of schema_valid validate enum_problem in_items object_case
    scalar_problem check_required check_additional kind_of value_at
checked = refl

validated-Judged_example :
    Judged marshal parse tools null calls
      (validate_detected marshal parse call_id tools null calls).0
      (validate_detected marshal parse call_id tools null calls).1
validated-Judged_example = validated-Judged marshal parse call_id tools null calls refl
