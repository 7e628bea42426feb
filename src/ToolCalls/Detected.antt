-- ===== src/ToolCalls/Detected.antt =====
-- The calls that a model detected, checked before a client sees them (internal/web/toolloop.go).
use m365_copilot2api_docker.Base.{
  ℕ, suc, String, Bool, true, Option, none, some, List, [], ◌∷◌, ◌&&◌, ◌||◌, not, str_eq,
  if◌then◌else◌,
}
use m365_copilot2api_docker.Json.{
  Json, text, object, Fields, no_fields, value_at, object_at, text_at,
}
use m365_copilot2api_docker.ToolCalls.{Problem, schema_valid}

-- detectedToolCall; the arguments are the raw text.
pub record Detected : Type 0 where
  pub id : String
  pub kind : String
  pub name : String
  pub arguments : String

-- The reasons of rejectedToolCall.
pub data Reason : Type 0 where
  undeclared disallowed not_an_object : Reason
  invalid : Problem → Reason

-- toolFunction: the function of the first tool of the name, or nil. A tool without a function counts
-- as one whose name is empty.
unfoldable pub tool_function : String → List Fields → Option Fields
tool_function name [] = none
tool_function name (t ∷ ts) =
    let later = tool_function name ts in
    let f = object_at (some t) "function" in if str_eq (text_at f "name") name then f else later

-- toolType
unfoldable pub tool_type : String → List Fields → String
tool_type name [] = "function"
tool_type name (t ∷ ts) =
    let later = tool_type name ts in
    let kind = text_at (some t) "type" in
    if str_eq (text_at (object_at (some t) "function") "name") name && not (str_eq kind "")
    then kind
    else later

-- The choice as a map: of its function, or else of its own name.
abbrev pub named_choice : Fields → String → Bool
named_choice m name = elim (object_at (some m) "function") [
  | some f ↦ str_eq (text_at (some f) "name") name
  | none ↦ elim (value_at m "name") [ some (text n) ↦ str_eq n name | _ ↦ true ]
]

-- toolChoiceAllows
unfoldable pub tool_choice_allows : Json → String → Bool
tool_choice_allows (text s) name =
    not (str_eq s "none") && (not (str_eq s "required") || not (str_eq name ""))
tool_choice_allows (object m) name = named_choice m name
tool_choice_allows choice name = true

-- The arguments of a call: the text that is kept, and the object. `parse` is json.Unmarshal into a map.
unfoldable pub arguments_of : (String → Option Fields) → String → String × Option Fields
arguments_of parse raw =
    if str_eq raw "" || str_eq raw "null" then ("{}", some no_fields) else (raw, parse raw)

-- A call that is accepted; `n` calls are valid before it, and `call_id` gives the uuid of callID.
unfoldable pub completed : (ℕ → String) → ℕ → List Fields → Detected → String → Detected
completed call_id n tools c raw = record {
  id = if str_eq c.id "" then call_id n else c.id;
  kind = if str_eq c.kind "" then tool_type c.name tools else c.kind;
  name = c.name;
  arguments = raw;
}

abbrev pub Validated : Type 0
Validated = List Detected × List (String × Reason)

-- The call is put before the valid ones, or its name before the rejected ones.
unfoldable pub place : Option Reason → Detected → Validated → Validated → Validated
place none c (valid, rejected) after_rejected = (c ∷ valid, rejected)
place (some why) c after_valid (valid, rejected) = (valid, (c.name, why) ∷ rejected)

-- `marshal` is json.Marshal.
module _ (marshal : Json → String) (parse : String → Option Fields) where
  -- One round of validateDetectedToolCalls: the reason to reject a call, or none.
  unfoldable pub refusal : List Fields → Json → Detected → Option Reason
  refusal tools choice c = elim (tool_function c.name tools) [
    | none ↦ some undeclared
    | some fn ↦
        if not (tool_choice_allows choice c.name)
        then some disallowed
        else elim (arguments_of parse c.arguments).1 [
          | none ↦ some not_an_object
          | some args ↦ elim (schema_valid marshal args fn) [
            | none ↦ none
            | some p ↦ some (invalid p)
          ]
        ]
  ]

  -- The loop of validateDetectedToolCalls: the valid calls, and the rejected ones with their reasons.
  -- `n` calls are valid before.
  unfoldable pub validate_from : (ℕ → String) → ℕ → List Fields → Json → List Detected → Validated
  validate_from call_id n tools choice [] = ([], [])
  validate_from call_id n tools choice (c ∷ cs) =
      let after_valid = validate_from call_id (suc n) tools choice cs in
      let after_rejected = validate_from call_id n tools choice cs in
      let call = completed call_id n tools c (arguments_of parse c.arguments).0 in
      place (refusal tools choice c) call after_valid after_rejected

  -- validateDetectedToolCalls
  unfoldable pub validate_detected : (ℕ → String) → List Fields → Json → List Detected → Validated
  validate_detected call_id tools choice calls = validate_from call_id 0 tools choice calls
