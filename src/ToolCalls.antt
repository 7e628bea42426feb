-- ===== src/ToolCalls.antt =====
-- The trust boundary for tool calls: JSON schemas (internal/web/tooldecision.go) and the calls that a
-- model detected (internal/web/toolloop.go).
pub mod Detected
pub mod Conforming
pub mod Everywhere
pub mod Trust
mod Tests
use m365_copilot2api_docker.Base.{
  ℕ, zero, suc, String, Bool, true, false, Option, none, some, List, [], ◌∷◌, ◌&&◌, ◌||◌, not,
  str_eq, if◌then◌else◌, is_some,
}
use m365_copilot2api_docker.Json.{
  Json, null, boolean, number, text, array, object, Items, no_items, item, Fields, no_fields, field,
  value_at, as_object, as_text, as_array, object_at, text_at,
}

-- The switch over schema["type"].
pub data Kind : Type 0 where
  any_kind object_kind array_kind string_kind number_kind integer_kind boolean_kind null_kind : Kind

pub kind_of : String → Kind
kind_of t =
    if str_eq t "object"
    then object_kind
    else if str_eq t "array"
    then array_kind
    else if str_eq t "string"
    then string_kind
    else if str_eq t "number"
    then number_kind
    else if str_eq t "integer"
    then integer_kind
    else if str_eq t "boolean"
    then boolean_kind
    else if str_eq t "null"
    then null_kind
    else any_kind

-- A step of a path, the last one first.
pub data Step : Type 0 where
  key : String → Step
  index : ℕ → Step

-- The errors of validateJSONSchema.
pub data Problem : Type 0 where
  not_in_enum wrong_type : List Step → Problem
  missing : String → Problem
  not_allowed : List Step → String → Problem

abbrev pub first : Option Problem → Option Problem → Option Problem
first none q = q
first (some p) q = some p

-- The loop over schema["required"].
pub check_required : Items → Fields → Option Problem
check_required no_items m = none
check_required (item raw rest) m =
    let later = check_required rest m in
    if is_some (value_at m (as_text (some raw))) then later else some (missing (as_text (some raw)))

-- The loop over the fields where additionalProperties is false.
pub check_additional : Fields → Option Fields → List Step → Option Problem
check_additional no_fields props path = none
check_additional (field n v rest) props path =
    let later = check_additional rest props path in
    let known : Bool = elim props [ none ↦ false | some ps ↦ is_some (value_at ps n) ] in
    if known then later else some (not_allowed path n)

-- ap, ok := schema["additionalProperties"].(bool); ok && !ap
abbrev pub is_closed : Option Json → Bool
is_closed (some (boolean b)) = not b
is_closed v = false

abbrev pub required_problem : Fields → Fields → Option Problem
required_problem fs schema = elim (as_array (value_at schema "required")) [
  | none ↦ none
  | some req ↦ check_required req fs
]

abbrev pub additional_problem : Fields → Fields → List Step → Option Problem
additional_problem fs schema path =
    if is_closed (value_at schema "additionalProperties")
    then check_additional fs (as_object (value_at schema "properties")) path
    else none

-- What a value that is no object and no array must be.
pub scalar_problem : Json → Kind → List Step → Option Problem
scalar_problem v any_kind path = none
scalar_problem (text s) string_kind path = none
scalar_problem (number whole s) number_kind path = none
scalar_problem (number true s) integer_kind path = none
scalar_problem (boolean b) boolean_kind path = none
scalar_problem null null_kind path = none
scalar_problem v k path = some (wrong_type path)

-- The cases of the switch for an object and for an array; `p` is what its own case finds.
pub object_case : Kind → Option Problem → List Step → Option Problem
object_case any_kind p path = none
object_case object_kind p path = p
object_case k p path = some (wrong_type path)

pub array_case : Kind → Option Problem → List Step → Option Problem
array_case any_kind p path = none
array_case array_kind p path = p
array_case k p path = some (wrong_type path)

abbrev pub type_of : Fields → Kind
type_of schema = kind_of (as_text (value_at schema "type"))

-- `marshal` is json.Marshal.
module _ (marshal : Json → String) where
  pub in_items : Json → Items → Bool
  in_items v no_items = false
  in_items v (item e rest) = str_eq (marshal v) (marshal e) || in_items v rest

  pub enum_problem : Json → Fields → List Step → Option Problem
  enum_problem v schema path = elim (as_array (value_at schema "enum")) [
    | none ↦ none
    | some enums ↦ if in_items v enums then none else some (not_in_enum path)
  ]

  mutual
    -- validateJSONSchema; none stands for no error.
    pub validate : Json → Fields → List Step → Option Problem
    validate (object fs) schema path =
        let inner = validate_fields fs (as_object (value_at schema "properties")) path in
        first (enum_problem (object fs) schema path) (
          object_case (type_of schema)
            (first (required_problem fs schema) (first (additional_problem fs schema path) inner))
            path)
    validate (array xs) schema path =
        let inner = validate_items 0 xs (as_object (value_at schema "items")) path in
        first (enum_problem (array xs) schema path) (array_case (type_of schema) inner path)
    validate null schema path =
        first (enum_problem null schema path) (scalar_problem null (type_of schema) path)
    validate (boolean b) schema path =
        first (enum_problem (boolean b) schema path)
          (scalar_problem (boolean b) (type_of schema) path)
    validate (number whole s) schema path =
        first (enum_problem (number whole s) schema path)
          (scalar_problem (number whole s) (type_of schema) path)
    validate (text s) schema path =
        first (enum_problem (text s) schema path) (scalar_problem (text s) (type_of schema) path)

    -- The loop over the items of an array, if schema["items"] is an object.
    pub validate_items : ℕ → Items → Option Fields → List Step → Option Problem
    validate_items i no_items one path = none
    validate_items i (item v rest) none path = none
    validate_items i (item v rest) (some one) path =
        first (validate v one (index i ∷ path)) (validate_items (suc i) rest (some one) path)

    -- The loop over the fields of an object.
    pub validate_fields : Fields → Option Fields → List Step → Option Problem
    validate_fields no_fields props path = none
    validate_fields (field n v rest) props path =
        let later = validate_fields rest props path in
        elim (object_at props n) [
          | none ↦ later
          | some ps ↦ first (validate v ps (key n ∷ path)) later
        ]

  -- schemaValid
  pub schema_valid : Fields → Fields → Option Problem
  schema_valid args fn = elim (as_object (value_at fn "parameters")) [
    | none ↦ none
    | some params ↦ validate (object args) params []
  ]
