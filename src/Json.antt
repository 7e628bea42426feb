-- ===== src/Json.antt =====
-- JSON values as `encoding/json` decodes them into `any`, and the type assertions that the code makes
-- on them (internal/web/tooldecision.go and others).
use m365_copilot2api_docker.Base.{String, Bool, Option, none, some, str_eq, if◌then◌else◌}

mutual
  pub data Json : Type 0 where
    null : Json
    boolean : Bool → Json
    -- a float64: whether it is a whole number, and its text
    number : Bool → String → Json
    text : String → Json
    array : Items → Json
    object : Fields → Json

  pub data Items : Type 0 where
    no_items : Items
    item : Json → Items → Items

  -- map[string]any
  pub data Fields : Type 0 where
    no_fields : Fields
    field : String → Json → Fields → Fields

-- m[k]
unfoldable pub value_at : Fields → String → Option Json
value_at no_fields k = none
value_at (field j v fs) k = let later = value_at fs k in if str_eq j k then some v else later

-- v.(map[string]any)
abbrev pub as_object : Option Json → Option Fields
as_object none = none
as_object (some (object fs)) = some fs
as_object (some v) = none

-- s, _ := v.(string)
abbrev pub as_text : Option Json → String
as_text (some (text s)) = s
as_text v = ""

-- v.([]any)
abbrev pub as_array : Option Json → Option Items
as_array none = none
as_array (some (array xs)) = some xs
as_array (some v) = none

-- v, ok := m[k].(map[string]any), where m may be nil
abbrev pub object_at : Option Fields → String → Option Fields
object_at none k = none
object_at (some fs) k = as_object (value_at fs k)

abbrev pub text_at : Option Fields → String → String
text_at none k = ""
text_at (some fs) k = as_text (value_at fs k)
