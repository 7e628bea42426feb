-- ===== src/ToolCalls/Everywhere.antt =====
-- Where the schema check of a value (validateJSONSchema, internal/web/tooldecision.go) looks, and what
-- it asks there.
use m365_copilot2api_docker.Base.{String, Option, none, some, ◌≡◌, ◌⊎◌, refl, inl, inr}
use m365_copilot2api_docker.Json.{
  Json, null, boolean, number, text, array, object, Items, no_items, item, Fields, no_fields, field,
  value_at, as_object, as_array, object_at,
}
use m365_copilot2api_docker.ToolCalls.{Kind, any_kind, object_kind, array_kind, type_of, is_closed}
use m365_copilot2api_docker.ToolCalls.Conforming.{
  IsScalar, ForObject, ForArray, RequiredFields, KnownFields, InEnum, Conforms, ConformItems,
  ConformFields,
}

-- A field of an object, and an item of an array.
abbrev pub HasField : String → Json → Fields → Type 0
HasField n v no_fields = ⊥
HasField n v (field m u rest) = ((m ≡ n) × (u ≡ v)) ⊎ HasField n v rest

abbrev pub HasItem : Json → Items → Type 0
HasItem v no_items = ⊥
HasItem v (item u rest) = (u ≡ v) ⊎ HasItem v rest

-- The values inside a value that a schema reaches, each with the part of the schema that is for it:
-- the fields of an object through `properties`, where the type is object, and the items of an array
-- through `items`, where it is array.
pub data Reaches : Json → Fields → Json → Fields → Type 0 where
  whole : {v : Json} {schema : Fields} → Reaches v schema v schema
  in_field :
      {fs schema ps t : Fields} {v w : Json} (n : String)
      → type_of schema ≡ object_kind
      → HasField n v fs
      → object_at (as_object (value_at schema "properties")) n ≡ some ps
      → Reaches v ps w t
      → Reaches (object fs) schema w t
  in_item :
      {xs : Items} {schema one t : Fields} {v w : Json}
      → type_of schema ≡ array_kind
      → HasItem v xs
      → as_object (value_at schema "items") ≡ some one
      → Reaches v one w t
      → Reaches (array xs) schema w t

ForObject-map : {S T : Type 0} (k : Kind) → (S → T) → ForObject k S → ForObject k T
ForObject-map any_kind f x = tt
ForObject-map object_kind f x = f x
ForObject-map k f x = absurd x

ForObject-with :
    {S T U : Type 0} (k : Kind)
    → (S → T → U)
    → ForObject k S
    → (k ≡ object_kind → T)
    → ForObject k U
ForObject-with any_kind f x y = tt
ForObject-with object_kind f x y = f x (y refl)
ForObject-with k f x y = absurd x

ForArray-map : {S T : Type 0} (k : Kind) → (S → T) → ForArray k S → ForArray k T
ForArray-map any_kind f x = tt
ForArray-map array_kind f x = f x
ForArray-map k f x = absurd x

ForArray-with :
    {S T U : Type 0} (k : Kind) → (S → T → U) → ForArray k S → (k ≡ array_kind → T) → ForArray k U
ForArray-with any_kind f x y = tt
ForArray-with array_kind f x y = f x (y refl)
ForArray-with k f x y = absurd x

module _ (marshal : Json → String) where
  -- What a schema asks of a value itself.
  abbrev pub Meets : Json → Fields → Type 0
  Meets (object fs) schema =
      InEnum marshal (object fs) (as_array (value_at schema "enum"))
      × ForObject (type_of schema) (
          RequiredFields (as_array (value_at schema "required")) fs
          × KnownFields (is_closed (value_at schema "additionalProperties")) fs
              (as_object (value_at schema "properties")))
  Meets (array xs) schema =
      InEnum marshal (array xs) (as_array (value_at schema "enum")) × ForArray (type_of schema) Unit
  Meets v schema =
      InEnum marshal v (as_array (value_at schema "enum")) × IsScalar v (type_of schema)

  abbrev pub MeetsEverywhere : Json → Fields → Type 0
  MeetsEverywhere v schema = (w : Json) (t : Fields) → Reaches v schema w t → Meets w t

  own : (v : Json) (schema : Fields) → Conforms marshal v schema → Meets v schema
  unfolding Conforms
  own (object fs) schema (e, c) = (e, ForObject-map (type_of schema) (λ (a, (b, d)). (a, b)) c)
  own (array xs) schema (e, c) = (e, ForArray-map (type_of schema) (λ d. tt) c)
  own null schema c = c
  own (boolean b) schema c = c
  own (number b s) schema c = c
  own (text s) schema c = c

  -- What the walk over the fields makes of one field, by the schema that is found for it.
  abbrev Field : Option Fields → Json → Type 0 → Type 0
  Field o u R = elim o [ none ↦ R | some ps ↦ Conforms marshal u ps × R ]

  put_together :
      (o : Option Fields) (u : Json) {R : Type 0}
      → R
      → ((ps : Fields) → o ≡ some ps → Conforms marshal u ps)
      → Field o u R
  put_together none u r f = r
  put_together (some ps) u r f = (f ps refl, r)

  mutual
    unfolding Conforms ConformItems ConformFields

    gathered : (v : Json) (schema : Fields) → MeetsEverywhere v schema → Conforms marshal v schema
    gathered (object fs) schema all =
        let (e, mine) = all (object fs) schema whole in
        let props = as_object (value_at schema "properties") in
        (
          e,
          ForObject-with (type_of schema) (λ (a, b) c. (a, (b, c))) mine
              (λ kind.
                gathered_fields fs props
                  (λ n v ps h found w t r. all w t (in_field n kind h found r))),
        )
    gathered (array xs) schema all =
        let (e, mine) = all (array xs) schema whole in
        (
          e,
          ForArray-with (type_of schema) (λ a c. c) mine
              (λ kind.
                gathered_items xs (as_object (value_at schema "items"))
                  (λ v one h found w t r. all w t (in_item kind h found r))),
        )
    gathered null schema all = all null schema whole
    gathered (boolean b) schema all = all (boolean b) schema whole
    gathered (number b s) schema all = all (number b s) schema whole
    gathered (text s) schema all = all (text s) schema whole

    gathered_fields :
        (fs : Fields) (props : Option Fields)
        → ((n : String) (v : Json) (ps : Fields)
            → HasField n v fs
            → object_at props n ≡ some ps
            → MeetsEverywhere v ps)
        → ConformFields marshal fs props
    gathered_fields no_fields props all = tt
    gathered_fields (field m u rest) props all =
        put_together (object_at props m) u
          (gathered_fields rest props (λ n v ps h. all n v ps (inr h)))
          (λ ps e. gathered u ps (all m u ps (inl (refl, refl)) e))

    gathered_items :
        (xs : Items) (o : Option Fields)
        → ((v : Json) (one : Fields) → HasItem v xs → o ≡ some one → MeetsEverywhere v one)
        → ConformItems marshal xs o
    gathered_items no_items o all = tt
    gathered_items (item u rest) none all = tt
    gathered_items (item u rest) (some one) all = (
      gathered u one (all u one (inl refl) refl),
      gathered_items rest (some one) (λ v p h. all v p (inr h)),
    )
