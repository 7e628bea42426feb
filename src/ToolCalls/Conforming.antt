-- ===== src/ToolCalls/Conforming.antt =====
-- What the gateway reads of a JSON schema, without an order of checks and without errors: a
-- description that validateJSONSchema (internal/web/tooldecision.go) is compared with. It is a part of
-- JSON Schema: `enum`; `type` where it is a text; `required`, `properties` and `additionalProperties`
-- where the type is object; `items` where it is array. Without such a type only `enum` counts, lists
-- of types are passed over, and so are all other keywords.
use m365_copilot2api_docker.Base.{
  ℕ, suc, String, Bool, true, false, Option, none, some, List, ◌∷◌, if◌then◌else◌, is_some, ◌≡◌,
  ◌↔◌, ◌⊎◌, refl, arith, eq_iff,
}
use m365_copilot2api_docker.Json.{
  Json, null, boolean, number, text, array, object, Items, no_items, item, Fields, no_fields, field,
  value_at, as_object, as_text, as_array, object_at,
}
use m365_copilot2api_docker.ToolCalls.{
  Kind, any_kind, object_kind, array_kind, string_kind, number_kind, integer_kind, boolean_kind,
  null_kind, type_of, Step, key, index, Problem, not_in_enum, first, check_required,
  check_additional, is_closed, scalar_problem, object_case, array_case, in_items, enum_problem,
  validate, validate_items, validate_fields,
}

-- A type asked of a value that is no object and no array.
abbrev pub IsScalar : Json → Kind → Type 0
IsScalar v any_kind = Unit
IsScalar (text s) string_kind = Unit
IsScalar (number whole s) number_kind = Unit
IsScalar (number true s) integer_kind = Unit
IsScalar (boolean b) boolean_kind = Unit
IsScalar null null_kind = Unit
IsScalar v k = ⊥

abbrev pub ForObject : Kind → Type 0 → Type 0
ForObject any_kind t = Unit
ForObject object_kind t = t
ForObject k t = ⊥

abbrev pub ForArray : Kind → Type 0 → Type 0
ForArray any_kind t = Unit
ForArray array_kind t = t
ForArray k t = ⊥

-- The fields that are required are there.
abbrev pub HasRequired : Items → Fields → Type 0
HasRequired no_items fs = Unit
HasRequired (item raw rest) fs =
    (is_some (value_at fs (as_text (some raw))) ≡ true) × HasRequired rest fs

-- The fields are all among the properties.
abbrev pub AllKnown : Fields → Option Fields → Type 0
AllKnown no_fields props = Unit
AllKnown (field n v rest) none = ⊥
AllKnown (field n v rest) (some ps) = (is_some (value_at ps n) ≡ true) × AllKnown rest (some ps)

abbrev pub RequiredFields : Option Items → Fields → Type 0
RequiredFields none fs = Unit
RequiredFields (some req) fs = HasRequired req fs

abbrev pub KnownFields : Bool → Fields → Option Fields → Type 0
KnownFields true fs props = AllKnown fs props
KnownFields false fs props = Unit

module _ (marshal : Json → String) where
  -- A value of an enumeration.
  abbrev pub AmongItems : Json → Items → Type 0
  AmongItems v no_items = ⊥
  AmongItems v (item e rest) = (marshal v ≡ marshal e) ⊎ AmongItems v rest

  abbrev pub InEnum : Json → Option Items → Type 0
  InEnum v none = Unit
  InEnum v (some enums) = AmongItems v enums

  unfoldable mutual
    pub Conforms : Json → Fields → Type 0
    Conforms (object fs) schema =
        InEnum (object fs) (as_array (value_at schema "enum"))
        × ForObject (type_of schema) (
            RequiredFields (as_array (value_at schema "required")) fs
            × (KnownFields (is_closed (value_at schema "additionalProperties")) fs
                  (as_object (value_at schema "properties"))
                × ConformFields fs (as_object (value_at schema "properties"))))
    Conforms (array xs) schema =
        InEnum (array xs) (as_array (value_at schema "enum"))
        × ForArray (type_of schema) (ConformItems xs (as_object (value_at schema "items")))
    Conforms null schema =
        InEnum null (as_array (value_at schema "enum")) × IsScalar null (type_of schema)
    Conforms (boolean b) schema =
        InEnum (boolean b) (as_array (value_at schema "enum"))
        × IsScalar (boolean b) (type_of schema)
    Conforms (number whole s) schema =
        InEnum (number whole s) (as_array (value_at schema "enum"))
        × IsScalar (number whole s) (type_of schema)
    Conforms (text s) schema =
        InEnum (text s) (as_array (value_at schema "enum")) × IsScalar (text s) (type_of schema)

    pub ConformItems : Items → Option Fields → Type 0
    ConformItems no_items one = Unit
    ConformItems (item v rest) none = Unit
    ConformItems (item v rest) (some one) = Conforms v one × ConformItems rest (some one)

    pub ConformFields : Fields → Option Fields → Type 0
    ConformFields no_fields props = Unit
    ConformFields (field n v rest) props = elim (object_at props n) [
      | none ↦ ConformFields rest props
      | some ps ↦ Conforms v ps × ConformFields rest props
    ]

-- Two checks, one after the other.
first_iff :
    {S T : Type 0} (p q : Option Problem)
    → (p ≡ none) ↔ S
    → (q ≡ none) ↔ T
    → (first p q ≡ none) ↔ (S × T)
first_iff none q s t = (λ e. (s.0 refl, t.0 e), λ (a, b). t.1 b)
first_iff (some p) q s t = (λ e. cc, λ (a, b). absurd (ground (arith, s.1 a)))

IsScalar-iff :
    (v : Json) (k : Kind) (path : List Step) → (scalar_problem v k path ≡ none) ↔ IsScalar v k
unfolding scalar_problem
IsScalar-iff v k path = ground arith

object_iff :
    {T : Type 0} (k : Kind) (p : Option Problem) (path : List Step)
    → (p ≡ none) ↔ T
    → (object_case k p path ≡ none) ↔ ForObject k T
unfolding object_case
object_iff any_kind p path t = (λ e. tt, λ x. refl)
object_iff object_kind p path t = t
object_iff k p path t = (λ e. cc, λ x. absurd x)

array_iff :
    {T : Type 0} (k : Kind) (p : Option Problem) (path : List Step)
    → (p ≡ none) ↔ T
    → (array_case k p path ≡ none) ↔ ForArray k T
unfolding array_case
array_iff any_kind p path t = (λ e. tt, λ x. refl)
array_iff array_kind p path t = t
array_iff k p path t = (λ e. cc, λ x. absurd x)

required_iff :
    (req : Option Items) (fs : Fields)
    → ((elim req [ none ↦ none | some r ↦ check_required r fs ]) ≡ none) ↔ RequiredFields req fs
unfolding check_required
required_iff none fs = (λ e. tt, λ x. refl)
required_iff (some no_items) fs = (λ e. tt, λ x. refl)
required_iff (some (item raw rest)) fs = ground (arith, required_iff (some rest) fs)

additional_iff :
    (b : Bool) (fs : Fields) (props : Option Fields) (path : List Step)
    → ((if b then check_additional fs props path else none) ≡ none) ↔ KnownFields b fs props
unfolding check_additional
additional_iff false fs props path = (λ e. tt, λ x. refl)
additional_iff true no_fields props path = (λ e. tt, λ x. refl)
additional_iff true (field n v rest) none path = (λ e. cc, λ x. absurd x)
additional_iff true (field n v rest) (some ps) path =
    ground (arith, additional_iff true rest (some ps) path)

module _ (marshal : Json → String) where
  in_items_iff : (v : Json) (xs : Items) → (in_items marshal v xs ≡ true) ↔ AmongItems marshal v xs
  unfolding in_items
  in_items_iff v no_items = (λ e. cc, λ x. absurd x)
  in_items_iff v (item e rest) = ground (arith, in_items_iff v rest, eq_iff (marshal v) (marshal e))

  enum_cases :
      (v : Json) (enums : Option Items) (path : List Step)
      → ((elim enums [
        | none ↦ none
        | some xs ↦ if in_items marshal v xs then none else some (not_in_enum path)
      ])
          ≡ none)
        ↔ InEnum marshal v enums
  enum_cases v none path = (λ e. tt, λ x. refl)
  enum_cases v (some xs) path = ground (arith, in_items_iff v xs)

  enum_iff :
      (v : Json) (schema : Fields) (path : List Step)
      → (enum_problem marshal v schema path ≡ none)
        ↔ InEnum marshal v (as_array (value_at schema "enum"))
  unfolding enum_problem
  enum_iff v schema path = enum_cases v (as_array (value_at schema "enum")) path

  mutual
    unfolding validate Conforms

    value_iff :
        (v : Json) (schema : Fields) (path : List Step)
        → (validate marshal v schema path ≡ none) ↔ Conforms marshal v schema
    value_iff (object fs) schema path =
        let props = as_object (value_at schema "properties") in
        let required = required_iff (as_array (value_at schema "required")) fs in
        let known =
          additional_iff (is_closed (value_at schema "additionalProperties")) fs props path in
        let inner = fields_iff fs props path in
        first_iff _ _ (enum_iff (object fs) schema path)
          (object_iff (type_of schema) _ path (first_iff _ _ required (first_iff _ _ known inner)))
    value_iff (array xs) schema path = first_iff _ _ (enum_iff (array xs) schema path) (
        array_iff (type_of schema) _ path
          (items_iff 0 xs (as_object (value_at schema "items")) path))
    value_iff null schema path =
        first_iff _ _ (enum_iff null schema path) (IsScalar-iff null (type_of schema) path)
    value_iff (boolean b) schema path =
        first_iff _ _ (enum_iff (boolean b) schema path)
          (IsScalar-iff (boolean b) (type_of schema) path)
    value_iff (number whole s) schema path =
        first_iff _ _ (enum_iff (number whole s) schema path)
          (IsScalar-iff (number whole s) (type_of schema) path)
    value_iff (text s) schema path =
        first_iff _ _ (enum_iff (text s) schema path) (IsScalar-iff (text s) (type_of schema) path)

    items_iff :
        (i : ℕ) (xs : Items) (one : Option Fields) (path : List Step)
        → (validate_items marshal i xs one path ≡ none) ↔ ConformItems marshal xs one
    items_iff i no_items one path = (λ e. tt, λ x. refl)
    items_iff i (item v rest) none path = (λ e. tt, λ x. refl)
    items_iff i (item v rest) (some one) path =
        first_iff _ _ (value_iff v one (index i ∷ path)) (items_iff (suc i) rest (some one) path)

    fields_iff :
        (fs : Fields) (props : Option Fields) (path : List Step)
        → (validate_fields marshal fs props path ≡ none) ↔ ConformFields marshal fs props
    fields_iff no_fields props path = (λ e. tt, λ x. refl)
    fields_iff (field n v rest) props path =
        elim (object_at props n)
          as (λ o.
            ((elim o [
              | none ↦ validate_fields marshal rest props path
              | some ps ↦
                  first (validate marshal v ps (key n ∷ path))
                    (validate_fields marshal rest props path)
            ])
              ≡ none)
            ↔ elim o [
              | none ↦ ConformFields marshal rest props
              | some ps ↦ Conforms marshal v ps × ConformFields marshal rest props
            ]) [
              | none ↦ fields_iff rest props path
              | some ps ↦ first_iff _ _ (value_iff v ps (key n ∷ path)) (fields_iff rest props path)
            ]

  -- validateJSONSchema finds no problem exactly in the values that conform to the part of the schema
  -- that it reads, whatever path it is given for its errors: `enum`; a `type` that is a text; for the
  -- type object `required`, `properties` and `additionalProperties: false`, for the type array `items`.
  pub validate-Conforms :
      (v : Json) (schema : Fields) (path : List Step)
      → (validate marshal v schema path ≡ none) ↔ Conforms marshal v schema
  validate-Conforms v schema path = value_iff v schema path
