-- ===== src/ToolCalls/Trust.antt =====
-- What a client may rely on in the calls that it is given (internal/web/toolloop.go).
use m365_copilot2api_docker.Base.{
  ℕ, suc, ◌≡◌, refl, String, true, Option, none, some, List, [], ◌∷◌, str_eq, arith, Bool-cases,
  Option-cases, inl, inr, ◌||◌, eq_iff, is_some, false, ◌⊎◌, subst, if◌then◌else◌,
}
use m365_copilot2api_docker.Json.{Json, Fields, no_fields}
use m365_copilot2api_docker.ToolCalls.{schema_valid}
use m365_copilot2api_docker.ToolCalls.Detected.{
  Detected, Reason, tool_function, tool_choice_allows, arguments_of, completed, refusal,
  validate_from, place, Validated, validate_detected, undeclared, disallowed, not_an_object,
  invalid,
}

arguments_of-parse :
    (parse : String → Option Fields) (raw : String) (args : Fields)
    → parse "{}" ≡ some no_fields
    → (arguments_of parse raw).1 ≡ some args
    → parse (arguments_of parse raw).0 ≡ some args
unfolding arguments_of
arguments_of-parse parse raw args empty e = elim (Bool-cases (str_eq raw "" || str_eq raw "null")) [
  | inl blank ↦ rw blank (ground (arith, blank, empty, e))
  | inr given ↦ rw given (ground (arith, given, e))
]

-- The call that is passed on for a detected one: the arguments are `{}` where they were left out, and
-- an id and a type that are there are kept.
abbrev pub Follows : Detected → Detected → Type 0
Follows c d =
    (d.name ≡ c.name)
    × (d.arguments
        ≡ (if str_eq c.arguments "" || str_eq c.arguments "null" then "{}" else c.arguments))
    × ((c.id ≡ "") ⊎ (d.id ≡ c.id))
    × ((c.kind ≡ "") ⊎ (d.kind ≡ c.kind))

module _ (marshal : Json → String) (parse : String → Option Fields) where
  -- A call of a declared tool that the choice allows, with arguments that are an object in which the
  -- check by the tool's schema finds no problem.
  abbrev pub Trusted : List Fields → Json → Detected → Type 0
  Trusted tools choice c =
      (fn args : Fields) × (tool_function c.name tools ≡ some fn)
      × (tool_choice_allows choice c.name ≡ true)
      × (parse c.arguments ≡ some args)
      × (schema_valid marshal args fn ≡ none)

  -- Why a detected call is rejected: the first of these that holds.
  abbrev pub Explains : List Fields → Json → Detected → Reason → Type 0
  Explains tools choice c undeclared = tool_function c.name tools ≡ none
  Explains tools choice c disallowed =
      (is_some (tool_function c.name tools) ≡ true) × (tool_choice_allows choice c.name ≡ false)
  Explains tools choice c not_an_object =
      (is_some (tool_function c.name tools) ≡ true)
      × (tool_choice_allows choice c.name ≡ true)
      × ((arguments_of parse c.arguments).1 ≡ none)
  Explains tools choice c (invalid p) =
      (fn args : Fields) × (tool_function c.name tools ≡ some fn)
      × (tool_choice_allows choice c.name ≡ true)
      × ((arguments_of parse c.arguments).1 ≡ some args)
      × (schema_valid marshal args fn ≡ some p)

  -- The detected calls, those passed on and those rejected, each in their order: every detected call
  -- is one of them and not both.
  pub data Judged (tools : List Fields) (choice : Json)
      : List Detected → List Detected → List (String × Reason) → Type 0 where
    all_judged : Judged tools choice [] [] []
    passed :
        {c d : Detected} {cs ds : List Detected} {rs : List (String × Reason)}
        → Follows c d
        → Trusted tools choice d
        → Judged tools choice cs ds rs
        → Judged tools choice (c ∷ cs) (d ∷ ds) rs
    rejected :
        {c : Detected} {why : Reason} {cs ds : List Detected} {rs : List (String × Reason)}
        → Explains tools choice c why
        → Judged tools choice cs ds rs
        → Judged tools choice (c ∷ cs) ds ((c.name, why) ∷ rs)

  completed-Follows :
      (call_id : ℕ → String) (n : ℕ) (tools : List Fields) (c : Detected)
      → Follows c (completed call_id n tools c (arguments_of parse c.arguments).0)
  unfolding completed arguments_of
  completed-Follows call_id n tools c = ground (arith, eq_iff c.id "", eq_iff c.kind "")

module _ (marshal : Json → String) (parse : String → Option Fields) (call_id : ℕ → String) where
  refusal-Trusted :
      (n : ℕ) (tools : List Fields) (choice : Json) (c : Detected)
      → parse "{}" ≡ some no_fields
      → refusal marshal parse tools choice c ≡ none
      → Trusted marshal parse tools choice
          (completed call_id n tools c (arguments_of parse c.arguments).0)
  unfolding refusal completed arguments_of
  refusal-Trusted n tools choice c empty ok = elim (Option-cases (tool_function c.name tools)) [
    | inl e ↦ ground (arith, e)
    | inr (fn, e) ↦ elim (Bool-cases (tool_choice_allows choice c.name)) [
      | inr f ↦ ground (arith, e, f)
      | inl f ↦ elim (Option-cases (arguments_of parse c.arguments).1) [
        | inl g ↦ ground (arith, e, f, g)
        | inr (args, g) ↦ elim (Option-cases (schema_valid marshal args fn)) [
          | inr (p, h) ↦ ground (arith, e, f, g, h)
          | inl h ↦ (fn, args, e, f, arguments_of-parse parse c.arguments args empty g, h)
        ]
      ]
    ]
  ]

  refusal-Explains :
      (tools : List Fields) (choice : Json) (c : Detected) (why : Reason)
      → refusal marshal parse tools choice c ≡ some why
      → Explains marshal parse tools choice c why
  unfolding refusal
  refusal-Explains tools choice c why e = elim (Option-cases (tool_function c.name tools)) [
    | inl f ↦
        let same : undeclared ≡ why = ground (arith, e, f) in
        subst (Explains marshal parse tools choice c) same f
    | inr (fn, f) ↦ elim (Bool-cases (tool_choice_allows choice c.name)) [
      | inr g ↦
          let same : disallowed ≡ why = ground (arith, e, f, g) in
          subst (Explains marshal parse tools choice c) same (ground (arith, f), g)
      | inl g ↦ elim (Option-cases (arguments_of parse c.arguments).1) [
        | inl h ↦
            let same : not_an_object ≡ why = ground (arith, e, f, g, h) in
            subst (Explains marshal parse tools choice c) same (ground (arith, f), g, h)
        | inr (args, h) ↦ elim (Option-cases (schema_valid marshal args fn)) [
          | inl k ↦ absurd (ground (arith, e, f, g, h, k))
          | inr (p, k) ↦
              let same : invalid p ≡ why = ground (arith, e, f, g, h, k) in
              subst (Explains marshal parse tools choice c) same (fn, args, f, g, h, k)
        ]
      ]
    ]
  ]

  place-Judged :
      (n : ℕ) (tools : List Fields) (choice : Json) (c : Detected) (cs : List Detected)
      (o : Option Reason) (v r : Validated)
      → parse "{}" ≡ some no_fields
      → refusal marshal parse tools choice c ≡ o
      → Judged marshal parse tools choice cs v.0 v.1
      → Judged marshal parse tools choice cs r.0 r.1
      → let out = place o (completed call_id n tools c (arguments_of parse c.arguments).0) v r in
        Judged marshal parse tools choice (c ∷ cs) out.0 out.1
  unfolding place completed
  place-Judged n tools choice c cs none v r empty e a b =
      passed (completed-Follows marshal parse call_id n tools c)
        (refusal-Trusted n tools choice c empty e) a
  place-Judged n tools choice c cs (some why) v r empty e a b =
      rejected (refusal-Explains tools choice c why e) b

  validate_from-Judged :
      (n : ℕ) (tools : List Fields) (choice : Json) (calls : List Detected)
      → parse "{}" ≡ some no_fields
      → let out = validate_from marshal parse call_id n tools choice calls in
        Judged marshal parse tools choice calls out.0 out.1
  unfolding validate_from
  validate_from-Judged n tools choice [] empty = all_judged
  validate_from-Judged n tools choice (c ∷ cs) empty =
      place-Judged n tools choice c cs (refusal marshal parse tools choice c)
        (validate_from marshal parse call_id (suc n) tools choice cs)
        (validate_from marshal parse call_id n tools choice cs) empty refl
        (validate_from-Judged (suc n) tools choice cs empty)
        (validate_from-Judged n tools choice cs empty)

  -- Where the text `{}` decodes to the empty object, the detected calls are sorted, in their order,
  -- into those that are passed on and those that are reported as rejected under their names. One that
  -- is passed on keeps its name, its arguments, and its id and type if they are given; it names a
  -- declared tool that the choice allows, and its arguments are an object in which the schema check
  -- finds no problem. One that is rejected has the first reason that applies.
  pub validated-Judged :
      (tools : List Fields) (choice : Json) (calls : List Detected)
      → parse "{}" ≡ some no_fields
      → let out = validate_detected marshal parse call_id tools choice calls in
        Judged marshal parse tools choice calls out.0 out.1
  unfolding validate_detected
  validated-Judged tools choice calls empty = validate_from-Judged 0 tools choice calls empty
