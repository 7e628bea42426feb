-- ===== src/Proxies/Distinct.antt =====
-- NewPool makes one entry for each proxy that is named (internal/outbound/pool.go).
use m365_copilot2api_docker.Base.{
  ◌≡◌, refl, String, Bool, false, some, List, [], ◌∷◌, ◌++◌, ◌&&◌, ◌||◌, not, str_eq, arith, eq_iff,
  Bool-cases, inl, inr,
}
use m365_copilot2api_docker.Proxies.{Entry, has_raw, new_entry, new_entries}

-- No two entries have the same name.
abbrev pub Distinct : List Entry → Type 0
Distinct [] = Unit
Distinct (e ∷ es) = (has_raw e.raw es ≡ false) × Distinct es

abbrev pub listed : String → List String → Bool
listed raw [] = false
listed raw (v ∷ vs) = str_eq v raw || listed raw vs

has_raw-append :
    (raw v : String) (es : List Entry)
    → has_raw raw (es ++ new_entry v ∷ []) ≡ (has_raw raw es || str_eq v raw)
unfolding has_raw
has_raw-append raw v [] = ground arith
has_raw-append raw v (e ∷ es) = ground (arith, has_raw-append raw v es)

Distinct-append :
    (v : String) (es : List Entry)
    → has_raw v es ≡ false
    → Distinct es
    → Distinct (es ++ new_entry v ∷ [])
unfolding has_raw
Distinct-append v [] n d = (refl, tt)
Distinct-append v (e ∷ es) n d =
    ground (arith, has_raw-append e.raw v es, Distinct-append v es, eq_iff e.raw v, eq_iff v e.raw)

-- What is in the pool: what was there and what is named, but the empty name.
abbrev Complete : List String → List Entry → List Entry → Type 0
Complete vs es out =
    (raw : String) → has_raw raw out ≡ (has_raw raw es || (not (str_eq raw "") && listed raw vs))

new_entries-lem :
    (valid : String → Bool) (vs : List String) (es out : List Entry)
    → Distinct es
    → new_entries valid vs es ≡ some out
    → Distinct out × Complete vs es out
unfolding new_entries
new_entries-lem valid [] es out d e = (ground arith, λ raw. ground arith)
new_entries-lem valid (v ∷ vs) es out d e = elim (Bool-cases (str_eq v "")) [
  | inl blank ↦
      let (u, c) = new_entries-lem valid vs es out d (ground arith) in
      (u, λ raw. ground (arith, c raw, eq_iff v "", eq_iff v raw, eq_iff raw ""))
  | inr named ↦ elim (Bool-cases (has_raw v es)) [
    | inl old ↦
        let (u, c) = new_entries-lem valid vs es out d (ground arith) in
        (u, λ raw. ground (arith, c raw, eq_iff v raw))
    | inr fresh ↦
        let (u, c) =
          new_entries-lem valid vs (es ++ new_entry v ∷ []) out (Distinct-append v es fresh d)
            (ground arith) in
        (
          u,
          λ raw.
              ground
                (arith, c raw, has_raw-append raw v es, eq_iff v raw, eq_iff raw "", eq_iff v ""),
        )
  ]
]

-- Where NewPool succeeds, each name that is listed and not empty has exactly one entry.
pub new_pool-Distinct :
    (valid : String → Bool) (vs : List String) (out : List Entry)
    → new_entries valid vs [] ≡ some out
    → Distinct out × ((raw : String) → has_raw raw out ≡ (not (str_eq raw "") && listed raw vs))
unfolding has_raw
new_pool-Distinct valid vs out e = new_entries-lem valid vs [] out tt e
