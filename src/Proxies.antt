-- ===== src/Proxies.antt =====
-- The pool of outbound proxies (internal/outbound/pool.go, internal/outbound/health.go): its round
-- robin, the cooldowns of its entries and the replay of a request on other proxies.
pub mod Mark
pub mod Rotation
pub mod Replay
pub mod Cooling
pub mod Distinct
mod Tests
use m365_copilot2api_docker.Base.{
  ℕ, zero, suc, ◌+◌, ◌%◌, String, Bool, true, false, Option, none, some, List, [], ◌∷◌, ◌++◌, ltb,
  str_eq, if◌then◌else◌, get_elem?, length,
}

-- poolEntry, without the clients and what CheckAll measures. An entry is known by its `raw`, which
-- NewPool keeps different.
pub record Entry : Type 0 where
  pub raw : String
  pub failures : ℕ
  pub cooldown : ℕ
  pub last_error : String
  pub health : String

pub record Pool : Type 0 where
  pub entries : List Entry
  pub next : ℕ

pub has_raw : String → List Entry → Bool
has_raw raw [] = false
has_raw raw (e ∷ es) = let later = has_raw raw es in if str_eq e.raw raw then true else later

abbrev pub new_entry : String → Entry
new_entry raw = record { raw = raw; failures = 0; cooldown = 0; last_error = ""; health = "" }

-- The loop of NewPool; `valid` says that New makes clients for a proxy. The entries so far are the
-- map `seen`.
pub new_entries : (String → Bool) → List String → List Entry → Option (List Entry)
new_entries valid [] es = some es
new_entries valid (v ∷ vs) es =
    let kept = new_entries valid vs es in
    let added = new_entries valid vs (es ++ new_entry v ∷ []) in
    if str_eq v "" then kept else if has_raw v es then kept else if valid v then added else none

-- The loop of pick: `left` entries are still to be looked at, the next one `i` places after `next`.
-- It answers the entry and the new `next`.
pub scan : List Entry → ℕ → ℕ → ℕ → ℕ → Option (Entry × ℕ)
scan es next now zero i = none
scan es next now (suc left) i =
    let later = scan es next now left (i + 1) in
    elim (get_elem? es ((next + i) % length es)) [
      | none ↦ none
      | some e ↦ if ltb now e.cooldown then later else some (e, (next + i + 1) % length es)
    ]

-- The end of pick, where every entry cools down.
pub fallback : List Entry → ℕ → Option (Entry × ℕ)
fallback es next = elim (get_elem? es (next % length es)) [
  | none ↦ none
  | some e ↦ some (e, (next + 1) % length es)
]

pub choose : List Entry → ℕ → ℕ → Option (Entry × ℕ)
choose [] next now = none
choose (e ∷ es) next now = elim (scan (e ∷ es) next now (length (e ∷ es)) 0) [
  | some found ↦ some found
  | none ↦ fallback (e ∷ es) next
]

pub pick : Pool → ℕ → Option (Entry × Pool)
pick p now = elim (choose p.entries p.next now) [
  | none ↦ none
  | some (e, next) ↦ some (e, record p { next = next })
]

pub remove_first : String → List Entry → List Entry
remove_first raw [] = []
remove_first raw (e ∷ es) =
    let rest = remove_first raw es in if str_eq e.raw raw then es else e ∷ rest

-- Remove
pub remove : Pool → String → Pool
remove p raw = record p { entries = remove_first raw p.entries }
