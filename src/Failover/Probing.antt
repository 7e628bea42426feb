-- ===== src/Failover/Probing.antt =====
-- Which account is found after a failure (internal/web/server.go).
use m365_copilot2api_docker.Accounts.Turns.{in_turn}
use m365_copilot2api_docker.Base.{
  ℕ, suc, ◌<◌, ◌≡◌, ◌≢◌, String, Bool, true, false, some, length, ◌⊎◌,
}
use m365_copilot2api_docker.Accounts.{Account, ensure_valid}
use m365_copilot2api_docker.Failover.{
  Gateway, account_available, Choice, no_accounts, none_healthy, checked, is_avoided,
}

-- An account may be used: it is scheduled, healthy and below its limit.
abbrev pub is_usable : String → ℕ → Gateway → Bool
is_usable id now g = (account_available id now g).0

-- A state that stands as many places further on, and is else the same to a search.
abbrev IsAhead : ℕ → Gateway → Gateway → Type 0
IsAhead now g' g =
    ((k : ℕ) → in_turn k g'.store ≡ in_turn (suc k) g.store)
    × ((j : String) → is_usable j now g' ≡ is_usable j now g)
    × ((j : String) → (ensure_valid now j g'.store).1 ≡ (ensure_valid now j g.store).1)
    × (length g'.store.accounts ≢ 0)

-- The account in turn after `k` others may not be used, or is the one to avoid.
abbrev pub IsPassed : String → ℕ → Gateway → ℕ → Type 0
IsPassed avoid now g k =
    (a : Account) × (in_turn k g.store ≡ some a)
    × ((is_usable a.id now g ≡ false) ⊎ (is_avoided avoid a ≡ true))

-- What a search through the next `f` accounts in turn must answer: the first one that may be used
-- and is not the one to avoid, and what EnsureValid says of it; or that there is none among them.
abbrev pub IsChoice : ℕ → String → ℕ → Gateway → Choice → Type 0
IsChoice f avoid now g no_accounts = length g.store.accounts ≡ 0
IsChoice f avoid now g none_healthy = (k : ℕ) → k < f → IsPassed avoid now g k
IsChoice f avoid now g (checked a v) =
    (k : ℕ) × (k < f)
    × (in_turn k g.store ≡ some a)
    × (is_usable a.id now g ≡ true)
    × (is_avoided avoid a ≡ false)
    × ((j : ℕ) → j < k → IsPassed avoid now g j)
    × (v ≡ (ensure_valid now a.id g.store).1)
