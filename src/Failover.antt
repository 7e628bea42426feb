-- ===== src/Failover.antt =====
-- The choice of an account (accountAvailable, internal/web/account_concurrency.go, and
-- nextHealthyAccount, internal/web/server.go).
pub mod Probing
mod Tests
use m365_copilot2api_docker.Base.{
  ℕ, zero, suc, String, Bool, true, false, Option, none, some, ◌&&◌, not, str_eq, if◌then◌else◌,
}
use m365_copilot2api_docker.Circuit.{Circuit}
use m365_copilot2api_docker.Health.{Health}
use m365_copilot2api_docker.Health.Queries.{available}
use m365_copilot2api_docker.Concurrency.{Limiter, available as has_room}
use m365_copilot2api_docker.Accounts.{
  Account, Store, Validity, schedule_enabled, next_account, ensure_valid,
}

-- What the choice reads and changes of the server.
pub record Gateway : Type 0 where
  pub store : Store
  pub health : Health
  pub circuit : Circuit
  pub limiter : Limiter

-- accountAvailable
unfoldable pub account_available : String → ℕ → Gateway → Bool × Gateway
account_available id now g =
    let (ok, hc) = available id now (g.health, g.circuit) in
    if schedule_enabled id g.store
    then (ok && has_room g.limiter id, record g { health = hc.0; circuit = hc.1 })
    else (false, g)

-- The answer: an error, or what EnsureValid says of an account.
pub data Choice : Type 0 where
  no_accounts none_healthy : Choice
  checked : Account → Validity → Choice

abbrev pub is_avoided : String → Account → Bool
is_avoided avoid a = not (str_eq avoid "") && str_eq a.id avoid

-- One round of nextHealthyAccount; `later` are the rounds after it.
unfoldable pub probe :
    Option Account → String → ℕ → (Gateway → Choice × Gateway) → Gateway → Choice × Gateway
probe none avoid now later g = (no_accounts, g)
probe (some a) avoid now later g =
    let asked = account_available a.id now g in
    let (s, v) = ensure_valid now a.id asked.1.store in
    if is_avoided avoid a
    then later g
    else if asked.0
    then (checked a v, record asked.1 { store = s })
    else later asked.1

-- The rounds of nextHealthyAccount.
unfoldable pub probes : ℕ → String → ℕ → Gateway → Choice × Gateway
probes zero avoid now g = (none_healthy, g)
probes (suc f) avoid now g =
    probe (next_account g.store).1 avoid now (λ g1. probes f avoid now g1)
      (record g { store = (next_account g.store).0 })

-- nextHealthyAccount, with maxAccountProbe rounds
pub next_healthy_account : String → ℕ → Gateway → Choice × Gateway
next_healthy_account avoid now g = probes 16 avoid now g
