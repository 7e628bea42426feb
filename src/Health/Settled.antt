-- ===== src/Health/Settled.antt =====
-- A question whether an account is available changes no answer (internal/web/account_health.go).
use m365_copilot2api_docker.Base.{ℕ, ◌≡◌, refl, String, arith, eq_iff, eq_refl}
use m365_copilot2api_docker.Dict.{get, remove, get-remove}
use m365_copilot2api_docker.Circuit.{Circuit, is_open}
use m365_copilot2api_docker.Health.{Health, holds, cleanup, forget_cooldown}
use m365_copilot2api_docker.Health.Queries.{available}

cleanup-cooldown :
    (id j : String) (now : ℕ) (h : Health)
    → get (cleanup j now (cleanup id now h)).cooldown j ≡ get (cleanup j now h).cooldown j
unfolding cleanup forget_cooldown
cleanup-cooldown id j now h = ground (
  arith,
  get-remove h.cooldown id j,
  get-remove h.cooldown j j,
  get-remove (remove h.cooldown id) j j,
  eq_iff id j,
  eq_refl j,
)

cleanup-auth_fail :
    (id j : String) (now : ℕ) (h : Health)
    → holds (cleanup j now (cleanup id now h)).auth_fail j ≡ holds (cleanup j now h).auth_fail j
unfolding cleanup forget_cooldown
cleanup-auth_fail id j now h = ground (
  arith,
  get-remove h.cooldown id j,
  get-remove h.auth_fail id j,
  get-remove h.auth_fail j j,
  get-remove (remove h.auth_fail id) j j,
  eq_iff id j,
  eq_refl j,
)

is_open-settled : (now : ℕ) (c : Circuit) → (is_open now (is_open now c).1).0 ≡ (is_open now c).0
unfolding is_open
is_open-settled now c = ground arith

pub available-settled :
    (id j : String) (now : ℕ) (h : Health) (c : Circuit)
    → (available j now (available id now (h, c)).1).0 ≡ (available j now (h, c)).0
unfolding available
available-settled id j now h c =
    rw (cleanup-cooldown id j now h, cleanup-auth_fail id j now h, is_open-settled now c) refl
