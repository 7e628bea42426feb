-- ===== src/Failover/Tests.antt =====
-- A run of the failover, and an instance of its theorem.
use m365_copilot2api_docker.Base.{◌≡◌, refl, true, false, [], ◌∷◌}
use m365_copilot2api_docker.Dict.{get}
use m365_copilot2api_docker.Circuit.{closed, is_open}
use m365_copilot2api_docker.Health.{fresh, cleanup}
use m365_copilot2api_docker.Concurrency.{available as has_room}
use m365_copilot2api_docker.Accounts.{
  Account, schedule_enabled, first_match, refreshing, next_account, ensure_valid, get_account,
  threshold,
}
use m365_copilot2api_docker.Health.Queries.{available}
use m365_copilot2api_docker.Failover.{
  Gateway, account_available, checked, next_healthy_account, probe, probes,
}
use m365_copilot2api_docker.Failover.Probing.{is_usable}

abbrev ann : Account
ann = record {
  id = "a";
  email = "ann@x";
  display_name = "Ann";
  status = "online";
  schedule_disabled = false;
  access_token = "t";
  refresh_token = "r";
  expires_at = 0;
  updated_at = 0;
  oid = "a";
  tid = "t";
  client_id = "c";
  bound_proxy = "";
}

abbrev bob : Account
bob = record ann { id = "b"; oid = "b" }

abbrev gateway : Gateway
gateway = record {
  store = record { accounts = ann ∷ bob ∷ []; next_idx = 0 };
  health = fresh.0;
  circuit = closed;
  limiter = record { inflight = []; limit = 2; leases = []; changed = 0 };
}

bob_usable : is_usable "b" 5 gateway ≡ true
unfolding account_available schedule_enabled first_match available has_room cleanup is_open get
bob_usable = refl

-- The account to avoid is passed, and the next one is found.
finds_bob : (next_healthy_account "a" 5 gateway).0 ≡ checked bob (refreshing bob)
unfolding next_healthy_account probes probe next_account ensure_valid get_account threshold
    account_available schedule_enabled first_match available has_room cleanup is_open get
finds_bob = refl
