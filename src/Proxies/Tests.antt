-- ===== src/Proxies/Tests.antt =====
-- Runs of the proxy pool, and instances of its theorems.
use m365_copilot2api_docker.Base.{
  ℕ, ◌+◌, ◌*◌, contains, zero, ◌≡◌, ◌≢◌, refl, String, true, false, none, some, List, [], ◌∷◌,
  second,
}
use m365_copilot2api_docker.Proxies.{
  Entry, Pool, pick, choose, scan, has_raw, new_entries, remove, remove_first,
}
use m365_copilot2api_docker.Proxies.Mark.{
  Error, is_proxy_error, mark, proxy_base_duration, mark_entry, update_first, backoff, check,
  answered, set_health,
}
use m365_copilot2api_docker.Proxies.Rotation.{Turn, round_robin}
use m365_copilot2api_docker.Proxies.Cooling.{run, marked, picked, removed, Event}
use m365_copilot2api_docker.Proxies.Replay.{
  replayable, Outcome, responded, failed, response, round_trip, begin_replay, replay, settle,
}

abbrev entry : String → ℕ → Entry
entry raw cooldown = record {
  raw = raw;
  failures = 0;
  cooldown = cooldown;
  last_error = "";
  health = "";
}

abbrev two : Pool
two = record { entries = entry "socks5://a" 9 ∷ entry "socks5://b" 0 ∷ []; next = 0 }

abbrev two_next : Pool
two_next = record { entries = entry "socks5://a" 9 ∷ entry "socks5://b" 0 ∷ []; next = 0 }

abbrev refused : Error
refused = record { text = "Connection refused"; lowered = "connection refused" }

abbrev quota : Error
quota = record { text = "QUOTA_429: timeout"; lowered = "quota_429: timeout" }

picks_second : pick two 5 ≡ some (entry "socks5://b" 0, two_next)
unfolding pick choose scan
picks_second = refl

errors : (is_proxy_error refused ≡ true) × (is_proxy_error quota ≡ false)
unfolding is_proxy_error contains
errors = (refl, refl)

cools_down :
    (mark two 100 "socks5://a" (some refused)).entries
    ≡ record {
      raw = "socks5://a";
      failures = 1;
      cooldown = 100 + 15 * second;
      last_error = "Connection refused";
      health = "cooldown";
    }
      ∷ entry "socks5://b" 0
      ∷ []
unfolding mark update_first mark_entry is_proxy_error proxy_base_duration backoff contains
cools_down = refl

checks_out : (check two 100 "socks5://b" (answered 503)).1 ≡ false
unfolding check has_raw mark update_first mark_entry set_health
checks_out = refl

round_robin_example :
    (two_next.entries ≡ two.entries) × Turn two.entries 0 5 (entry "socks5://b" 0, 0)
round_robin_example = round_robin two 5 (entry "socks5://b" 0) two_next picks_second

abbrev history : List Event
history = marked 7 "socks5://a" none ∷ picked 1 ∷ removed 1 "socks5://b" ∷ []

left_one : (run 0 two history).1.entries ≢ []
unfolding pick choose scan mark update_first mark_entry remove remove_first
left_one = λ e. cc

made :
    new_entries (λ v. true) ("socks5://a" ∷ "" ∷ "socks5://a" ∷ []) []
    ≡ some (entry "socks5://a" 0 ∷ [])
unfolding new_entries has_raw
made = refl

-- The first attempt fails, and later ones succeed.
abbrev flaky : ℕ → String → Outcome ℕ
flaky zero raw = failed refused
flaky n raw = responded 200

replays : (round_trip flaky two 5 "socks5://a" replayable).0 ≡ response 200
unfolding round_trip begin_replay replay settle pick choose scan mark update_first mark_entry
    is_proxy_error proxy_base_duration backoff contains
replays = refl

abbrev after_failure : Pool
after_failure = record {
  entries =
      record {
        raw = "socks5://a";
        failures = 1;
        cooldown = 5 + 15 * second;
        last_error = "Connection refused";
        health = "cooldown";
      }
      ∷ entry "socks5://b" 0
      ∷ [];
  next = 0;
}

other_picked :
    pick (mark two 5 "socks5://a" (some refused)) 5 ≡ some (entry "socks5://b" 0, after_failure)
unfolding pick choose scan mark update_first mark_entry is_proxy_error proxy_base_duration backoff
    contains
other_picked = refl
