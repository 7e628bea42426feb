-- ===== src/Parked/Tests.antt =====
-- Runs of the connection pool, and instances of its theorems.
use m365_copilot2api_docker.Base.{◌*◌, ◌≡◌, refl, true, some, List, [], ◌∷◌, second, arith}
use m365_copilot2api_docker.Parked.{
  Pool, empty_pool, take, warm, sort_out, count_key, run, Event, takes, warms, step,
}
use m365_copilot2api_docker.Parked.Sockets.{Sound, run-Sound, IsOpenWhenPicked}
use m365_copilot2api_docker.Parked.Take.{IsSmall}

abbrev busy : List Event
busy =
    warms "a" 10 true
    ∷ warms "a" 11 true
    ∷ warms "a" 12 true
    ∷ warms "b" 12 true
    ∷ takes "a" 13
    ∷ []

after_busy : run empty_pool busy ≡ record {
  conns =
      record { key = "a"; socket = 1; created = 11; handshook = true }
      ∷ record { key = "b"; socket = 3; created = 12; handshook = true }
      ∷ [];
  closed = 2 ∷ [];
  handed = 0 ∷ [];
  opened = 4;
}
unfolding run step take warm sort_out count_key
after_busy = refl

run-Sound_example :
    Sound (run empty_pool busy) 0 × IsOpenWhenPicked (take (run empty_pool busy) "a" 20) 0
run-Sound_example = run-Sound busy "a" 20 0

none_yet : IsSmall empty_pool "a"
unfolding count_key
none_yet = omega arith

abbrev held : Pool
held = record {
  conns =
      record { key = "a"; socket = 0; created = 0; handshook = true }
      ∷ record { key = "a"; socket = 1; created = 100 * second; handshook = true }
      ∷ [];
  closed = [];
  handed = [];
  opened = 2;
}

takes_second :
    (take held "a" (301 * second)).1
    ≡ some (record { key = "a"; socket = 1; created = 100 * second; handshook = true })
unfolding take sort_out
takes_second = refl
