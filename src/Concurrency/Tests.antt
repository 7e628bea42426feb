-- ===== src/Concurrency/Tests.antt =====
-- Runs of the limiter, and instances of its theorems.
use m365_copilot2api_docker.Base.{◌≡◌, refl, none, some, List, [], ◌∷◌}
use m365_copilot2api_docker.Dict.{get, put, remove}
use m365_copilot2api_docker.Concurrency.{
  Limiter, new, acquire, Event, acquires, releases, step, run,
}
use m365_copilot2api_docker.Concurrency.Counting.{IsCounted, new-IsCounted, run-IsCounted}

abbrev single : Limiter
single = new (some 1)

abbrev events : List Event
events = acquires "a" ∷ acquires "b" ∷ releases 0 ∷ acquires "a" ∷ []

run-IsCounted_example : IsCounted (run single events)
run-IsCounted_example = run-IsCounted single events (new-IsCounted (some 1))

abbrev full : Limiter
full = step single (acquires "a")

waits : acquire full "a" ≡ none
unfolding new step acquire get put remove
waits = refl
