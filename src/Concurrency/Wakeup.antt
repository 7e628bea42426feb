-- ===== src/Concurrency/Wakeup.antt =====
-- No wake-up is lost (the loop of Acquire, internal/web/account_concurrency.go).
use m365_copilot2api_docker.Base.{
  ℕ, ◌+◌, ◌≤◌, ◌<◌, ◌≡◌, ◌≢◌, refl, String, none, List, [], ◌∷◌, arith, eq_iff,
}
use m365_copilot2api_docker.Dict.{get-put}
use m365_copilot2api_docker.Concurrency.{
  Limiter, count_of, acquire, give_back, release, Event, acquires, releases, step, run,
}

-- `changed` never goes back, and while it stays no counter falls and the limit stays.
record Later (id : String) (c d : Limiter) : Type 0 where
  grows : c.changed ≤ d.changed
  kept : (c.changed ≡ d.changed) → count_of c id ≤ count_of d id
  limit : c.limit ≡ d.limit

acquire-Later : (c : Limiter) (a id : String) → Later id c (step c (acquires a))
unfolding step acquire
acquire-Later c a id = ground (arith, get-put c.inflight a (count_of c a + 1) id, eq_iff a id)

release-Later : (c : Limiter) (i : ℕ) (id : String) → Later id c (step c (releases i))
unfolding step release give_back
release-Later c i id = ground arith

step-Later : (c : Limiter) (e : Event) (id : String) → Later id c (step c e)
step-Later c (acquires a) id = acquire-Later c a id
step-Later c (releases i) id = release-Later c i id

run-Later : (c : Limiter) (es : List Event) (id : String) → Later id c (run c es)
unfolding run
run-Later c [] id = record { grows = omega arith; kept = λ e. omega arith; limit = refl }
run-Later c (e ∷ es) id =
    let first = step-Later c e id in
    let rest = run-Later (step c e) es id in ground (arith, first, rest)

-- If a caller waits for an account and later one may acquire it, then the channel that the caller
-- waits on has been closed meanwhile.
pub waiter_woken :
    (c : Limiter) (es : List Event) (id : String)
    → acquire c id ≡ none
    → acquire (run c es) id ≢ none
    → c.changed < (run c es).changed
unfolding acquire
waiter_woken c es id waits free = grind (arith, run-Later c es id)
