-- ===== src/LoginGuard/Tests.antt =====
-- Runs of the guard of logins, and instances of its theorems.
use m365_copilot2api_docker.Base.{
  ◌+◌, ◌*◌, ◌≡◌, refl, true, false, none, List, [], ◌∷◌, not, ltb, minute, arith, eq_iff,
}
use m365_copilot2api_docker.Dict.{get}
use m365_copilot2api_docker.LoginGuard.{
  Attempt, Guard, oldest, login_allowed, record_failure, Event, fails, asks, clears, run,
}
use m365_copilot2api_docker.LoginGuard.Alone.{own, alone_run, run-alone}
use m365_copilot2api_docker.LoginGuard.Locked.{five_failures_lock}
use m365_copilot2api_docker.LoginGuard.Crowded.{lock_evicted}

abbrev mixed : List Event
mixed =
    asks "a" 1
    ∷ fails "a" 2
    ∷ asks "a" 2
    ∷ fails "a" 3
    ∷ fails "b" 3
    ∷ asks "b" 3
    ∷ asks "a" 3
    ∷ fails "a" 4
    ∷ clears "b"
    ∷ asks "a" 4
    ∷ fails "a" 5
    ∷ asks "a" 5
    ∷ fails "a" 6
    ∷ []

run-alone_example : get (run 4096 mixed []) "b" ≡ alone_run none (own "b" mixed)
unfolding get
run-alone_example = run-alone 4096 mixed [] "b" (omega arith)

five_failures_lock_example :
    (login_allowed "a" 7 (run 4096 mixed [])).1 ≡ not (ltb 7 (6 + 15 * minute))
unfolding get own
five_failures_lock_example =
    five_failures_lock 4096 mixed [] "a" (λ i. i + 1) (λ i. i + 2) 7 (omega arith) refl refl
      (omega arith) (λ i lt. omega arith) (λ i lt. omega arith)

abbrev locked : Attempt
locked = record { failures = 5; window_start = 1; locked_until = 5 + 15 * minute }

abbrev fresh : Attempt
fresh = record { failures = 1; window_start = 3; locked_until = 0 }

abbrev full : Guard
full = ("a", locked) ∷ ("b", fresh) ∷ []

refused : (login_allowed "a" 8 full).1 ≡ false
unfolding login_allowed get
refused = refl

lock_evicted_example : (login_allowed "a" 8 (record_failure 2 "c" 7 full)).1 ≡ true
unfolding get oldest
lock_evicted_example =
    lock_evicted 2 7 8 "c" "a" full (refl, (refl, tt)) (refl, (refl, tt)) (omega arith) refl refl
      (λ same. absurd (ground (arith, same, eq_iff "c" "a")))
