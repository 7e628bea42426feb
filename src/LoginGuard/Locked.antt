-- ===== src/LoginGuard/Locked.antt =====
-- Five failed logins lock an address (internal/web/admin_security.go).
use m365_copilot2api_docker.Base.{
  ℕ, suc, ◌+◌, ◌*◌, ◌≤◌, ◌<◌, ◌≡◌, refl, String, none, some, List, [], ◌∷◌, not, ltb, if◌then◌else◌,
  length, minute, arith, ◌∙◌, leb, ap,
}
use m365_copilot2api_docker.Dict.{get}
use m365_copilot2api_docker.LoginGuard.{
  Guard, no_attempt, login_allowed, with_failure, Event, fails, run, asks, Attempt,
}
use m365_copilot2api_docker.LoginGuard.Alone.{own, alone, alone_run, run-alone}

-- A failed login: the handler asks at one moment, and notes the failure at another.
abbrev failed_login : String → ℕ → ℕ → List Event → List Event
failed_login ip asked noted later = asks ip asked ∷ fails ip noted ∷ later

-- Five of them, with the moments of the questions and of the failures by their numbers from 0.
abbrev pub five : String → (ℕ → ℕ) → (ℕ → ℕ) → List Event
five ip asked noted = failed_login ip (asked 0) (noted 0) (
    failed_login ip (asked 1) (noted 1) (
      failed_login ip (asked 2) (noted 2)
        (failed_login ip (asked 3) (noted 3) (failed_login ip (asked 4) (noted 4) []))))

-- Five moments are at most 15 minutes after another one.
abbrev pub IsWithin : ℕ → (ℕ → ℕ) → Type 0
IsWithin start moment = (i : ℕ) → i < 5 → moment i ≤ start + 15 * minute

-- The failures of one address that all stand in the window of the first one.
with_first :
    (now : ℕ)
    → 0 < now
    → with_failure now no_attempt ≡ record { failures = 1; window_start = now; locked_until = 0 }
unfolding with_failure
with_first now h = ground (arith, h)

with_next :
    (start now n : ℕ)
    → 0 < start
    → now ≤ start + 15 * minute
    → with_failure now (record { failures = n; window_start = start; locked_until = 0 }) ≡ record {
      failures = suc n;
      window_start = start;
      locked_until = if leb 5 (suc n) then now + 15 * minute else 0;
    }
unfolding with_failure
with_next start now n h le = ground (arith, h, le)

asked_first : (ip : String) (now : ℕ) → alone none (asks ip now) ≡ none
unfolding alone
asked_first ip now = ground arith

-- While the window lasts and nothing is locked, asking leaves the entry.
asked_next :
    (ip : String) (start now n : ℕ)
    → 0 < start
    → now ≤ start + 15 * minute
    → let a : Attempt = record { failures = n; window_start = start; locked_until = 0 } in
      alone (some a) (asks ip now) ≡ some a
unfolding alone
asked_next ip start now n h le = ground (arith, h, le)

failed_first :
    (ip : String) (now : ℕ)
    → 0 < now
    → alone none (fails ip now)
      ≡ some (record { failures = 1; window_start = now; locked_until = 0 })
unfolding alone
failed_first ip now h = ap some (with_first now h)

failed_next :
    (ip : String) (start now n : ℕ)
    → 0 < start
    → now ≤ start + 15 * minute
    → alone (some (record { failures = n; window_start = start; locked_until = 0 })) (fails ip now)
      ≡ some (record {
        failures = suc n;
        window_start = start;
        locked_until = if leb 5 (suc n) then now + 15 * minute else 0;
      })
unfolding alone
failed_next ip start now n h le = ap some (with_next start now n h le)

five_failures :
    (ip : String) (asked noted : ℕ → ℕ)
    → 0 < noted 0
    → IsWithin (noted 0) asked
    → IsWithin (noted 0) noted
    → alone_run none (five ip asked noted)
      ≡ some (record { failures = 5; window_start = noted 0; locked_until = noted 4 + 15 * minute })
unfolding alone_run
five_failures ip asked noted pos ask note =
    let start = noted 0 in
    let asks_at : (i n : ℕ)
        → i < 5
        → let a : Attempt = record { failures = n; window_start = start; locked_until = 0 } in
          alone (some a) (asks ip (asked i)) ≡ some a =
      λ i n lt. asked_next ip start (asked i) n pos (ask i lt) in
    let one = failed_next ip start (noted 1) 1 pos (note 1 (omega arith)) in
    let two = failed_next ip start (noted 2) 2 pos (note 2 (omega arith)) in
    let three = failed_next ip start (noted 3) 3 pos (note 3 (omega arith)) in
    let four = failed_next ip start (noted 4) 4 pos (note 4 (omega arith)) in
    rw (asked_first ip (asked 0), failed_first ip start pos)
      (rw (asks_at 1 1 (omega arith), one)
        (rw (asks_at 2 2 (omega arith), two)
          (rw (asks_at 3 3 (omega arith), three) (rw (asks_at 4 4 (omega arith), four) refl))))

-- Where the entries and the events together are at most the allowed number of entries, and an address
-- without an entry fails to log in five times, each time asked for and then noted within 15 minutes of
-- its first failure, in between anything that other addresses do: it is refused exactly until 15
-- minutes after its fifth failure.
pub five_failures_lock :
    (bound : ℕ) (es : List Event) (g : Guard) (ip : String) (asked noted : ℕ → ℕ) (now : ℕ)
    → length g + length es ≤ bound
    → get g ip ≡ none
    → own ip es ≡ five ip asked noted
    → 0 < noted 0
    → IsWithin (noted 0) asked
    → IsWithin (noted 0) noted
    → (login_allowed ip now (run bound es g)).1 ≡ not (ltb now (noted 4 + 15 * minute))
unfolding login_allowed
five_failures_lock bound es g ip asked noted now room absent mine pos ask note =
    let entry : get (run bound es g) ip
        ≡ some (record {
          failures = 5;
          window_start = noted 0;
          locked_until = noted 4 + 15 * minute;
        }) =
      run-alone bound es g ip room
      ∙ (rw (absent, mine) (five_failures ip asked noted pos ask note)) in
    ground (arith, entry)
