-- ===== src/LoginGuard.antt =====
-- The limit on failed logins of the administrator, by address (loginAllowed, recordLoginFailure and
-- clearLoginFailures, internal/web/admin_security.go).
pub mod Alone
pub mod Locked
pub mod Crowded
mod Tests
use m365_copilot2api_docker.Base.{
  ℕ, suc, ◌+◌, ◌*◌, String, Bool, true, false, Option, none, some, List, [], ◌∷◌, not, ltb, leb,
  ◌==◌, ◌&&◌, ◌||◌, if◌then◌else◌, is_some, or_zero, length, minute,
}
use m365_copilot2api_docker.Dict.{Dict, get, put, remove, retain}

-- loginAttempt
pub record Attempt : Type 0 where
  pub failures : ℕ
  pub window_start : ℕ
  pub locked_until : ℕ

-- loginAttempts of the server
abbrev pub Guard : Type 0
Guard = Dict Attempt

abbrev pub no_attempt : Attempt
no_attempt = record { failures = 0; window_start = 0; locked_until = 0 }

-- The window of an attempt is over, or there is none.
abbrev pub is_over : ℕ → Attempt → Bool
is_over now a = a.window_start == 0 || ltb (a.window_start + 15 * minute) now

-- loginAllowed, without the time to wait
unfoldable pub login_allowed : String → ℕ → Guard → Guard × Bool
login_allowed ip now g =
    let a = or_zero no_attempt (get g ip) in
    if ltb now a.locked_until
    then (g, false)
    else if is_over now a
    then (remove g ip, true)
    else (g, true)

-- The test of the loop that deletes old entries.
abbrev pub is_stale : ℕ → Attempt → Bool
is_stale now a = ltb (a.window_start + 15 * minute) now && ltb a.locked_until now

-- The entry whose window began first; an address is never empty. Of equal ones Go's map may give any.
unfoldable pub oldest : Guard → Option String × ℕ
oldest [] = (none, 0)
oldest ((k, a) ∷ d) =
    let (later, start) = oldest d in
    elim later [
      | none ↦ (some k, a.window_start)
      | some j ↦ if ltb start a.window_start then (some j, start) else (some k, a.window_start)
    ]

unfoldable pub drop_oldest : Guard → Guard
drop_oldest g = elim (oldest g).0 [ none ↦ g | some k ↦ remove g k ]

-- What recordLoginFailure deletes for a new address; `bound` is the allowed number of entries.
unfoldable pub make_room : ℕ → String → ℕ → Guard → Guard
make_room bound ip now g =
    let live = retain (λ k a. not (is_stale now a)) g in
    if is_some (get g ip)
    then g
    else if ltb (length g) bound
    then g
    else if ltb (length live) bound
    then live
    else drop_oldest live

-- The attempt with one more failure.
unfoldable pub with_failure : ℕ → Attempt → Attempt
with_failure now a =
    let b : Attempt =
      if is_over now a then record { failures = 0; window_start = now; locked_until = 0 } else a in
    record b {
      failures = suc b.failures;
      locked_until = if leb 5 (suc b.failures) then now + 15 * minute else b.locked_until;
    }

unfoldable pub record_failure : ℕ → String → ℕ → Guard → Guard
record_failure bound ip now g =
    let room = make_room bound ip now g in
    put room ip (with_failure now (or_zero no_attempt (get room ip)))

-- recordLoginFailure
pub record_login_failure : String → ℕ → Guard → Guard
record_login_failure = record_failure 4096

-- clearLoginFailures
abbrev pub clear_login_failures : String → Guard → Guard
clear_login_failures ip g = remove g ip

-- What addresses do, and when.
pub data Event : Type 0 where
  fails asks : String → ℕ → Event
  clears : String → Event

unfoldable pub step : ℕ → Event → Guard → Guard
step bound (fails ip now) g = record_failure bound ip now g
step bound (asks ip now) g = (login_allowed ip now g).0
step bound (clears ip) g = clear_login_failures ip g

unfoldable pub run : ℕ → List Event → Guard → Guard
run bound [] g = g
run bound (e ∷ es) g = run bound es (step bound e g)
