-- ===== src/LoginGuard/Alone.antt =====
-- While there is room, addresses do not disturb each other (internal/web/admin_security.go).
use m365_copilot2api_docker.Base.{
  ℕ, suc, ◌+◌, ◌≤◌, ◌<◌, ◌≡◌, refl, String, Option, none, some, List, [], ◌∷◌, ltb, str_eq,
  if◌then◌else◌, or_zero, length, arith, eq_iff, Bool-cases, inl, inr, ◌∙◌, ap,
}
use m365_copilot2api_docker.Dict.{get, put, remove, get-put, get-remove}
use m365_copilot2api_docker.LoginGuard.{
  Attempt, Guard, no_attempt, is_over, login_allowed, make_room, with_failure, record_failure,
  Event, fails, asks, clears, step, run,
}

-- The address of an event.
abbrev pub who : Event → String
who (fails ip now) = ip
who (asks ip now) = ip
who (clears ip) = ip

-- The events of an address.
unfoldable pub own : String → List Event → List Event
own ip [] = []
own ip (e ∷ es) = let later = own ip es in if str_eq (who e) ip then e ∷ later else later

-- The entry of one address, as if there were no other.
unfoldable pub alone : Option Attempt → Event → Option Attempt
alone o (fails ip now) = some (with_failure now (or_zero no_attempt o))
alone o (asks ip now) =
    let a = or_zero no_attempt o in
    if ltb now a.locked_until then o else if is_over now a then none else o
alone o (clears ip) = none

unfoldable pub alone_run : Option Attempt → List Event → Option Attempt
alone_run o [] = o
alone_run o (e ∷ es) = alone_run (alone o e) es

length-remove_most : (g : Guard) (k : String) → length (remove g k) ≤ length g
unfolding remove
length-remove_most [] k = omega arith
length-remove_most ((j, a) ∷ g) k = ground (arith, length-remove_most g k)

make_room-enough :
    (bound : ℕ) (ip : String) (now : ℕ) (g : Guard)
    → length g < bound
    → make_room bound ip now g ≡ g
unfolding make_room
make_room-enough bound ip now g h = ground (arith, h)

length-step :
    (bound : ℕ) (e : Event) (g : Guard)
    → length g < bound
    → length (step bound e g) ≤ suc (length g)
unfolding step record_failure put login_allowed
length-step bound (fails ip now) g h =
    rw (make_room-enough bound ip now g h) (omega (arith, length-remove_most g ip))
length-step bound (asks ip now) g h = ground (arith, length-remove_most g ip)
length-step bound (clears ip) g h = omega (arith, length-remove_most g ip)

get-step :
    (bound : ℕ) (e : Event) (g : Guard) (ip : String)
    → length g < bound
    → get (step bound e g) ip ≡ (if str_eq (who e) ip then alone (get g ip) e else get g ip)
unfolding step record_failure login_allowed alone
get-step bound (fails j now) g ip h =
    rw (make_room-enough bound j now g h) (
      ground (arith, get-put g j (with_failure now (or_zero no_attempt (get g j))) ip, eq_iff j ip))
get-step bound (asks j now) g ip h = ground (arith, get-remove g j ip, eq_iff j ip)
get-step bound (clears j) g ip h = ground (arith, get-remove g j ip)

-- While the entries and the events together are at most the allowed number of entries, the entry of an
-- address is what the events of this address alone make of it.
pub run-alone :
    (bound : ℕ) (es : List Event) (g : Guard) (ip : String)
    → length g + length es ≤ bound
    → get (run bound es g) ip ≡ alone_run (get g ip) (own ip es)
unfolding run alone_run own
run-alone bound [] g ip h = refl
run-alone bound (e ∷ es) g ip h =
    let room : length g < bound = omega (arith, h) in
    let later =
      run-alone bound es (step bound e g) ip (omega (arith, h, length-step bound e g room)) in
    elim (Bool-cases (str_eq (who e) ip)) [
      | inl mine ↦ rw mine (
          later
          ∙ ap (λ o. alone_run o (own ip es)) (ground (arith, mine, get-step bound e g ip room)))
      | inr other ↦ rw other (
          later
          ∙ ap (λ o. alone_run o (own ip es)) (ground (arith, other, get-step bound e g ip room)))
    ]
