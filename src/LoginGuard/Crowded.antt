-- ===== src/LoginGuard/Crowded.antt =====
-- What happens where the entries of the guard are full (internal/web/admin_security.go).
use m365_copilot2api_docker.Base.{
  ℕ, ◌≤◌, ◌≡◌, ◌≢◌, refl, String, true, false, none, some, [], ◌∷◌, not, or_zero, length, arith,
  eq_iff, eq_refl,
}
use m365_copilot2api_docker.Dict.{get, remove, retain, get-put, get-remove, IsDict, remove_absent}
use m365_copilot2api_docker.LoginGuard.{
  Guard, no_attempt, is_stale, login_allowed, oldest, drop_oldest, make_room, with_failure,
  record_failure,
}

-- No entry is old enough to be deleted.
abbrev pub AllFresh : ℕ → Guard → Type 0
AllFresh now [] = Unit
AllFresh now ((k, a) ∷ g) = (is_stale now a ≡ false) × AllFresh now g

retain_fresh :
    (now : ℕ) (g : Guard) → IsDict g → AllFresh now g → retain (λ k a. not (is_stale now a)) g ≡ g
unfolding retain
retain_fresh now [] d h = refl
retain_fresh now ((k, a) ∷ g) d h = rw (h.0, retain_fresh now g d.1 h.1, remove_absent g k d.0) refl

crowded_room :
    (bound now : ℕ) (attacker victim : String) (g : Guard)
    → IsDict g
    → AllFresh now g
    → bound ≤ length g
    → get g attacker ≡ none
    → (oldest g).0 ≡ some victim
    → make_room bound attacker now g ≡ remove g victim
unfolding make_room drop_oldest
crowded_room bound now attacker victim g d fresh full new old =
    rw (retain_fresh now g d fresh) (ground (arith, full, new, old))

-- Where the entries are full, each belongs to one address and none is old enough to be deleted, a
-- failure of an address without an entry deletes the entry whose window began first: the address of
-- that entry may log in again at once, however long it was locked for.
pub lock_evicted :
    (bound now later : ℕ) (attacker victim : String) (g : Guard)
    → IsDict g
    → AllFresh now g
    → bound ≤ length g
    → get g attacker ≡ none
    → (oldest g).0 ≡ some victim
    → attacker ≢ victim
    → (login_allowed victim later (record_failure bound attacker now g)).1 ≡ true
unfolding login_allowed record_failure
lock_evicted bound now later attacker victim g d fresh full new old other =
    let gone : get (remove g victim) victim ≡ none =
      ground (arith, get-remove g victim victim, eq_refl victim) in
    rw (crowded_room bound now attacker victim g d fresh full new old) (
      ground (
        arith,
        gone,
        other,
        eq_iff attacker victim,
        get-put (remove g victim) attacker
            (with_failure now (or_zero no_attempt (get (remove g victim) attacker))) victim,
      ))
