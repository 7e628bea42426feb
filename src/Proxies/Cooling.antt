-- ===== src/Proxies/Cooling.antt =====
-- Cooldowns of proxies end, and failures that are not the proxy's do not begin one
-- (internal/outbound/pool.go).
use m365_copilot2api_docker.Base.{
  ℕ, ◌+◌, ◌*◌, ◌≤◌, ◌≡◌, ◌≢◌, refl, String, false, Option, none, some, List, [], ◌∷◌, All, arith,
  second, minute, map, get_elem?,
}
use m365_copilot2api_docker.Proxies.{Entry, Pool, pick, remove, remove_first}
use m365_copilot2api_docker.Proxies.Rotation.{ready_picked}
use m365_copilot2api_docker.Proxies.Mark.{
  Error, is_proxy_error, proxy_base_duration, backoff, mark_entry, update_first, mark,
}

backoff_bounds :
    (base failures : ℕ)
    → (5 * second ≤ backoff base failures) × (backoff base failures ≤ 5 * minute)
unfolding backoff
backoff_bounds base failures = ground arith

-- No entry cools down for longer than five minutes from `now`.
abbrev pub IsBounded : ℕ → Pool → Type 0
IsBounded now p = All (λ (e : Entry). e.cooldown ≤ now + 5 * minute) p.entries

mark_entry-bound :
    (now : ℕ) (err : Option Error) (e : Entry)
    → e.cooldown ≤ now + 5 * minute
    → (mark_entry now err e).cooldown ≤ now + 5 * minute
unfolding mark_entry
mark_entry-bound now none e h = omega arith
mark_entry-bound now (some err) e h =
    ground (arith, backoff_bounds (proxy_base_duration err) (e.failures + 1))

update_first-bound :
    (now : ℕ) (err : Option Error) (raw : String) (es : List Entry)
    → All (λ (e : Entry). e.cooldown ≤ now + 5 * minute) es
    → All (λ (e : Entry). e.cooldown ≤ now + 5 * minute) (update_first (mark_entry now err) raw es)
unfolding update_first
update_first-bound now err raw [] h = h
update_first-bound now err raw (e ∷ es) h =
    ground (arith, mark_entry-bound now err e h.0, update_first-bound now err raw es h.1)

remove_first-bound :
    (limit : ℕ) (raw : String) (es : List Entry)
    → All (λ (e : Entry). e.cooldown ≤ limit) es
    → All (λ (e : Entry). e.cooldown ≤ limit) (remove_first raw es)
unfolding remove_first
remove_first-bound limit raw [] h = h
remove_first-bound limit raw (e ∷ es) h = ground (arith, remove_first-bound limit raw es h.1)

later_bound :
    (es : List Entry) (a b : ℕ)
    → a ≤ b
    → All (λ (e : Entry). e.cooldown ≤ a) es
    → All (λ (e : Entry). e.cooldown ≤ b) es
later_bound [] a b le h = h
later_bound (e ∷ es) a b le h = (omega arith, later_bound es a b le h.1)

-- What happens to a pool, with the time that passes before.
pub data Event : Type 0 where
  marked : ℕ → String → Option Error → Event
  picked : ℕ → Event
  removed : ℕ → String → Event

abbrev or_same : Pool → Option (Entry × Pool) → Pool
or_same p none = p
or_same p (some (e, q)) = q

abbrev pub run : ℕ → Pool → List Event → ℕ × Pool
run now p [] = (now, p)
run now p (marked t raw err ∷ es) = run (now + t) (mark p (now + t) raw err) es
run now p (picked t ∷ es) = run (now + t) (or_same p (pick p (now + t))) es
run now p (removed t raw ∷ es) = run (now + t) (remove p raw) es

pick-bound :
    (limit now : ℕ) (p : Pool)
    → All (λ (e : Entry). e.cooldown ≤ limit) p.entries
    → All (λ (e : Entry). e.cooldown ≤ limit) (or_same p (pick p now)).entries
unfolding pick
pick-bound limit now p h = ground arith

run-IsBounded :
    (now : ℕ) (p : Pool) (es : List Event)
    → IsBounded now p
    → IsBounded (run now p es).0 (run now p es).1
unfolding mark remove
run-IsBounded now p [] h = h
run-IsBounded now p (marked t raw err ∷ es) h =
    run-IsBounded (now + t) _ es
      (update_first-bound (now + t) err raw p.entries (later_bound p.entries _ _ (omega arith) h))
run-IsBounded now p (picked t ∷ es) h =
    run-IsBounded (now + t) _ es
      (pick-bound _ (now + t) p (later_bound p.entries _ _ (omega arith) h))
run-IsBounded now p (removed t raw ∷ es) h =
    run-IsBounded (now + t) _ es
      (remove_first-bound _ raw p.entries (later_bound p.entries _ _ (omega arith) h))

first_of :
    (es : List Entry) (now : ℕ)
    → es ≢ []
    → All (λ (e : Entry). e.cooldown ≤ now) es
    → (e : Entry) × (get_elem? es 0 ≡ some e) × (e.cooldown ≤ now)
first_of [] now n h = absurd (n refl)
first_of (e ∷ es) now n h = (e, refl, h.0)

first_ready :
    (p : Pool) (now : ℕ)
    → p.entries ≢ []
    → All (λ (e : Entry). e.cooldown ≤ now) p.entries
    → (f : Entry) × (q : Pool) × (pick p now ≡ some (f, q)) × (f.cooldown ≤ now)
first_ready p now n h =
    let (e, there, ready) = first_of p.entries now n h in ready_picked p now 0 e there ready

-- Whatever happens to a pool whose cooldowns end within five minutes, five minutes later picking answers a ready proxy while one is left.
pub pool_recovers :
    (start later : ℕ) (p : Pool) (es : List Event)
    → IsBounded start p
    → (run start p es).1.entries ≢ []
    → (run start p es).0 + 5 * minute ≤ later
    → (f : Entry) × (q : Pool) × (pick (run start p es).1 later ≡ some (f, q))
      × (f.cooldown ≤ later)
pool_recovers start later p es h n le =
    first_ready (run start p es).1 later n (later_bound _ _ _ le (run-IsBounded start p es h))

-- What an entry is known by and picked by.
abbrev pub Standing : Type 0
Standing = String × ℕ × ℕ × String

abbrev pub standing : Entry → Standing
standing e = (e.raw, e.failures, e.cooldown, e.health)

update_first-same :
    (f : Entry → Entry) (raw : String) (es : List Entry)
    → ((e : Entry) → standing (f e) ≡ standing e)
    → map standing (update_first f raw es) ≡ map standing es
unfolding update_first
update_first-same f raw [] h = refl
update_first-same f raw (e ∷ es) h = ground (arith, h e, update_first-same f raw es h)

-- An error that is not the proxy's leaves the failures, the cooldown and the health of every entry.
pub foreign_error_isolated :
    (p : Pool) (now : ℕ) (raw : String) (err : Error)
    → is_proxy_error err ≡ false
    → map standing (mark p now raw (some err)).entries ≡ map standing p.entries
unfolding mark mark_entry
foreign_error_isolated p now raw err h =
    update_first-same (mark_entry now (some err)) raw p.entries (λ e. ground (arith, h))
