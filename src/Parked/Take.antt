-- ===== src/Parked/Take.antt =====
-- What Take answers, and how many connections are kept for a key (internal/chathub/connpool.go).
use m365_copilot2api_docker.Base.{
  ℕ, ◌+◌, ◌≤◌, ◌≡◌, refl, String, Bool, true, false, Option, none, some, List, [], ◌∷◌, ◌++◌, ◌&&◌,
  not, str_eq, if◌then◌else◌, arith, select, eq_iff,
}
use m365_copilot2api_docker.Parked.{
  Conn, Pool, max_pool_per_key, count_key, sort_out, take, warm, remove_socket, evict,
  split_expired, gc, close, Event, takes, warms, breaks, collects, closes, step, run, is_ready,
}

abbrev pub of_other : String → Conn → Bool
of_other k c = not (str_eq c.key k)

abbrev pub ready_for : String → ℕ → Conn → Bool
ready_for k now c = str_eq c.key k && is_ready now c

abbrev pub first : List Conn → Option Conn
first [] = none
first (c ∷ cs) = some c

sort_out-picked :
    (k : String) (now : ℕ) (cs : List Conn)
    → (sort_out k now false cs).picked ≡ first (select (ready_for k now) cs)
unfolding sort_out
sort_out-picked k now [] = refl
sort_out-picked k now (c ∷ cs) = ground (arith, sort_out-picked k now cs)

sort_out-other :
    (k : String) (now : ℕ) (found : Bool) (cs : List Conn)
    → select (of_other k) (sort_out k now found cs).kept ≡ select (of_other k) cs
unfolding sort_out
sort_out-other k now found [] = refl
sort_out-other k now found (c ∷ cs) =
    ground (arith, sort_out-other k now true cs, sort_out-other k now false cs)

-- Take answers the first connection of its key that has shaken hands and is younger than five
-- minutes, and leaves the connections of other keys as they were.
pub take-first_ready :
    (p : Pool) (k : String) (now : ℕ)
    → ((take p k now).1 ≡ first (select (ready_for k now) p.conns))
      × (select (of_other k) (take p k now).0.conns ≡ select (of_other k) p.conns)
unfolding take
take-first_ready p k now =
    ground (arith, sort_out-picked k now p.conns, sort_out-other k now false p.conns)

count-sort_out :
    (j k : String) (now : ℕ) (found : Bool) (cs : List Conn)
    → count_key j (sort_out k now found cs).kept ≤ count_key j cs
unfolding sort_out count_key
count-sort_out j k now found [] = omega arith
count-sort_out j k now found (c ∷ cs) =
    ground (arith, count-sort_out j k now true cs, count-sort_out j k now false cs)

count-remove_socket :
    (j : String) (s : ℕ) (cs : List Conn) → count_key j (remove_socket s cs) ≤ count_key j cs
unfolding remove_socket count_key
count-remove_socket j s [] = omega arith
count-remove_socket j s (c ∷ cs) = ground (arith, count-remove_socket j s cs)

count-split_expired :
    (j : String) (now : ℕ) (cs : List Conn) → count_key j (split_expired now cs).1 ≤ count_key j cs
unfolding split_expired count_key
count-split_expired j now [] = omega arith
count-split_expired j now (c ∷ cs) = ground (arith, count-split_expired j now cs)

count-append :
    (j : String) (cs : List Conn) (c : Conn)
    → count_key j (cs ++ c ∷ []) ≡ count_key j cs + (if str_eq c.key j then 1 else 0)
unfolding count_key
count-append j [] c = ground arith
count-append j (d ∷ cs) c = ground (arith, count-append j cs c)

count-take :
    (j : String) (p : Pool) (k : String) (now : ℕ)
    → count_key j (take p k now).0.conns ≤ count_key j p.conns
unfolding take
count-take j p k now = ground (arith, count-sort_out j k now false p.conns)

-- At most two connections of a key.
abbrev pub IsSmall : Pool → String → Type 0
IsSmall p j = count_key j p.conns ≤ max_pool_per_key

step-IsSmall : (p : Pool) (e : Event) (j : String) → IsSmall p j → IsSmall (step p e) j
unfolding step warm evict gc close count_key
step-IsSmall p (takes k now) j h = omega (arith, count-take j p k now)
step-IsSmall p (warms k now ready) j h =
    let c : Conn = record { key = k; socket = p.opened; created = now; handshook = true } in
    ground (arith, count-append j p.conns c, eq_iff k j)
step-IsSmall p (breaks s) j h = ground (arith, count-remove_socket j s p.conns)
step-IsSmall p (collects now) j h = ground (arith, count-split_expired j now p.conns)
step-IsSmall p closes j h = omega arith

-- Whatever happens to a pool with at most two connections of a key, and however Warm calls for one key overlap, at most two connections are kept
-- for a key.
pub run-IsSmall : (p : Pool) (es : List Event) (j : String) → IsSmall p j → IsSmall (run p es) j
unfolding run
run-IsSmall p [] j h = h
run-IsSmall p (e ∷ es) j h = run-IsSmall (step p e) es j (step-IsSmall p e j h)
