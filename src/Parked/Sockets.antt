-- ===== src/Parked/Sockets.antt =====
-- No connection is used twice or after it is closed, and none is lost
-- (internal/chathub/connpool.go).
use m365_copilot2api_docker.Base.{
  ℕ, suc, ◌+◌, ◌-◌, ◌≤◌, ◌<◌, ◌≡◌, refl, String, Bool, true, false, Option, none, some, List, [],
  ◌∷◌, ◌++◌, ◌==◌, if◌then◌else◌, arith, ◌⊎◌,
}
use m365_copilot2api_docker.Parked.{
  Conn, Pool, empty_pool, sort_out, take, warm, remove_socket, evict, split_expired, gc, close,
  sockets, Event, takes, warms, breaks, collects, closes, step, run,
}

-- How often a number stands in a list.
unfoldable pub count : ℕ → List ℕ → ℕ
count s [] = 0
count s (x ∷ xs) = let rest = count s xs in if x == s then suc rest else rest

count-append : (s : ℕ) (xs ys : List ℕ) → count s (xs ++ ys) ≡ count s xs + count s ys
unfolding count
count-append s [] ys = omega arith
count-append s (x ∷ xs) ys = ground (arith, count-append s xs ys)

abbrev pooled : ℕ → List Conn → ℕ
pooled s cs = count s (sockets cs)

pooled-append : (s : ℕ) (cs ds : List Conn) → pooled s (cs ++ ds) ≡ pooled s cs + pooled s ds
unfolding count
pooled-append s [] ds = omega arith
pooled-append s (c ∷ cs) ds = ground (arith, pooled-append s cs ds)

abbrev pub picked_socket : Option Conn → List ℕ
picked_socket none = []
picked_socket (some c) = c.socket ∷ []

-- Once one is picked, no other is.
sort_out-found : (k : String) (now : ℕ) (cs : List Conn) → (sort_out k now true cs).picked ≡ none
unfolding sort_out
sort_out-found k now [] = refl
sort_out-found k now (c ∷ cs) = ground (arith, sort_out-found k now cs)

-- Take sorts each connection into one place.
pooled-sort_out :
    (k : String) (now : ℕ) (found : Bool) (cs : List Conn) (s : ℕ)
    → count s (picked_socket (sort_out k now found cs).picked)
        + count s (sort_out k now found cs).stale
        + pooled s (sort_out k now found cs).kept
      ≡ pooled s cs
unfolding sort_out count
pooled-sort_out k now found [] s = omega arith
pooled-sort_out k now found (c ∷ cs) s = ground (
  arith,
  pooled-sort_out k now false cs s,
  pooled-sort_out k now true cs s,
  sort_out-found k now cs,
)

pooled-split_expired :
    (now : ℕ) (cs : List Conn) (s : ℕ)
    → count s (split_expired now cs).0 + pooled s (split_expired now cs).1 ≡ pooled s cs
unfolding split_expired count
pooled-split_expired now [] s = omega arith
pooled-split_expired now (c ∷ cs) s = ground (arith, pooled-split_expired now cs s)

pooled-remove_socket :
    (r s : ℕ) (cs : List Conn)
    → pooled s (remove_socket r cs) ≡ pooled s cs - (if r == s then 1 else 0)
unfolding remove_socket count
pooled-remove_socket r s [] = ground arith
pooled-remove_socket r s (c ∷ cs) = ground (arith, pooled-remove_socket r s cs)

-- A connection stands in the pool or was handed out, once and not both; one that stands in the
-- pool is not closed; and one that was dialled is in the pool, handed out or closed.
abbrev pub Sound : Pool → ℕ → Type 0
Sound p s =
    (count s (sockets p.conns) + count s p.handed ≤ 1)
    × ((count s (sockets p.conns) ≡ 0) ⊎ (count s p.closed ≡ 0))
    × ((p.opened ≤ s) ⊎ (0 < count s (sockets p.conns) + count s p.handed + count s p.closed))
    × ((s < p.opened) ⊎ (count s (sockets p.conns) + count s p.handed + count s p.closed ≡ 0))

take-Sound : (p : Pool) (k : String) (now s : ℕ) → Sound p s → Sound (take p k now).0 s
unfolding take count
take-Sound p k now s h = ground (
  arith,
  pooled-sort_out k now false p.conns s,
  count-append s p.closed (sort_out k now false p.conns).stale,
)

warm-Sound :
    (p : Pool) (k : String) (now : ℕ) (ready : Bool) (s : ℕ)
    → Sound p s
    → Sound (warm p k now ready) s
unfolding warm count
warm-Sound p k now ready s h =
    let c : Conn = record { key = k; socket = p.opened; created = now; handshook = true } in
    ground (arith, pooled-append s p.conns (c ∷ []))

evict-Sound : (p : Pool) (r s : ℕ) → r < p.opened → Sound p s → Sound (evict p r) s
unfolding evict count
evict-Sound p r s lt h = ground (arith, pooled-remove_socket r s p.conns)

gc-Sound : (p : Pool) (now s : ℕ) → Sound p s → Sound (gc p now) s
unfolding gc
gc-Sound p now s h = ground (
  arith,
  pooled-split_expired now p.conns s,
  count-append s p.closed (split_expired now p.conns).0,
)

close-Sound : (p : Pool) (s : ℕ) → Sound p s → Sound (close p) s
unfolding close count
close-Sound p s h = ground (arith, count-append s p.closed (sockets p.conns))

step-Sound : (p : Pool) (e : Event) (s : ℕ) → Sound p s → Sound (step p e) s
unfolding step
step-Sound p (takes k now) s h = take-Sound p k now s h
step-Sound p (warms k now ready) s h = warm-Sound p k now ready s h
step-Sound p (breaks r) s h = ground (arith, evict-Sound p r s)
step-Sound p (collects now) s h = gc-Sound p now s h
step-Sound p closes s h = close-Sound p s h

run_from : (p : Pool) (es : List Event) (s : ℕ) → Sound p s → Sound (run p es) s
unfolding run
run_from p [] s h = h
run_from p (e ∷ es) s h = run_from (step p e) es s (step-Sound p e s h)

-- A connection that Take picks is not closed when it does.
abbrev pub IsOpenWhenPicked : Pool × Option Conn → ℕ → Type 0
IsOpenWhenPicked out s = (count s (picked_socket out.1) ≡ 0) ⊎ (count s out.0.closed ≡ 0)

take-IsOpenWhenPicked :
    (p : Pool) (k : String) (now s : ℕ) → Sound p s → IsOpenWhenPicked (take p k now) s
unfolding take count
take-IsOpenWhenPicked p k now s h = ground (
  arith,
  pooled-sort_out k now false p.conns s,
  count-append s p.closed (sort_out k now false p.conns).stale,
  h,
)

-- Whatever happens to a new pool, each connection is in the pool or handed out once at most, is not
-- in the pool once it is closed, and is never lost: one that was dialled is in the pool, was handed
-- out or was closed; and one that the next Take picks was not closed before. It may be closed between
-- that moment and the return of Take, where it breaks meanwhile.
pub run-Sound :
    (es : List Event) (k : String) (now s : ℕ)
    → Sound (run empty_pool es) s × IsOpenWhenPicked (take (run empty_pool es) k now) s
unfolding count
run-Sound es k now s =
    let h = run_from empty_pool es s (ground arith) in
    (h, take-IsOpenWhenPicked (run empty_pool es) k now s h)
