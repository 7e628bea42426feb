-- ===== src/Parked.antt =====
-- The pool of connections that are kept ready (ConnPool, internal/chathub/connpool.go). A
-- connection is its number; the map of lists is one list whose elements carry their key, so the list
-- of a key is what the list has of it, in order.
pub mod Sockets
pub mod Take
mod Tests
use m365_copilot2api_docker.Base.{
  ℕ, zero, suc, ◌+◌, ◌-◌, ◌*◌, String, Bool, true, false, Option, none, some, List, [], ◌∷◌, ◌++◌,
  ◌&&◌, ◌||◌, not, ltb, leb, ◌==◌, str_eq, if◌then◌else◌, second,
}

abbrev pub max_pool_per_key : ℕ
max_pool_per_key = 2

abbrev pub pool_conn_ttl : ℕ
pool_conn_ttl = 300 * second

-- pooledConn
pub record Conn : Type 0 where
  pub key : String
  pub socket : ℕ
  pub created : ℕ
  pub handshook : Bool

-- `closed` lists the connections that the pool closes, `handed` those that Take gives out, and
-- `opened` is the number of those that Warm has dialled; the next one gets that number.
pub record Pool : Type 0 where
  pub conns : List Conn
  pub closed : List ℕ
  pub handed : List ℕ
  pub opened : ℕ

abbrev pub empty_pool : Pool
empty_pool = record { conns = []; closed = []; handed = []; opened = 0 }

-- len(p.conns[key])
unfoldable pub count_key : String → List Conn → ℕ
count_key k [] = 0
count_key k (c ∷ cs) = let rest = count_key k cs in if str_eq c.key k then suc rest else rest

-- What the loop of Take sorts the connections into.
pub record Sorted : Type 0 where
  pub picked : Option Conn
  pub stale : List ℕ
  pub kept : List Conn

abbrev pub is_ready : ℕ → Conn → Bool
is_ready now c = c.handshook && ltb (now - c.created) pool_conn_ttl

-- The loop of Take; `found` says that one is picked already.
pub sort_out : String → ℕ → Bool → List Conn → Sorted
sort_out k now found [] = record { picked = none; stale = []; kept = [] }
sort_out k now found (c ∷ cs) =
    let mine = str_eq c.key k in
    let pick = mine && not found && is_ready now c in
    let rest = sort_out k now (found || pick) cs in
    if pick
    then record rest { picked = some c }
    else if mine && leb pool_conn_ttl (now - c.created)
    then record rest { stale = c.socket ∷ rest.stale }
    else record rest { kept = c ∷ rest.kept }

-- Take, in its section of the lock; where none is picked the caller dials a connection of its own. The
-- picked one is marked as taken after the lock is freed, so its reader may still evict and close it
-- before Take returns: that is the event `breaks` after `takes`.
pub take : Pool → String → ℕ → Pool × Option Conn
take p k now =
    let sorted = sort_out k now false p.conns in
    let q = record p { conns = sorted.kept; closed = p.closed ++ sorted.stale } in
    elim sorted.picked [
      | none ↦ (q, none)
      | some c ↦ (record q { handed = c.socket ∷ q.handed }, some c)
    ]

-- The end of Warm, for a connection that is dialled; `ready` says that its handshake succeeded.
-- The check at the start of Warm changes nothing.
pub warm : Pool → String → ℕ → Bool → Pool
warm p k now ready =
    let q = record p { opened = suc p.opened } in
    let c : Conn = record { key = k; socket = p.opened; created = now; handshook = true } in
    if ready && ltb (count_key k p.conns) max_pool_per_key
    then record q { conns = p.conns ++ c ∷ [] }
    else record q { closed = p.opened ∷ p.closed }

pub remove_socket : ℕ → List Conn → List Conn
remove_socket s [] = []
remove_socket s (c ∷ cs) = let rest = remove_socket s cs in if c.socket == s then cs else c ∷ rest

-- evict, whose key is the one that the connection is kept under.
pub evict : Pool → ℕ → Pool
evict p s = record p { conns = remove_socket s p.conns; closed = s ∷ p.closed }

abbrev pub is_expired : ℕ → Conn → Bool
is_expired now c = ltb pool_conn_ttl (now - c.created)

-- The loops of GC: the sockets to close, and what is kept.
pub split_expired : ℕ → List Conn → List ℕ × List Conn
split_expired now [] = ([], [])
split_expired now (c ∷ cs) =
    let (expired, kept) = split_expired now cs in
    if is_expired now c then (c.socket ∷ expired, kept) else (expired, c ∷ kept)

-- GC
pub gc : Pool → ℕ → Pool
gc p now =
    let (expired, kept) = split_expired now p.conns in
    record p { conns = kept; closed = p.closed ++ expired }

abbrev pub sockets : List Conn → List ℕ
sockets [] = []
sockets (c ∷ cs) = c.socket ∷ sockets cs

-- Close
pub close : Pool → Pool
close p = record p { conns = []; closed = p.closed ++ sockets p.conns }

-- What happens to a pool, in the order in which the lock is taken.
pub data Event : Type 0 where
  takes : String → ℕ → Event
  warms : String → ℕ → Bool → Event
  breaks collects : ℕ → Event
  closes : Event

-- A connection breaks only if there is one.
pub step : Pool → Event → Pool
step p (takes k now) = (take p k now).0
step p (warms k now ready) = warm p k now ready
step p (breaks s) = if ltb s p.opened then evict p s else p
step p (collects now) = gc p now
step p closes = close p

pub run : Pool → List Event → Pool
run p [] = p
run p (e ∷ es) = run (step p e) es
