-- ===== src/Concurrency.antt =====
-- The limit on concurrent calls of an account (accountConcurrency,
-- internal/web/account_concurrency.go). The lock makes each method one step. `changed` counts the
-- channels that a release has closed and replaced: who waits on an older one is woken.
pub mod Counting
pub mod Tests
pub mod Wakeup
use m365_copilot2api_docker.Base.{
  ℕ, zero, suc, ◌+◌, ◌-◌, String, Bool, true, false, Option, none, some, List, [], ◌∷◌, ◌++◌, ◌&&◌,
  ltb, leb, ◌==◌, str_eq, not, if◌then◌else◌, or_zero, get_elem?,
}
use m365_copilot2api_docker.Dict.{Dict, get, put, remove}

-- What Acquire hands out: the release function, with its `sync.Once`.
pub record Lease : Type 0 where
  pub account : String
  pub released : Bool

pub record Limiter : Type 0 where
  pub limit : ℕ
  pub inflight : Dict ℕ
  pub changed : ℕ
  pub leases : List Lease  -- in the order of their acquisition

abbrev pub default_concurrency : ℕ
default_concurrency = 8

-- newAccountConcurrency; `parsed` is what `strconv.Atoi` makes of the variable, if it is a number
-- and not negative.
unfoldable pub new : Option ℕ → Limiter
new parsed = record {
  limit = elim parsed [
    | none ↦ default_concurrency
    | some n ↦ if ltb 0 n then n else default_concurrency
  ];
  inflight = [];
  changed = 0;
  leases = [];
}

-- Inflight
abbrev pub count_of : Limiter → String → ℕ
count_of c id = or_zero 0 (get c.inflight id)

-- Available
unfoldable pub available : Limiter → String → Bool
available c id = if str_eq id "" then true else ltb (count_of c id) c.limit

-- One round of the loop of Acquire: `none` where the caller waits on `changed`. For an account
-- without a name nothing is counted, and the release does nothing.
pub acquire : Limiter → String → Option Limiter
acquire c id =
    if str_eq id ""
    then some c
    else if ltb (count_of c id) c.limit
    then some (record c {
      inflight = put c.inflight id (count_of c id + 1);
      leases = c.leases ++ record { account = id; released = false } ∷ [];
    })
    else none

-- The body of `once.Do`.
give_back : Limiter → String → Limiter
give_back c id = record c {
  inflight =
      if leb (count_of c id) 1 then remove c.inflight id else put c.inflight id (count_of c id - 1);
  changed = c.changed + 1;
}

mark_released : List Lease → ℕ → List Lease
mark_released [] i = []
mark_released (l ∷ ls) zero = record l { released = true } ∷ ls
mark_released (l ∷ ls) (suc i) = l ∷ mark_released ls i

-- A call of the release function of the i-th lease.
pub release : Limiter → ℕ → Limiter
unfolding give_back mark_released
release c i = elim (get_elem? c.leases i) [
  | none ↦ c
  | some l ↦
      if l.released then c else record (give_back c l.account) { leases = mark_released c.leases i }
]

pub data Event : Type 0 where
  acquires : String → Event
  releases : ℕ → Event

-- A caller that waits changes nothing.
pub step : Limiter → Event → Limiter
step c (acquires id) = elim (acquire c id) [ none ↦ c | some d ↦ d ]
step c (releases i) = release c i

pub run : Limiter → List Event → Limiter
run c [] = c
run c (e ∷ es) = run (step c e) es
