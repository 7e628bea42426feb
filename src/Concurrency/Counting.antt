-- ===== src/Concurrency/Counting.antt =====
-- The counter of an account is the number of its leases that are out.
use m365_copilot2api_docker.Base.{
  ℕ, zero, suc, ◌+◌, ◌-◌, ◌≤◌, ◌<◌, ◌≡◌, refl, ap, ◌≢◌, ◌↔◌, String, true, false, Option, none,
  some, List, [], ◌∷◌, ◌++◌, arith, ◌&&◌, not, str_eq, eq_iff, if◌then◌else◌, get_elem?, Bool-cases,
  inl, inr, Option-cases,
}
use m365_copilot2api_docker.Dict.{get, get-put, get-remove}
use m365_copilot2api_docker.Concurrency.{
  Lease, Limiter, count_of, acquire, give_back, mark_released, release, Event, acquires, releases,
  step, run, new, available,
}

abbrev pub out_on : String → List Lease → ℕ
out_on id [] = 0
out_on id (l ∷ ls) = (if str_eq l.account id && not l.released then 1 else 0) + out_on id ls

-- The leases out on an account are counted, and are never more than the limit.
pub record IsCounted (c : Limiter) : Type 0 where
  pub exact : (id : String) → count_of c id ≡ out_on id c.leases
  pub bounded : (id : String) → out_on id c.leases ≤ c.limit

out_on-append :
    (id : String) (xs ys : List Lease) → out_on id (xs ++ ys) ≡ out_on id xs + out_on id ys
out_on-append id [] ys = omega arith
out_on-append id (x ∷ xs) ys = omega (arith, out_on-append id xs ys)

out_on-released :
    (id : String) (ls : List Lease) (i : ℕ) (l : Lease)
    → get_elem? ls i ≡ some l
    → l.released ≡ false
    → out_on id ls ≡ (if str_eq l.account id then 1 else 0) + out_on id (mark_released ls i)
unfolding mark_released
out_on-released id [] i l g r = cc
out_on-released id (x ∷ xs) zero l g r = ground arith
out_on-released id (x ∷ xs) (suc i) l g r = ground (arith, out_on-released id xs i l g r)

pub new-IsCounted : (parsed : Option ℕ) → IsCounted (new parsed)
unfolding new get
new-IsCounted parsed = record { exact = λ id. refl; bounded = λ id. omega arith }

acquire-IsCounted :
    (c d : Limiter) (id : String) → IsCounted c → acquire c id ≡ some d → IsCounted d
unfolding acquire
acquire-IsCounted c d id v e = record {
  exact = λ j. ground (
    arith,
    v.exact id,
    v.exact j,
    get-put c.inflight id (count_of c id + 1) j,
    eq_iff id j,
    out_on-append j c.leases (record { account = id; released = false } ∷ []),
  );
  bounded = λ j. ground (
    arith,
    v.exact id,
    v.exact j,
    v.bounded j,
    v.bounded id,
    eq_iff id j,
    out_on-append j c.leases (record { account = id; released = false } ∷ []),
  );
}

give_back-IsCounted :
    (c : Limiter) (i : ℕ) (l : Lease)
    → IsCounted c
    → get_elem? c.leases i ≡ some l
    → l.released ≡ false
    → IsCounted (record (give_back c l.account) { leases = mark_released c.leases i })
unfolding give_back
give_back-IsCounted c i l v g r = record {
  exact = λ j. ground (
    arith,
    v.exact j,
    v.exact l.account,
    out_on-released j c.leases i l g r,
    get-remove c.inflight l.account j,
    get-put c.inflight l.account (count_of c l.account - 1) j,
    eq_iff l.account j,
  );
  bounded = λ j. omega (arith, v.bounded j, out_on-released j c.leases i l g r);
}

release-IsCounted : (c : Limiter) (i : ℕ) → IsCounted c → IsCounted (release c i)
release-IsCounted c i v = elim (Option-cases (get_elem? c.leases i)) [
  | inl e ↦ unfold release in rw (e, release) v
  | inr (l, e) ↦ elim (Bool-cases l.released) [
    | inl done ↦ unfold release in rw (e, done, release) v
    | inr out ↦ unfold release in rw (e, out, release) (give_back-IsCounted c i l v e out)
  ]
]

step-IsCounted : (c : Limiter) (e : Event) → IsCounted c → IsCounted (step c e)
unfolding step
step-IsCounted c (acquires id) v = elim (Option-cases (acquire c id)) [
  | inl e ↦ rw (e, step) v
  | inr (d, e) ↦ rw (e, step) (acquire-IsCounted c d id v e)
]
step-IsCounted c (releases i) v = release-IsCounted c i v

-- However acquisitions and releases interleave, the counter of every account is the number of its
-- leases that are out, and never passes the limit.
pub run-IsCounted : (c : Limiter) (es : List Event) → IsCounted c → IsCounted (run c es)
unfolding run
run-IsCounted c [] v = v
run-IsCounted c (e ∷ es) v = run-IsCounted (step c e) es (step-IsCounted c e v)

-- An account is available exactly while fewer leases than the limit are out on it, and then, and
-- only then, a call that acquires it does not wait.
pub available_iff :
    (c : Limiter) (id : String)
    → IsCounted c
    → id ≢ ""
    → ((available c id ≡ true) ↔ (out_on id c.leases < c.limit))
      × ((acquire c id ≡ none) ↔ (out_on id c.leases ≡ c.limit))
unfolding available acquire
available_iff c id v named = (
  (λ a. ground (arith, v.exact id, eq_iff id ""), λ a. ground (arith, v.exact id, eq_iff id "")),
  (
    λ a. ground (arith, v.exact id, v.bounded id, eq_iff id ""),
    λ a. ground (arith, v.exact id, v.bounded id, eq_iff id ""),
  ),
)

get_elem?-mark_released :
    (ls : List Lease) (i : ℕ) (l : Lease)
    → get_elem? ls i ≡ some l
    → get_elem? (mark_released ls i) i ≡ some (record l { released = true })
unfolding mark_released
get_elem?-mark_released [] i l e = cc
get_elem?-mark_released (x ∷ xs) zero l e = ground arith
get_elem?-mark_released (x ∷ xs) (suc i) l e = get_elem?-mark_released xs i l e

release_spent :
    (c : Limiter) (i : ℕ) (l : Lease)
    → get_elem? c.leases i ≡ some l
    → l.released ≡ true
    → release c i ≡ c
unfolding release
release_spent c i l e done = rw (e, done, release)

release_unknown : (c : Limiter) (i : ℕ) → get_elem? c.leases i ≡ none → release c i ≡ c
unfolding release
release_unknown c i e = rw (e, release)

-- A second call of a release function does nothing.
pub release_once : (c : Limiter) (i : ℕ) → release (release c i) i ≡ release c i
release_once c i = elim (Option-cases (get_elem? c.leases i)) [
  | inl e ↦ ap (λ d. release d i) (release_unknown c i e)
  | inr (l, e) ↦ elim (Bool-cases l.released) [
    | inl done ↦ ap (λ d. release d i) (release_spent c i l e done)
    | inr out ↦
        release_spent (release c i) i (record l { released = true })
          (unfold release in rw (e, out, release) (get_elem?-mark_released c.leases i l e)) refl
  ]
]
