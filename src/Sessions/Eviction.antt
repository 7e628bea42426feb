-- ===== src/Sessions/Eviction.antt =====
-- What the eviction of sessions leaves (evictLocked, internal/web/session_resolver.go).
use m365_copilot2api_docker.Base.{
  ℕ, zero, suc, ◌-◌, ◌≤◌, ◌≡◌, refl, String, Bool, true, false, none, some, [], ◌∷◌, arith, length,
  is_some, ◌∙◌, sym, take, All,
}
use m365_copilot2api_docker.Dict.{Dict, get, IsDict}
use m365_copilot2api_docker.Sessions.{
  Binding, Resolver, drop_session, drop_where, insert_old, oldest_first, drop_all, drop_oldest,
  evict, is_older,
}
use m365_copilot2api_docker.Sessions.Removal.{
  drop_where-kept, kept-IsDict, get-drop_where, unless, length-kept,
}
use m365_copilot2api_docker.Sessions.Capacity.{
  get-drop_all, drop_all-IsDict, get-oldest_first, drop_oldest-length,
}

-- What no operation changes.
abbrev pub SameLimits : Resolver → Resolver → Type 0
SameLimits a b =
    (a.ttl ≡ b.ttl) × (a.context_ttl ≡ b.context_ttl) × (a.max_sessions ≡ b.max_sessions)

drop_where-SameLimits :
    (p : Binding → Bool) (d : Dict Binding) (r : Resolver) → SameLimits (drop_where p d r) r
unfolding drop_where drop_session
drop_where-SameLimits p [] r = (refl, refl, refl)
drop_where-SameLimits p ((k, s) ∷ d) r =
    ground (arith, drop_where-SameLimits p d (drop_session k s r), drop_where-SameLimits p d r)

drop_all-SameLimits : (d : Dict Binding) (r : Resolver) → SameLimits (drop_all d r) r
unfolding drop_all drop_session
drop_all-SameLimits [] r = (refl, refl, refl)
drop_all-SameLimits ((k, s) ∷ d) r = drop_all-SameLimits d (drop_session k s r)

pub evict-SameLimits : (now : ℕ) (r : Resolver) → SameLimits (evict now r) r
unfolding evict drop_oldest
evict-SameLimits now r =
    let r1 = drop_where (is_older r.ttl now) r.sessions r in
    ground (
      arith,
      drop_where-SameLimits (is_older r.ttl now) r.sessions r,
      drop_all-SameLimits (take (length r1.sessions - r1.max_sessions) (oldest_first r1.sessions))
          r1,
    )

first_half-IsDict :
    (now : ℕ) (r : Resolver)
    → IsDict r.sessions
    → IsDict (drop_where (is_older r.ttl now) r.sessions r).sessions
first_half-IsDict now r h =
    rw (drop_where-kept (is_older r.ttl now) r h) (kept-IsDict (is_older r.ttl now) r.sessions h)

drop_oldest-IsDict : (r : Resolver) → IsDict r.sessions → IsDict (drop_oldest r).sessions
unfolding drop_oldest
drop_oldest-IsDict r h = ground (
  arith,
  drop_all-IsDict (take (length r.sessions - r.max_sessions) (oldest_first r.sessions)) r h,
  h,
)

pub evict-IsDict : (now : ℕ) (r : Resolver) → IsDict r.sessions → IsDict (evict now r).sessions
unfolding evict
evict-IsDict now r h = drop_oldest-IsDict _ (first_half-IsDict now r h)

-- Where each session stands once in the map, an eviction leaves at most the allowed number.
pub evict_bounded :
    (now : ℕ) (r : Resolver) → IsDict r.sessions → length (evict now r).sessions ≤ r.max_sessions
unfolding evict
evict_bounded now r h =
    let p = is_older r.ttl now in
    let (_, _, same) = drop_where-SameLimits p r.sessions r in
    omega (arith, same, drop_oldest-length (drop_where p r.sessions r) (first_half-IsDict now r h))

get-drop_oldest :
    (r : Resolver) (k : String) (s : Binding)
    → get (drop_oldest r).sessions k ≡ some s
    → get r.sessions k ≡ some s
unfolding drop_oldest
get-drop_oldest r k s e =
    ground (
      arith,
      get-drop_all (take (length r.sessions - r.max_sessions) (oldest_first r.sessions)) r k,
    )

-- A session that an eviction leaves is as it was, and not expired.
pub evict-survivor :
    (now : ℕ) (r : Resolver) (k : String) (s : Binding)
    → IsDict r.sessions
    → get (evict now r).sessions k ≡ some s
    → (get r.sessions k ≡ some s) × (is_older r.ttl now s ≡ false)
unfolding evict
evict-survivor now r k s h e =
    let p = is_older r.ttl now in
    let found = get-drop_oldest (drop_where p r.sessions r) k s e in
    let left : unless p (get r.sessions k) ≡ some s = sym (get-drop_where p r k h) ∙ found in
    ground (arith, left)

-- While there is room, an eviction removes the expired sessions only.
pub get-evict_room :
    (now : ℕ) (r : Resolver) (k : String)
    → IsDict r.sessions
    → length r.sessions ≤ r.max_sessions
    → get (evict now r).sessions k ≡ unless (is_older r.ttl now) (get r.sessions k)
unfolding evict drop_oldest
get-evict_room now r k h room =
    let p = is_older r.ttl now in
    let fewer : length (drop_where p r.sessions r).sessions ≤ length r.sessions =
      rw (drop_where-kept p r h) (omega (arith, length-kept p r.sessions)) in
    let (_, _, same) = drop_where-SameLimits p r.sessions r in
    ground (arith, get-drop_where p r k h, fewer, same)

abbrev Ascending : Dict Binding → Type 0
Ascending [] = Unit
Ascending (x ∷ xs) = All (λ y. x.1.last_used_at ≤ y.1.last_used_at) xs × Ascending xs

insert_old-above :
    (bound : ℕ) (x : String × Binding) (xs : Dict Binding)
    → bound ≤ x.1.last_used_at
    → All (λ y. bound ≤ y.1.last_used_at) xs
    → All (λ y. bound ≤ y.1.last_used_at) (insert_old x xs)
unfolding insert_old
insert_old-above bound x [] h a = (h, tt)
insert_old-above bound x (y ∷ ys) h a = ground (arith, insert_old-above bound x ys h a.1, a)

lower_bound :
    (a b : ℕ) (xs : Dict Binding)
    → a ≤ b
    → All (λ y. b ≤ y.1.last_used_at) xs
    → All (λ y. a ≤ y.1.last_used_at) xs
lower_bound a b [] le h = tt
lower_bound a b (x ∷ xs) le h = (omega arith, lower_bound a b xs le h.1)

insert_old-Ascending :
    (x : String × Binding) (xs : Dict Binding) → Ascending xs → Ascending (insert_old x xs)
unfolding insert_old
insert_old-Ascending x [] d = (tt, tt)
insert_old-Ascending x (y ∷ ys) d = ground (
  arith,
  insert_old-Ascending x ys d.1,
  insert_old-above y.1.last_used_at x ys,
  lower_bound x.1.last_used_at y.1.last_used_at ys,
  d,
)

oldest_first-Ascending : (d : Dict Binding) → Ascending (oldest_first d)
unfolding oldest_first
oldest_first-Ascending [] = tt
oldest_first-Ascending (x ∷ d) = insert_old-Ascending x (oldest_first d) (oldest_first-Ascending d)

All-get :
    (bound : ℕ) (xs : Dict Binding) (k : String) (s : Binding)
    → All (λ y. bound ≤ y.1.last_used_at) xs
    → get xs k ≡ some s
    → bound ≤ s.last_used_at
unfolding get
All-get bound [] k s a e = cc
All-get bound (x ∷ xs) k s a e = ground (arith, All-get bound xs k s a.1, a.0)

taken_older :
    (n : ℕ) (xs : Dict Binding) (j k : String) (s t : Binding)
    → Ascending xs
    → get xs j ≡ some s
    → is_some (get (take n xs) j) ≡ false
    → get xs k ≡ some t
    → is_some (get (take n xs) k) ≡ true
    → t.last_used_at ≤ s.last_used_at
unfolding get
taken_older zero xs j k s t a ej nj ek tk = cc
taken_older (suc n) [] j k s t a ej nj ek tk = cc
taken_older (suc n) (x ∷ xs) j k s t a ej nj ek tk =
    let later = taken_older n xs j k s t a.1 in
    let above = All-get x.1.last_used_at xs j s a.0 in ground (arith, later, above)

-- Where each session stands once in the map, an eviction that drops a session that is not expired
-- leaves no session that was used before it.
pub evict_oldest :
    (now : ℕ) (r : Resolver) (j k : String) (s t : Binding)
    → IsDict r.sessions
    → get (evict now r).sessions j ≡ some s
    → get r.sessions k ≡ some t
    → is_older r.ttl now t ≡ false
    → get (evict now r).sessions k ≡ none
    → t.last_used_at ≤ s.last_used_at
unfolding evict drop_oldest
evict_oldest now r j k s t h left old fresh gone =
    let p = is_older r.ttl now in
    let r1 = drop_where p r.sessions r in
    let n = length r1.sessions - r1.max_sessions in
    let xs = oldest_first r1.sessions in
    let is = first_half-IsDict now r h in
    let old1 : get r1.sessions k ≡ some t = ground (arith, get-drop_where p r k h) in
    ground (
      arith,
      get-drop_all (take n xs) r1 j,
      get-drop_all (take n xs) r1 k,
      get-oldest_first r1.sessions j is,
      get-oldest_first r1.sessions k is,
      taken_older n xs j k s t (oldest_first-Ascending r1.sessions),
      old1,
    )
