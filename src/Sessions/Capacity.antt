-- ===== src/Sessions/Capacity.antt =====
-- How many sessions are kept, and which go first (evictLocked, internal/web/session_resolver.go).
use m365_copilot2api_docker.Base.{
  ℕ, zero, suc, ◌+◌, ◌-◌, ◌≤◌, ◌≡◌, refl, String, true, false, none, [], ◌∷◌, arith, str_eq, eq_iff,
  eq_refl, if◌then◌else◌, length, is_some, ◌∙◌, ap, Bool-cases, inl, inr, take,
}
use m365_copilot2api_docker.Dict.{
  Dict, get, remove, IsDict, get-remove, remove-IsDict, length-remove,
}
use m365_copilot2api_docker.Sessions.{
  Binding, Resolver, drop_session, insert_old, oldest_first, drop_all, drop_oldest,
}

get-insert_old :
    (x : String × Binding) (xs : Dict Binding) (k : String)
    → is_some (get xs x.0) ≡ false
    → get (insert_old x xs) k ≡ get (x ∷ xs) k
unfolding get insert_old
get-insert_old x [] k h = refl
get-insert_old x (y ∷ ys) k h =
    ground (arith, get-insert_old x ys k, h, eq_iff x.0 k, eq_iff y.0 k, eq_iff y.0 x.0)

insert_old-IsDict :
    (x : String × Binding) (xs : Dict Binding)
    → is_some (get xs x.0) ≡ false
    → IsDict xs
    → IsDict (insert_old x xs)
unfolding insert_old get
insert_old-IsDict x [] n h = (n, tt)
insert_old-IsDict x (y ∷ ys) n h =
    ground
      (arith, insert_old-IsDict x ys, get-insert_old x ys y.0, h, n, eq_iff x.0 y.0, eq_iff y.0 x.0)

pub get-oldest_first : (d : Dict Binding) (k : String) → IsDict d → get (oldest_first d) k ≡ get d k
unfolding oldest_first get
get-oldest_first [] k h = refl
get-oldest_first (x ∷ d) k h =
    let absent : is_some (get (oldest_first d) x.0) ≡ false = rw (get-oldest_first d x.0 h.1) h.0 in
    get-insert_old x (oldest_first d) k absent ∙ ground (arith, get-oldest_first d k h.1)

pub oldest_first-IsDict : (d : Dict Binding) → IsDict d → IsDict (oldest_first d)
unfolding oldest_first
oldest_first-IsDict [] h = h
oldest_first-IsDict (x ∷ d) h =
    let absent : is_some (get (oldest_first d) x.0) ≡ false = rw (get-oldest_first d x.0 h.1) h.0 in
    insert_old-IsDict x (oldest_first d) absent (oldest_first-IsDict d h.1)

length-insert_old :
    (x : String × Binding) (xs : Dict Binding) → length (insert_old x xs) ≡ suc (length xs)
unfolding insert_old
length-insert_old x [] = refl
length-insert_old x (y ∷ ys) = ground (arith, length-insert_old x ys)

length-oldest_first : (d : Dict Binding) → length (oldest_first d) ≡ length d
unfolding oldest_first
length-oldest_first [] = refl
length-oldest_first (x ∷ d) = length-insert_old x (oldest_first d) ∙ ap suc (length-oldest_first d)

pub get-take :
    (n : ℕ) (xs : Dict Binding) (k : String)
    → is_some (get xs k) ≡ false
    → is_some (get (take n xs) k) ≡ false
unfolding get
get-take zero xs k h = refl
get-take (suc n) [] k h = refl
get-take (suc n) (x ∷ xs) k h = ground (arith, get-take n xs k)

take-IsDict : (n : ℕ) (xs : Dict Binding) → IsDict xs → IsDict (take n xs)
take-IsDict zero xs h = tt
take-IsDict (suc n) [] h = tt
take-IsDict (suc n) (x ∷ xs) h = (get-take n xs x.0 h.0, take-IsDict n xs h.1)

length-take_some : (n : ℕ) (xs : Dict Binding) → n ≤ length xs → length (take n xs) ≡ n
length-take_some zero xs h = refl
length-take_some (suc n) [] h = absurd (omega arith)
length-take_some (suc n) (x ∷ xs) h = ap suc (length-take_some n xs (omega arith))

-- What is in the one is in the other.
abbrev Within : Dict Binding → Dict Binding → Type 0
Within xs d = (k : String) → is_some (get d k) ≡ false → is_some (get xs k) ≡ false

Within-remove :
    (x : String × Binding) (xs d : Dict Binding)
    → IsDict (x ∷ xs)
    → Within (x ∷ xs) d
    → Within xs (remove d x.0)
unfolding get
Within-remove x xs d h w k e = elim (Bool-cases (str_eq x.0 k)) [
  | inl here ↦ ground (arith, here, eq_iff x.0 k, h.0)
  | inr other ↦
      let absent : is_some (get d k) ≡ false = ground (arith, get-remove d x.0 k, e, other) in
      ground (arith, w k absent, other)
]

Within-head :
    (x : String × Binding) (xs d : Dict Binding) → Within (x ∷ xs) d → is_some (get d x.0) ≡ true
unfolding get
Within-head x xs d w = ground (arith, w x.0, eq_refl x.0)

pub length-drop_all :
    (xs : Dict Binding) (r : Resolver)
    → IsDict xs
    → IsDict r.sessions
    → Within xs r.sessions
    → length (drop_all xs r).sessions + length xs ≡ length r.sessions
unfolding drop_all drop_session
length-drop_all [] r h u w = omega arith
length-drop_all (x ∷ xs) r h u w =
    let rest =
      length-drop_all xs (drop_session x.0 x.1 r) h.1 (remove-IsDict r.sessions x.0 u)
        (Within-remove x xs r.sessions h w) in
    let one = length-remove r.sessions x.0 u (Within-head x xs r.sessions w) in
    omega (arith, rest, one)

pub get-drop_all :
    (xs : Dict Binding) (r : Resolver) (k : String)
    → get (drop_all xs r).sessions k ≡ (if is_some (get xs k) then none else get r.sessions k)
unfolding drop_all drop_session get
get-drop_all [] r k = refl
get-drop_all (x ∷ xs) r k =
    ground (arith, get-drop_all xs (drop_session x.0 x.1 r) k, get-remove r.sessions x.0 k)

pub drop_all-IsDict :
    (xs : Dict Binding) (r : Resolver) → IsDict r.sessions → IsDict (drop_all xs r).sessions
unfolding drop_all drop_session
drop_all-IsDict [] r h = h
drop_all-IsDict (x ∷ xs) r h =
    drop_all-IsDict xs (drop_session x.0 x.1 r) (remove-IsDict r.sessions x.0 h)

oldest_first-Within : (n : ℕ) (d : Dict Binding) → IsDict d → Within (take n (oldest_first d)) d
oldest_first-Within n d h k e = get-take n (oldest_first d) k (rw (get-oldest_first d k h) e)

pub drop_oldest-length :
    (r : Resolver) → IsDict r.sessions → length (drop_oldest r).sessions ≤ r.max_sessions
unfolding drop_oldest
drop_oldest-length r h =
    let n = length r.sessions - r.max_sessions in
    let xs = oldest_first r.sessions in
    let size = length-take_some n xs (omega (arith, length-oldest_first r.sessions)) in
    let left =
      length-drop_all (take n xs) r (take-IsDict n xs (oldest_first-IsDict r.sessions h)) h
        (oldest_first-Within n r.sessions h) in
    ground (arith, left, size)
