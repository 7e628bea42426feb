-- ===== src/Sessions/Removal.antt =====
-- Which sessions are left (dropLocked and its callers, internal/web/session_resolver.go).
use m365_copilot2api_docker.Base.{
  ◌+◌, ◌≡◌, refl, String, Bool, true, false, Option, none, some, [], ◌∷◌, ◌++◌, not, arith, eq_iff,
  eq_refl, if◌then◌else◌, length, select, is_some, append_assoc, ◌∙◌, ap, sym, Bool-cases, inl, inr,
}
use m365_copilot2api_docker.Dict.{Dict, get, remove, IsDict, remove_absent, remove-IsDict}
use m365_copilot2api_docker.Sessions.{
  Binding, Resolver, drop_session, drop_where, count_where, unbind, of_conversation,
}

-- The sessions that do not pass a test.
abbrev pub kept : (Binding → Bool) → Dict Binding → Dict Binding
kept p = select (λ e. not (p e.1))

abbrev pub unless : (Binding → Bool) → Option Binding → Option Binding
unless p none = none
unless p (some s) = if p s then none else some s

present-append :
    (pre d : Dict Binding) (k : String) (s : Binding) → is_some (get (pre ++ (k, s) ∷ d) k) ≡ true
unfolding get
present-append [] d k s = ground (arith, eq_refl k)
present-append ((j, t) ∷ pre) d k s = ground (arith, present-append pre d k s)

remove-append :
    (pre d : Dict Binding) (k : String) (s : Binding)
    → IsDict (pre ++ (k, s) ∷ d)
    → remove (pre ++ (k, s) ∷ d) k ≡ pre ++ d
unfolding remove
remove-append [] d k s h = ground (arith, remove_absent d k, h.0, eq_refl k)
remove-append ((j, t) ∷ pre) d k s h =
    ground (arith, remove-append pre d k s h.1, present-append pre d k s, h.0, eq_iff j k)

drop_where-step :
    (p : Binding → Bool) (k : String) (s : Binding) (d : Dict Binding) (r : Resolver) (b : Bool)
    → p s ≡ b
    → drop_where p ((k, s) ∷ d) r ≡ drop_where p d (if b then drop_session k s r else r)
unfolding drop_where
drop_where-step p k s d r b e = ap (λ c. drop_where p d (if c then drop_session k s r else r)) e

drop_where-append :
    (p : Binding → Bool) (pre d : Dict Binding) (r : Resolver)
    → r.sessions ≡ pre ++ d
    → IsDict r.sessions
    → (drop_where p d r).sessions ≡ pre ++ kept p d
unfolding drop_where drop_session
drop_where-append p pre [] r e h = e
drop_where-append p pre ((k, s) ∷ d) r e h = elim (Bool-cases (p s)) [
  | inl hit ↦
      let gone : remove r.sessions k ≡ pre ++ d = rw e (remove-append pre d k s (rw (← e) h)) in
      let rest =
        drop_where-append p pre d (drop_session k s r) gone (remove-IsDict r.sessions k h) in
      rw (drop_where-step p k s d r true hit) (rw hit rest)
  | inr miss ↦
      let rest =
        drop_where-append p (pre ++ (k, s) ∷ []) d r (e ∙ sym (append_assoc pre ((k, s) ∷ []) d))
          h in
      rw (drop_where-step p k s d r false miss)
        (rw miss (rest ∙ append_assoc pre ((k, s) ∷ []) (kept p d)))
]

-- A loop over the map keeps exactly the sessions that do not pass the test, in their order.
pub drop_where-kept :
    (p : Binding → Bool) (r : Resolver)
    → IsDict r.sessions
    → (drop_where p r.sessions r).sessions ≡ kept p r.sessions
drop_where-kept p r h = drop_where-append p [] r.sessions r refl h

get-kept :
    (p : Binding → Bool) (d : Dict Binding) (k : String)
    → IsDict d
    → get (kept p d) k ≡ unless p (get d k)
unfolding get
get-kept p [] k h = refl
get-kept p ((j, s) ∷ d) k h = ground (arith, get-kept p d k h.1, h.0, eq_iff j k)

pub kept-IsDict : (p : Binding → Bool) (d : Dict Binding) → IsDict d → IsDict (kept p d)
unfolding get
kept-IsDict p [] h = h
kept-IsDict p ((j, s) ∷ d) h = ground (arith, kept-IsDict p d h.1, get-kept p d j h.1, h.0)

pub length-kept :
    (p : Binding → Bool) (d : Dict Binding) → length (kept p d) + count_where p d ≡ length d
unfolding count_where
length-kept p [] = refl
length-kept p ((j, s) ∷ d) = ground (arith, length-kept p d)

pub get-drop_where :
    (p : Binding → Bool) (r : Resolver) (k : String)
    → IsDict r.sessions
    → get (drop_where p r.sessions r).sessions k ≡ unless p (get r.sessions k)
get-drop_where p r k h = rw (drop_where-kept p r h) (get-kept p r.sessions k h)

-- Where each session stands once in the map, UnbindByConversation removes exactly the sessions of
-- the conversation, whoever owns them, and answers how many these were.
pub unbind_exact :
    (id : String) (r : Resolver) (k : String)
    → IsDict r.sessions
    → (get (unbind id r).0.sessions k ≡ unless (of_conversation id) (get r.sessions k))
      × (length (unbind id r).0.sessions + (unbind id r).1 ≡ length r.sessions)
unfolding unbind
unbind_exact id r k h = (
  get-drop_where (of_conversation id) r k h,
  rw (drop_where-kept (of_conversation id) r h) (length-kept (of_conversation id) r.sessions),
)

pub unbind-IsDict :
    (id : String) (r : Resolver) → IsDict r.sessions → IsDict (unbind id r).0.sessions
unfolding unbind
unbind-IsDict id r h =
    rw (drop_where-kept (of_conversation id) r h) (kept-IsDict (of_conversation id) r.sessions h)
