-- ===== src/UserSessions/Separation.antt =====
-- What a caller finds under a `user` (userSessionStore, internal/web/sessions.go).
use Prim.Native.String.{◌++◌ as join}
use Prim.Native.Char.{Char, code}
use text.Mathlib.TextLemmas.{nil-append, cons-append, append_cancel_left}
use m365_copilot2api_docker.Base.{
  ℕ, ◌≡◌, ◌≢◌, refl, String, Option, none, some, not, ◌&&◌, str_eq, if◌then◌else◌, arith, eq_iff,
  sym, ◌∙◌, ap,
}
use m365_copilot2api_docker.Dict.{get, get-put, get-retain}
use m365_copilot2api_docker.UserSessions.{
  UserSession, UserStore, is_expired, evict, user_key, get_user, put_user,
}

-- A text without the character that separates the two parts of a key.
abbrev pub IsPlain : String → Type 0
IsPlain String.[] = Unit
IsPlain (String.◌∷◌ c s) = (code c ≢ 0) × IsPlain s

head : String → Char
head String.[] = "\0"
head (String.◌∷◌ c s) = c

tail : String → String
tail String.[] = ""
tail (String.◌∷◌ c s) = s

user_key-nil : (i : String) → user_key "" i ≡ String.◌∷◌ "\0" (join "" i)
unfolding user_key
user_key-nil i = nil-append (join "\0" i) ∙ cons-append "\0" "" i

user_key-cons :
    (c : Char) (t i : String) → user_key (String.◌∷◌ c t) i ≡ String.◌∷◌ c (user_key t i)
unfolding user_key
user_key-cons c t i = cons-append c t (join "\0" i)

same_tenant : (t u i j : String) → IsPlain t → IsPlain u → user_key t i ≡ user_key u j → t ≡ u
unfolding head tail
same_tenant String.[] String.[] i j p q e = refl
same_tenant String.[] (String.◌∷◌ c u) i j p q e =
    absurd (q.0 (ap (λ s. code (head s)) (sym (user_key-cons c u j) ∙ sym e ∙ user_key-nil i)))
same_tenant (String.◌∷◌ c t) String.[] i j p q e =
    absurd (p.0 (ap (λ s. code (head s)) (sym (user_key-cons c t i) ∙ e ∙ user_key-nil j)))
same_tenant (String.◌∷◌ c t) (String.◌∷◌ d u) i j p q e =
    let both = sym (user_key-cons c t i) ∙ e ∙ user_key-cons d u j in
    let rest = same_tenant t u i j p.1 q.1 (ap tail both) in
    ap (λ x. String.◌∷◌ x t) (ap head both) ∙ ap (λ s. String.◌∷◌ d s) rest

same_user : (t i j : String) → user_key t i ≡ user_key t j → i ≡ j
unfolding user_key
same_user t i j e = append_cancel_left "\0" i j (append_cancel_left t (join "\0" i) (join "\0" j) e)

same_key :
    (t u i j : String)
    → IsPlain t
    → IsPlain u
    → str_eq (user_key t i) (user_key u j) ≡ (str_eq t u && str_eq i j)
same_key t u i j p q = ground (
  arith,
  eq_iff (user_key t i) (user_key u j),
  eq_iff t u,
  eq_iff i j,
  same_tenant t u i j p q,
  same_user t i j,
)

-- What Get finds of an entry.
abbrev pub found : ℕ → ℕ → Option UserSession → Option UserSession
found ttl now none = none
found ttl now (some v) =
    if is_expired ttl now v then none else some (record v { last_used_at = now })

get_user-found :
    (now : ℕ) (tenant user : String) (s : UserStore)
    → (get_user now tenant user s).1 ≡ found s.ttl now (get s.data_of (user_key tenant user))
unfolding get_user evict
get_user-found now tenant user s =
    ground
      (arith, get-retain (λ k v. not (is_expired s.ttl now v)) s.data_of (user_key tenant user))

-- For tenants without the character that separates the parts of a key: what Get finds after a Put is
-- the conversation that was put if tenant and user are those of the Put, while it is not expired, and
-- otherwise what it would have found before. So no tenant can change what another one finds.
pub put_get_user :
    (now later : ℕ) (t u i j conversation session account : String) (s : UserStore)
    → IsPlain t
    → IsPlain u
    → (get_user later u j (put_user now t i conversation session account s)).1 ≡ (
        if str_eq t u && str_eq i j
        then found s.ttl later (
            some (record {
              conversation_id = conversation;
              session_id = session;
              account_id = account;
              last_used_at = now;
            }))
        else (get_user later u j s).1)
unfolding put_user
put_get_user now later t u i j conversation session account s p q =
    let v : UserSession = record {
      conversation_id = conversation;
      session_id = session;
      account_id = account;
      last_used_at = now;
    } in
    let after = put_user now t i conversation session account s in
    get_user-found later u j after
    ∙ ground (
      arith,
      get-put s.data_of (user_key t i) v (user_key u j),
      same_key t u i j p q,
      get_user-found later u j s,
    )
