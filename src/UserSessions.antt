-- ===== src/UserSessions.antt =====
-- The conversations that callers name: by an id (sessionStore) and by the `user` of their requests
-- (userSessionStore), internal/web/sessions.go.
pub mod Separation
mod Tests
use Prim.Native.String.{◌++◌ as join}
use m365_copilot2api_docker.Base.{
  ℕ, ◌+◌, String, Bool, true, false, Option, none, some, List, [], ◌∷◌, ltb, not, ◌==◌, str_eq,
  if◌then◌else◌, ◌&&◌,
}
use m365_copilot2api_docker.Dict.{Dict, get, put, remove, retain}

-- conversation; its ID is the key of the map.
pub record Conversation : Type 0 where
  pub account_id : String
  pub conversation_id : String
  pub session_id : String
  pub title : String
  pub created_at : ℕ
  pub updated_at : ℕ

-- sessionStore; `dirty` is the mark of its persistStore.
pub record Store : Type 0 where
  pub data_of : Dict Conversation
  pub dirty : Bool

-- upsert, with the id that the result has; `fresh` is the uuid.
pub upsert : ℕ → String → String → Conversation → Store → Store × String
upsert now fresh id c s =
    let key : String = if str_eq id "" then fresh else id in
    let made : ℕ = if c.created_at == 0 then now else c.created_at in
    (
      record s {
        data_of = put s.data_of key (record c { created_at = made; updated_at = now });
        dirty = true;
      },
      key,
    )

-- delete
pub delete : String → Store → Store × Bool
delete id s = elim (get s.data_of id) [
  | none ↦ (s, false)
  | some c ↦ (record s { data_of = remove s.data_of id; dirty = true }, true)
]

-- userSession
pub record UserSession : Type 0 where
  pub conversation_id : String
  pub session_id : String
  pub account_id : String
  pub last_used_at : ℕ

-- userSessionStore; the limit 0 stands for all that are not positive.
pub record UserStore : Type 0 where
  pub data_of : Dict UserSession
  pub ttl : ℕ
  pub dirty : Bool

-- v.LastUsedAt.Before(cutoff)
abbrev pub is_expired : ℕ → ℕ → UserSession → Bool
is_expired ttl now v = not (ttl == 0) && ltb (v.last_used_at + ttl) now

-- evictLocked
pub evict : ℕ → UserStore → UserStore
evict now s = record s { data_of = retain (λ k v. not (is_expired s.ttl now v)) s.data_of }

-- userKey
pub user_key : String → String → String
user_key tenant user = join tenant (join "\0" user)

-- Get
pub get_user : ℕ → String → String → UserStore → UserStore × Option UserSession
get_user now tenant user s =
    let key = user_key tenant user in
    let s1 = evict now s in
    elim (get s1.data_of key) [
      | none ↦ (s1, none)
      | some v ↦
          let used : UserSession = record v { last_used_at = now } in
          (record s1 { data_of = put s1.data_of key used; dirty = true }, some used)
    ]

-- Put
pub put_user : ℕ → String → String → String → String → String → UserStore → UserStore
put_user now tenant user conversation session account s =
    let v : UserSession = record {
      conversation_id = conversation;
      session_id = session;
      account_id = account;
      last_used_at = now;
    } in
    record s { data_of = put s.data_of (user_key tenant user) v; dirty = true }

-- Delete
pub delete_user : String → String → UserStore → UserStore
delete_user tenant user s = record s {
  data_of = remove s.data_of (user_key tenant user);
  dirty = true;
}

unfoldable pub add_active : ℕ → ℕ → Dict UserSession → Dict Bool
add_active window now [] = []
add_active window now ((k, v) ∷ d) =
    let rest = add_active window now d in
    if ltb now (v.last_used_at + window) then put rest v.conversation_id true else rest

-- ActiveConversations
unfoldable pub active_conversations : ℕ → ℕ → UserStore → Dict Bool
unfolding add_active
active_conversations window now s = add_active window now s.data_of
