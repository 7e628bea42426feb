-- ===== src/Sessions.antt =====
-- The sessions that requests continue (sessionResolver, internal/web/session_resolver.go): their
-- records, the indexes over them, expiry and removal.
pub mod Matching
pub mod History
pub mod Resolving
pub mod Recording
pub mod Listing
pub mod Removal
pub mod Capacity
pub mod Eviction
pub mod Best
pub mod Outcomes
pub mod Isolation
pub mod Takeover
pub mod Soundness
pub mod Boundary
pub mod Kept
pub mod Prefix
pub mod NextTurn
pub mod Suffix
pub mod Listed
mod Tests
use Prim.Native.String.{◌++◌ as join}
use m365_copilot2api_docker.Base.{
  ℕ, zero, suc, ◌+◌, ◌-◌, String, Bool, true, false, Option, none, some, List, [], ◌∷◌, ltb, str_eq,
  if◌then◌else◌, or_zero, length, take,
}
use m365_copilot2api_docker.Dict.{Dict, get, put, remove}
use m365_copilot2api_docker.Messages.{Message}

-- sessionBinding
pub record Binding : Type 0 where
  pub session_id : String
  pub conversation_id : String
  pub account_id : String
  pub created_at : ℕ
  pub last_used_at : ℕ
  pub ip_fingerprint : String
  pub user_field : String
  pub context_finger : String
  pub context_history : List Message
  pub tenant : String
  pub explicit_id : String

-- What a missing key of the map gives.
abbrev pub no_binding : Binding
no_binding = record {
  session_id = "";
  conversation_id = "";
  account_id = "";
  created_at = 0;
  last_used_at = 0;
  ip_fingerprint = "";
  user_field = "";
  context_finger = "";
  context_history = [];
  tenant = "";
  explicit_id = "";
}

-- sessionResolver; `dirty` is the mark of its persistStore.
pub record Resolver : Type 0 where
  pub sessions : Dict Binding
  pub by_explicit : Dict String
  pub by_user_field : Dict String
  pub by_ip_finger : Dict String
  pub by_context : Dict String
  pub ttl : ℕ
  pub context_ttl : ℕ
  pub max_sessions : ℕ
  pub dirty : Bool

-- What the resolver reads of an HTTP request: rawAPIKey, the host of its address, the User-Agent
-- and X-M365-Session-Id.
pub record Request : Type 0 where
  pub api_key : String
  pub host : String
  pub user_agent : String
  pub session_header : String

-- explicitKey
pub explicit_key : String → String → String
explicit_key tenant id = join tenant (join "\0" id)

-- An entry of an index; the empty text is no key of one.
pub link : String → String → Dict String → Dict String
link key id index = if str_eq key "" then index else put index key id

-- reindexLocked
pub reindex : Binding → Resolver → Resolver
reindex s r = record r {
  sessions = put r.sessions s.session_id s;
  by_explicit =
      if str_eq s.explicit_id ""
      then r.by_explicit
      else put r.by_explicit (explicit_key s.tenant s.explicit_id) s.session_id;
  by_user_field = link s.user_field s.session_id r.by_user_field;
  by_ip_finger = link s.ip_fingerprint s.session_id r.by_ip_finger;
  by_context = link s.context_finger s.session_id r.by_context;
}

-- An entry of an index is removed where it still names the session.
unlink : String → String → Dict String → Dict String
unlink key id index = if str_eq (or_zero "" (get index key)) id then remove index key else index

-- dropLocked
pub drop_session : String → Binding → Resolver → Resolver
drop_session id s r = record r {
  sessions = remove r.sessions id;
  by_explicit =
      if str_eq s.explicit_id ""
      then r.by_explicit
      else remove r.by_explicit (explicit_key s.tenant s.explicit_id);
  by_user_field = unlink s.user_field id r.by_user_field;
  by_ip_finger = unlink s.ip_fingerprint id r.by_ip_finger;
  by_context = unlink s.context_finger id r.by_context;
}

-- now.Sub(s.LastUsedAt) > ttl
abbrev pub is_older : ℕ → ℕ → Binding → Bool
is_older ttl now s = ltb ttl (now - s.last_used_at)

-- A loop over the map that drops the sessions of a test. The list is the map when the loop starts.
pub drop_where : (Binding → Bool) → Dict Binding → Resolver → Resolver
drop_where p [] r = r
drop_where p ((id, s) ∷ d) r = drop_where p d (if p s then drop_session id s r else r)

-- `sort.Slice` by the last use, the oldest first. The order of equal ones is not relied on.
pub insert_old : String × Binding → Dict Binding → Dict Binding
insert_old x [] = x ∷ []
insert_old x (y ∷ ys) =
    let rest = insert_old x ys in
    if ltb y.1.last_used_at x.1.last_used_at then y ∷ rest else x ∷ y ∷ ys

pub oldest_first : Dict Binding → Dict Binding
oldest_first [] = []
oldest_first (x ∷ d) = insert_old x (oldest_first d)

pub drop_all : Dict Binding → Resolver → Resolver
drop_all [] r = r
drop_all ((id, s) ∷ d) r = drop_all d (drop_session id s r)

-- The second half of evictLocked.
pub drop_oldest : Resolver → Resolver
drop_oldest r =
    if ltb r.max_sessions (length r.sessions)
    then drop_all (take (length r.sessions - r.max_sessions) (oldest_first r.sessions)) r
    else r

-- evictLocked
pub evict : ℕ → Resolver → Resolver
evict now r = drop_oldest (drop_where (is_older r.ttl now) r.sessions r)

-- s, ok := sr.sessions[k]; ok && s.Tenant == tenant
pub owned : String → String → Resolver → Option Binding
owned tenant k r = elim (get r.sessions k) [
  | none ↦ none
  | some s ↦ if str_eq s.tenant tenant then some s else none
]

-- The key that an explicit id names, where its binding is of the tenant, and that binding.
pub explicit_binding : String → String → Resolver → Option (String × Binding)
explicit_binding tenant id r = elim (get r.by_explicit (explicit_key tenant id)) [
  | none ↦ none
  | some k ↦ elim (owned tenant k r) [ none ↦ none | some s ↦ some (k, s) ]
]

-- lookupForTenantLocked, which is GetSession
pub lookup_for_tenant : String → String → Resolver → Option Binding
lookup_for_tenant tenant id r =
    if str_eq tenant "" then none else if str_eq id "" then none else elim (owned tenant id r) [
      | some s ↦ some s
      | none ↦ elim (explicit_binding tenant id r) [ none ↦ none | some (k, s) ↦ some s ]
    ]

-- DeleteSession
pub delete_session : String → String → Resolver → Resolver × Bool
delete_session tenant id r = elim (lookup_for_tenant tenant id r) [
  | none ↦ (r, false)
  | some s ↦ (record (drop_session s.session_id s r) { dirty = true }, true)
]

-- How many entries pass a test.
pub count_where : (Binding → Bool) → Dict Binding → ℕ
count_where p [] = 0
count_where p ((id, s) ∷ d) = let n = count_where p d in if p s then suc n else n

abbrev pub of_conversation : String → Binding → Bool
of_conversation id s = str_eq s.conversation_id id

-- UnbindByConversation
pub unbind : String → Resolver → Resolver × ℕ
unbind id r =
    let removed = count_where (of_conversation id) r.sessions in
    let r1 = drop_where (of_conversation id) r.sessions r in
    (record r1 { dirty = if ltb 0 removed then true else r1.dirty }, removed)
