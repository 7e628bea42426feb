-- ===== src/Sessions/Resolving.antt =====
-- How a request finds the session that it continues (Resolve, internal/web/session_resolver.go).
use Prim.Native.String.{◌++◌ as join}
use m365_copilot2api_docker.Base.{
  ℕ, ◌-◌, String, true, Option, none, some, List, [], ◌∷◌, leb, str_eq, if◌then◌else◌, or_zero,
  length, drop,
}
use m365_copilot2api_docker.Dict.{get, put}
use m365_copilot2api_docker.Messages.{Message, Call}
use m365_copilot2api_docker.Sessions.{
  Binding, Resolver, Request, no_binding, evict, explicit_binding,
}
use m365_copilot2api_docker.Sessions.Matching.{match_context, match_suffix}

-- MatchedBy
pub data MatchedBy : Type 0 where
  explicit : MatchedBy
  context_prefix context_suffix : ℕ → MatchedBy

-- ResolveResult, where IsNew does not hold; then it is none.
pub record Resumed : Type 0 where
  pub session_id : String
  pub conversation_id : String
  pub account_id : String
  pub matched_by : MatchedBy
  pub history_len : ℕ

-- The use of a session is noted, and the session is the result.
unfoldable pub resume : ℕ → String → Binding → MatchedBy → ℕ → Resolver → Resolver × Option Resumed
resume now id s by n r = (
  record r { sessions = put r.sessions id (record s { last_used_at = now }); dirty = true },
  some (record {
    session_id = s.session_id;
    conversation_id = s.conversation_id;
    account_id = s.account_id;
    matched_by = by;
    history_len = n;
  }),
)

-- The key of the session that an explicit id names, where that is of the tenant.
abbrev pub session_of : Resolver → String → Binding
session_of r id = or_zero no_binding (get r.sessions id)

unfoldable pub contents : List Message → String
contents [] = ""
contents (m ∷ []) = join m.role (join ":" m.content)
contents (m ∷ n ∷ ms) = join m.role (join ":" (join m.content (join "||" (contents (n ∷ ms)))))

-- tenantFromRequest; `key_hash` is keyHash.
unfoldable pub tenant_from_request : (String → String) → Request → String
tenant_from_request key_hash q = if str_eq q.api_key "" then "" else key_hash q.api_key

-- clientIPFingerprint; `digest` is the start of a SHA-256 in hexadecimal.
unfoldable pub client_ip_fingerprint : (String → String) → Request → String
client_ip_fingerprint digest q = digest (join q.host (join "|" q.user_agent))

-- contextFingerprint
unfoldable pub context_fingerprint : (String → String) → List Message → String
context_fingerprint digest ms =
    if leb (length ms) 0 then "" else digest (contents (drop (length ms - 3) ms))

module _ (content_text : Message → String) (call_text : Call → String)
    (key_hash digest : String → String) where
  -- Resolve, after the explicit id and the eviction.
  unfoldable pub resolve_content : ℕ → Request → List Message → Resolver → Resolver × Option Resumed
  resolve_content now q ms r =
      let tenant = tenant_from_request key_hash q in
      let ip = client_ip_fingerprint digest q in
      let best = match_context content_text call_text r.context_ttl now tenant ip ms r.sessions in
      let suffix = match_suffix r.context_ttl now tenant ip ms r.sessions in
      if str_eq best.id ""
      then (if str_eq suffix.id ""
          then (r, none)
          else resume now suffix.id (session_of r suffix.id) (context_suffix suffix.n) suffix.n r)
      else resume now best.id (session_of r best.id) (context_prefix best.n) best.n r

  -- Resolve, after the eviction.
  unfoldable pub resolve_kept : ℕ → Request → List Message → Resolver → Resolver × Option Resumed
  resolve_kept now q ms r =
      let tenant = tenant_from_request key_hash q in
      if str_eq q.session_header ""
      then resolve_content now q ms r
      else elim (explicit_binding tenant q.session_header r) [
        | none ↦ resolve_content now q ms r
        | some (k, s) ↦ resume now k s explicit (length s.context_history) r
      ]

  -- Resolve
  unfoldable pub resolve : ℕ → Request → List Message → Resolver → Resolver × Option Resumed
  resolve now q ms r = resolve_kept now q ms (evict now r)
