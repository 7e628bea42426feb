-- ===== src/Sessions/Recording.antt =====
-- How an answered request is recorded as a session (Bind, internal/web/session_resolver.go).
use m365_copilot2api_docker.Base.{
  ℕ, String, true, false, none, some, List, [], ◌∷◌, ◌++◌, ◌&&◌, str_eq, if◌then◌else◌,
}
use m365_copilot2api_docker.Text.{trim}
use m365_copilot2api_docker.Dict.{Dict, put}
use m365_copilot2api_docker.Messages.{Message, Call}
use m365_copilot2api_docker.Sessions.{
  Binding, Resolver, Request, reindex, evict, explicit_binding, of_conversation,
}
use m365_copilot2api_docker.Sessions.History.{clone_messages}
use m365_copilot2api_docker.Sessions.Resolving.{
  session_of, tenant_from_request, client_ip_fingerprint, context_fingerprint,
}

-- The arguments of Bind, with what it reads of the body.
pub record Turn : Type 0 where
  pub session_id : String
  pub conversation_id : String
  pub account_id : String
  pub messages : List Message
  pub user : String
  pub assistant_text : String

abbrev pub assistant : String → Message
assistant text = record {
  role = "assistant";
  name = "";
  content = text;
  calls_given = false;
  tool_calls = [];
  tool_call_id = "";
}

abbrev reply : String → List Message
reply text = elim (trim text) [ [] ↦ [] | c ∷ cs ↦ assistant text ∷ [] ]

-- The key of the first session of a tenant and a conversation, of those that the map lists.
unfoldable pub find_conversation : String → String → Dict Binding → String
find_conversation tenant id [] = ""
find_conversation tenant id ((k, s) ∷ d) =
    let later = find_conversation tenant id d in
    if str_eq s.tenant tenant && of_conversation id s then k else later

-- The key of the session that is updated in place, or the empty text.
unfoldable pub target_key : String → String → String → Resolver → String
target_key tenant header conversation r =
    let named : String =
      if str_eq header ""
      then ""
      else elim (explicit_binding tenant header r) [ none ↦ "" | some (k, s) ↦ k ] in
    if str_eq named ""
    then (if str_eq conversation "" then "" else find_conversation tenant conversation r.sessions)
    else named

-- The history that is stored.
unfoldable pub history_of : (Message → String) → (Call → String) → Turn → List Message
history_of content_text call_text t =
    clone_messages content_text call_text t.messages ++ reply t.assistant_text

-- `fresh` is the uuid that is taken where the turn has no session id.
module _ (content_text : Message → String) (call_text : Call → String)
    (key_hash digest : String → String) where
  -- The binding that is updated in place.
  unfoldable pub updated : ℕ → Request → Turn → Binding → Binding
  updated now q t s = record s {
    conversation_id = t.conversation_id;
    account_id = t.account_id;
    last_used_at = now;
    user_field = t.user;
    ip_fingerprint = client_ip_fingerprint digest q;
    context_finger = context_fingerprint digest (history_of content_text call_text t);
    context_history = history_of content_text call_text t;
    tenant = tenant_from_request key_hash q;
    explicit_id = if str_eq q.session_header "" then s.explicit_id else q.session_header;
  }

  -- The new binding.
  unfoldable pub created : ℕ → String → Request → Turn → Binding
  created now fresh q t = record {
    session_id = if str_eq t.session_id "" then fresh else t.session_id;
    conversation_id = t.conversation_id;
    account_id = t.account_id;
    created_at = now;
    last_used_at = now;
    ip_fingerprint = client_ip_fingerprint digest q;
    user_field = t.user;
    context_finger = context_fingerprint digest (history_of content_text call_text t);
    context_history = history_of content_text call_text t;
    tenant = tenant_from_request key_hash q;
    explicit_id = q.session_header;
  }

  -- Bind, after the eviction.
  unfoldable pub bind_kept : ℕ → String → Request → Turn → Resolver → Resolver
  bind_kept now fresh q t r =
      let target =
        target_key (tenant_from_request key_hash q) q.session_header t.conversation_id r in
      let s = updated now q t (session_of r target) in
      let in_place = reindex s (record r { sessions = put r.sessions target s }) in
      let added = reindex (created now fresh q t) r in
      if str_eq target "" then record added { dirty = true } else record in_place { dirty = true }

  -- Bind
  unfoldable pub bind : ℕ → String → Request → Turn → Resolver → Resolver
  bind now fresh q t r = bind_kept now fresh q t (evict now r)
