-- ===== src/Sessions/Isolation.antt =====
-- What a tenant sees and changes of the sessions: its own (internal/web/session_resolver.go).
use m365_copilot2api_docker.Base.{
  ℕ, ◌≡◌, ◌≢◌, String, false, some, List, arith, str_eq, eq_iff, ◌∙◌, Option-cases, inl, inr,
}
use m365_copilot2api_docker.Dict.{get, get-put, get-remove, IsDict}
use m365_copilot2api_docker.Messages.{Message, Call}
use m365_copilot2api_docker.Sessions.{
  Binding, Resolver, Request, owned, explicit_binding, lookup_for_tenant, delete_session,
  drop_session, evict,
}
use m365_copilot2api_docker.Sessions.Eviction.{evict-IsDict}
use m365_copilot2api_docker.Sessions.Resolving.{Resumed, resume, tenant_from_request, resolve}
use m365_copilot2api_docker.Sessions.Outcomes.{owned-tenant, explicit_binding-tenant, kept_outcome}

-- The sessions are filed under their own ids.
abbrev pub IsFiled : Resolver → Type 0
IsFiled r = (k : String) (s : Binding) → get r.sessions k ≡ some s → s.session_id ≡ k

-- Who is answered: a binding of the tenant.
lookup-tenant :
    (tenant id : String) (r : Resolver) (s : Binding)
    → lookup_for_tenant tenant id r ≡ some s
    → (k : String) × (get r.sessions k ≡ some s) × (s.tenant ≡ tenant)
unfolding lookup_for_tenant
lookup-tenant tenant id r s h = elim (Option-cases (owned tenant id r)) [
  | inr (t, f) ↦
      let (found, mine) = owned-tenant tenant id r t f in
      let same : t ≡ s = ground (arith, f) in (id, rw (← same) found, rw (← same) mine)
  | inl f ↦ elim (Option-cases (explicit_binding tenant id r)) [
    | inr ((k, t), g) ↦
        let (found, mine) = explicit_binding-tenant tenant id r k t g in
        let same : t ≡ s = ground (arith, f, g) in (k, rw (← same) found, rw (← same) mine)
    | inl g ↦ ground (arith, f, g)
  ]
]

-- Where the sessions are filed under their own ids, a tenant's deletion leaves the sessions of
-- other tenants as they are.
pub delete_isolated :
    (tenant id : String) (r : Resolver) (j : String) (s : Binding)
    → IsFiled r
    → get r.sessions j ≡ some s
    → s.tenant ≢ tenant
    → get (delete_session tenant id r).0.sessions j ≡ some s
unfolding delete_session drop_session
delete_isolated tenant id r j s f e other = elim (Option-cases (lookup_for_tenant tenant id r)) [
  | inl n ↦ rw (n, delete_session) e
  | inr (t, h) ↦
      let (k, found, mine) = lookup-tenant tenant id r t h in
      let here = f k t found in
      let away : str_eq t.session_id j ≡ false =
        ground (arith, found, mine, here, eq_iff t.session_id j) in
      rw (h, delete_session) (get-remove r.sessions t.session_id j ∙ rw away e)
]

module _ (content_text : Message → String) (call_text : Call → String)
    (key_hash digest : String → String) where
  -- Where each session stands once in the map, a session that Resolve answers is one that the
  -- eviction left, and it belongs to the tenant of the request.
  pub resolve_isolated :
      (now : ℕ) (q : Request) (ms : List Message) (r : Resolver) (a : Resumed)
      → IsDict r.sessions
      → (resolve content_text call_text key_hash digest now q ms r).1 ≡ some a
      → (k : String) × (s : Binding) × (get (evict now r).sessions k ≡ some s)
        × (s.tenant ≡ tenant_from_request key_hash q)
        × (a.session_id ≡ s.session_id)
        × (a.conversation_id ≡ s.conversation_id)
        × (a.account_id ≡ s.account_id)
  unfolding resolve resume
  resolve_isolated now q ms r a h e =
      elim (kept_outcome content_text call_text key_hash digest now q ms (evict now r)
        (evict-IsDict now r h)) [
          | inl nothing ↦ ground (arith, nothing)
          | inr (k, s, by, n, out, found, mine, why) ↦
              (k, s, found, mine, ground (arith, out), ground (arith, out), ground (arith, out))
        ]

  -- Where each session stands once in the map, Resolve leaves the sessions of other tenants that
  -- the eviction left as they are.
  pub resolve_others :
      (now : ℕ) (q : Request) (ms : List Message) (r : Resolver) (j : String) (s : Binding)
      → IsDict r.sessions
      → get (evict now r).sessions j ≡ some s
      → s.tenant ≢ tenant_from_request key_hash q
      → get (resolve content_text call_text key_hash digest now q ms r).0.sessions j ≡ some s
  unfolding resolve resume
  resolve_others now q ms r j s h e other =
      elim (kept_outcome content_text call_text key_hash digest now q ms (evict now r)
        (evict-IsDict now r h)) [
          | inl nothing ↦ rw nothing e
          | inr (k, t, by, n, out, found, mine, why) ↦
              let r1 = evict now r in
              let away : str_eq k j ≡ false = ground (arith, found, e, mine, eq_iff k j) in
              rw out (get-put r1.sessions k (record t { last_used_at = now }) j ∙ rw away e)
        ]
