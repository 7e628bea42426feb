-- ===== src/Sessions/Outcomes.antt =====
-- How a request ends: with a new session, or with one of its tenant
-- (internal/web/session_resolver.go).
use m365_copilot2api_docker.Base.{
  ℕ, ◌≤◌, ◌≡◌, refl, String, Option, none, some, List, [], ◌∷◌, not, arith, str_eq, eq_iff, length,
  ap, Bool-cases, Option-cases, inl, inr, ◌⊎◌, ltb, ◌&&◌,
}
use m365_copilot2api_docker.Dict.{Dict, get, IsDict}
use m365_copilot2api_docker.Messages.{Message, Call}
use m365_copilot2api_docker.Sessions.{
  Binding, Resolver, Request, owned, explicit_binding, explicit_key,
}
use m365_copilot2api_docker.Sessions.Matching.{
  no_match, match_context, match_suffix, context_prefix_len, suffix_match_len, is_eligible,
}
use m365_copilot2api_docker.Sessions.Best.{IsMatch, best_match-IsMatch}
use m365_copilot2api_docker.Sessions.Resolving.{
  MatchedBy, explicit, context_prefix, context_suffix, Resumed, resume, tenant_from_request,
  client_ip_fingerprint, resolve_content, resolve_kept,
}

pub owned-tenant :
    (tenant k : String) (r : Resolver) (s : Binding)
    → owned tenant k r ≡ some s
    → (get r.sessions k ≡ some s) × (s.tenant ≡ tenant)
unfolding owned
owned-tenant tenant k r s h = elim (Option-cases (get r.sessions k)) [
  | inl none_there ↦ ground (arith, none_there)
  | inr (t, there) ↦ ground (arith, there, eq_iff t.tenant tenant)
]

pub explicit_binding-tenant :
    (tenant id : String) (r : Resolver) (k : String) (s : Binding)
    → explicit_binding tenant id r ≡ some (k, s)
    → (get r.sessions k ≡ some s) × (s.tenant ≡ tenant)
unfolding explicit_binding
explicit_binding-tenant tenant id r k s h =
    elim (Option-cases (get r.by_explicit (explicit_key tenant id))) [
      | inl e ↦ ground (arith, e)
      | inr (j, e) ↦ elim (Option-cases (owned tenant j r)) [
        | inl f ↦ ground (arith, e, f)
        | inr (t, f) ↦ ground (arith, e, f, owned-tenant tenant j r t)
      ]
    ]

-- Why a session is resumed, and with how many messages.
abbrev pub Reason :
    (Message → String) → (Call → String) → List Message → Binding → ℕ → MatchedBy → Type 0
Reason content_text call_text ms s n explicit = n ≡ length s.context_history
Reason content_text call_text ms s n (context_prefix m) =
    (m ≡ n) × (n ≡ context_prefix_len content_text call_text s.context_history ms) × (1 ≤ n)
Reason content_text call_text ms s n (context_suffix m) =
    (m ≡ n) × (n ≡ suffix_match_len s.context_history ms) × (2 ≤ n)

module _ (content_text : Message → String) (call_text : Call → String)
    (key_hash digest : String → String) where
  -- What Resolve does after the eviction: nothing, or it resumes a session of the tenant.
  abbrev pub Outcome : ℕ → Request → List Message → Resolver → Resolver × Option Resumed → Type 0
  Outcome now q ms r out =
      (out ≡ (r, none))
      ⊎ ((k : String) × (s : Binding) × (by : MatchedBy) × (n : ℕ) × (out ≡ resume now k s by n r)
          × (get r.sessions k ≡ some s)
          × (s.tenant ≡ tenant_from_request key_hash q)
          × Reason content_text call_text ms s n by)

  context_found :
      (ttl now : ℕ) (tenant ip : String) (ms : List Message) (d : Dict Binding)
      → IsDict d
      → let m = match_context content_text call_text ttl now tenant ip ms d in
        (m.id ≡ "")
        ⊎ IsMatch
            (is_eligible ttl now tenant ip)
            (λ s. context_prefix_len content_text call_text s.context_history ms)
            1
            d
            m
  unfolding match_context
  context_found ttl now tenant ip [] d h = inl refl
  context_found ttl now tenant ip (x ∷ ms) d h = elim (best_match-IsMatch _ _ 1 d no_match h) [
    | inl e ↦ inl (ap (λ m. m.id) e)
    | inr m ↦ inr m
  ]

  suffix_found :
      (ttl now : ℕ) (tenant ip : String) (ms : List Message) (d : Dict Binding)
      → IsDict d
      → let m = match_suffix ttl now tenant ip ms d in
        (m.id ≡ "")
        ⊎ IsMatch
            (λ s. is_eligible ttl now tenant ip s && not (ltb (length s.context_history) 2))
            (λ s. suffix_match_len s.context_history ms)
            2
            d
            m
  unfolding match_suffix
  suffix_found ttl now tenant ip ms d h = elim (Bool-cases (ltb (length ms) 2)) [
    | inl few ↦ inl (rw few refl)
    | inr many ↦ rw many (elim (best_match-IsMatch _ _ 2 d no_match h) [
      | inl e ↦ inl (ap (λ m. m.id) e)
      | inr m ↦ inr m
    ])
  ]

  content_outcome :
      (now : ℕ) (q : Request) (ms : List Message) (r : Resolver)
      → IsDict r.sessions
      → Outcome now q ms r (resolve_content content_text call_text key_hash digest now q ms r)
  unfolding resolve_content
  content_outcome now q ms r h =
      let tenant = tenant_from_request key_hash q in
      let ip = client_ip_fingerprint digest q in
      let best = match_context content_text call_text r.context_ttl now tenant ip ms r.sessions in
      let suffix = match_suffix r.context_ttl now tenant ip ms r.sessions in
      elim (Bool-cases (str_eq best.id "")) [
        | inl no_context ↦ elim (Bool-cases (str_eq suffix.id "")) [
          | inl no_suffix ↦ inl (rw (no_context, no_suffix) refl)
          | inr some_suffix ↦ elim (suffix_found r.context_ttl now tenant ip ms r.sessions h) [
            | inl e ↦ ground (arith, e, some_suffix, eq_iff suffix.id "")
            | inr (s, found, e, n, l) ↦ inr (
              suffix.id,
              s,
              context_suffix suffix.n,
              suffix.n,
              rw (no_context, some_suffix, found) refl,
              found,
              ground (arith, e, eq_iff s.tenant tenant),
              (refl, n, l),
            )
          ]
        ]
        | inr some_context ↦ elim (context_found r.context_ttl now tenant ip ms r.sessions h) [
          | inl e ↦ ground (arith, e, some_context, eq_iff best.id "")
          | inr (s, found, e, n, l) ↦ inr (
            best.id,
            s,
            context_prefix best.n,
            best.n,
            rw (some_context, found) refl,
            found,
            ground (arith, e, eq_iff s.tenant tenant),
            (refl, n, l),
          )
        ]
      ]

  pub kept_outcome :
      (now : ℕ) (q : Request) (ms : List Message) (r : Resolver)
      → IsDict r.sessions
      → Outcome now q ms r (resolve_kept content_text call_text key_hash digest now q ms r)
  unfolding resolve_kept
  kept_outcome now q ms r h =
      let tenant = tenant_from_request key_hash q in
      elim (Bool-cases (str_eq q.session_header "")) [
        | inl anonymous ↦ rw anonymous (content_outcome now q ms r h)
        | inr named ↦ rw named (elim (Option-cases (explicit_binding tenant q.session_header r)) [
          | inl e ↦ rw e (content_outcome now q ms r h)
          | inr ((k, s), e) ↦
              let (found, mine) = explicit_binding-tenant tenant q.session_header r k s e in
              inr (k, s, explicit, length s.context_history, rw e refl, found, mine, refl)
        ])
      ]
