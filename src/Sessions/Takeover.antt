-- ===== src/Sessions/Takeover.antt =====
-- Which sessions Bind changes (internal/web/session_resolver.go).
use m365_copilot2api_docker.Base.{
  ℕ, ◌≡◌, ◌≢◌, refl, String, false, none, some, List, [], ◌∷◌, arith, str_eq, eq_iff, eq_refl,
  if◌then◌else◌, ◌∙◌, Bool-cases, Option-cases, inl, inr, ◌⊎◌, ◌&&◌, sym,
}
use m365_copilot2api_docker.Dict.{Dict, get, put, get-put, IsDict}
use m365_copilot2api_docker.Messages.{Message, Call}
use m365_copilot2api_docker.Sessions.{
  Binding, Resolver, Request, owned, explicit_binding, evict, reindex, of_conversation,
  delete_session,
}
use m365_copilot2api_docker.Sessions.Eviction.{evict-IsDict, evict-survivor}
use m365_copilot2api_docker.Sessions.Resolving.{tenant_from_request, resolve}
use m365_copilot2api_docker.Sessions.Recording.{
  Turn, find_conversation, target_key, updated, created, bind_kept, bind,
}
use m365_copilot2api_docker.Sessions.Outcomes.{explicit_binding-tenant}
use m365_copilot2api_docker.Sessions.Isolation.{IsFiled, resolve_others, delete_isolated}

-- A key is empty, or it names a session of the tenant.
abbrev IsOwn : String → String → Dict Binding → Type 0
IsOwn tenant k d = (k ≡ "") ⊎ ((s : Binding) × (get d k ≡ some s) × (s.tenant ≡ tenant))

find_conversation-IsOwn :
    (tenant id : String) (d : Dict Binding)
    → IsDict d
    → IsOwn tenant (find_conversation tenant id d) d
unfolding find_conversation get
find_conversation-IsOwn tenant id [] h = inl refl
find_conversation-IsOwn tenant id ((k, s) ∷ d) h =
    elim (Bool-cases (str_eq s.tenant tenant && of_conversation id s)) [
      | inl here ↦ inr (s, rw (here, eq_refl k) refl, ground (arith, here, eq_iff s.tenant tenant))
      | inr other ↦ elim (find_conversation-IsOwn tenant id d h.1) [
        | inl e ↦ inl (rw other e)
        | inr (t, found, mine) ↦
            let later = find_conversation tenant id d in
            inr (t, rw other (ground (arith, found, h.0, eq_iff k later)), mine)
      ]
    ]

target_key-IsOwn :
    (tenant header conversation : String) (r : Resolver)
    → IsDict r.sessions
    → IsOwn tenant (target_key tenant header conversation r) r.sessions
unfolding target_key
target_key-IsOwn tenant header conversation r h =
    let by_conversation : IsOwn tenant
        (if str_eq conversation "" then "" else find_conversation tenant conversation r.sessions)
        r.sessions =
      elim (Bool-cases (str_eq conversation "")) [
        | inl e ↦ inl (rw e refl)
        | inr e ↦ rw e (find_conversation-IsOwn tenant conversation r.sessions h)
      ] in
    elim (Bool-cases (str_eq header "")) [
      | inl e ↦ rw e by_conversation
      | inr e ↦ elim (Option-cases (explicit_binding tenant header r)) [
        | inl f ↦ rw (e, f) by_conversation
        | inr ((k, s), f) ↦
            let (found, mine) = explicit_binding-tenant tenant header r k s f in
            elim (Bool-cases (str_eq k "")) [
              | inl g ↦ rw (e, f, g) by_conversation
              | inr g ↦ rw (e, f, g) (inr (s, found, mine))
            ]
      ]
    ]

pub evict-IsFiled : (now : ℕ) (r : Resolver) → IsDict r.sessions → IsFiled r → IsFiled (evict now r)
evict-IsFiled now r h f k s e = f k s (evict-survivor now r k s h e).0

owned-foreign :
    (tenant k : String) (r : Resolver) (s : Binding)
    → get r.sessions k ≡ some s
    → str_eq s.tenant tenant ≡ false
    → owned tenant k r ≡ none
unfolding owned
owned-foreign tenant k r s e other = rw (e, owned) (rw other refl)

-- A session does not survive an eviction, or what follows from its survival holds.
after_eviction :
    (now : ℕ) (r : Resolver) (j : String) (s : Binding) (P : Type 0)
    → IsDict r.sessions
    → get r.sessions j ≡ some s
    → (get (evict now r).sessions j ≡ some s → P)
    → (get (evict now r).sessions j ≢ some s) ⊎ P
after_eviction now r j s P h e then_P = elim (Option-cases (get (evict now r).sessions j)) [
  | inl gone ↦ inl (λ kept. ground (arith, gone, kept))
  | inr (t, kept) ↦
      let same : some t ≡ some s = sym (evict-survivor now r j t h kept).0 ∙ e in
      inr (then_P (kept ∙ same))
]

module _ (content_text : Message → String) (call_text : Call → String)
    (key_hash digest : String → String) where
  -- What the two branches of Bind do to the sessions.
  pub bind_kept-cases :
      (now : ℕ) (fresh : String) (q : Request) (t : Turn) (r : Resolver)
      → IsDict r.sessions
      → IsFiled r
      → let after = (bind_kept content_text call_text key_hash digest now fresh q t r).sessions in
        let new = created content_text call_text key_hash digest now fresh q t in
        ((target_key (tenant_from_request key_hash q) q.session_header t.conversation_id r ≡ "")
          × (after ≡ put r.sessions new.session_id new))
        ⊎ ((k : String) × (s : Binding) × (get r.sessions k ≡ some s)
            × (s.tenant ≡ tenant_from_request key_hash q)
            × let new = updated content_text call_text key_hash digest now q t s in
              (after ≡ put (put r.sessions k new) k new))
  unfolding bind_kept reindex updated
  bind_kept-cases now fresh q t r h f =
      let tenant = tenant_from_request key_hash q in
      let target = target_key tenant q.session_header t.conversation_id r in
      elim (Bool-cases (str_eq target "")) [
        | inl e ↦ inl (ground (arith, e, eq_iff target ""), rw e refl)
        | inr e ↦ elim (target_key-IsOwn tenant q.session_header t.conversation_id r h) [
          | inl g ↦ ground (arith, e, g, eq_iff target "")
          | inr (s, found, mine) ↦
              inr (target, s, found, mine, rw (e, found) (rw (f target s found) refl))
        ]
      ]

  bind_others :
      (now : ℕ) (fresh : String) (q : Request) (t : Turn) (r : Resolver) (j : String) (s : Binding)
      → IsDict r.sessions
      → IsFiled r
      → get (evict now r).sessions j ≡ some s
      → s.tenant ≢ tenant_from_request key_hash q
      → (created content_text call_text key_hash digest now fresh q t).session_id ≢ j
      → get (bind content_text call_text key_hash digest now fresh q t r).sessions j ≡ some s
  unfolding bind
  bind_others now fresh q t r j s h f e other free =
      let r1 = evict now r in
      let new = created content_text call_text key_hash digest now fresh q t in
      elim (bind_kept-cases now fresh q t r1 (evict-IsDict now r h) (evict-IsFiled now r h f)) [
        | inl (none_own, after) ↦ rw after (
            get-put r1.sessions new.session_id new j
            ∙ ground (arith, e, free, eq_iff new.session_id j))
        | inr (k, u, found, mine, after) ↦
            let up = updated content_text call_text key_hash digest now q t u in
            let away : str_eq k j ≡ false = ground (arith, found, e, mine, eq_iff k j) in
            rw after (
              get-put (put r1.sessions k up) k up j
              ∙ rw away (get-put r1.sessions k up j ∙ rw away e))
      ]

  unless_named :
      (now : ℕ) (fresh : String) (q : Request) (t : Turn) (r : Resolver) (j : String) (s : Binding)
      → IsDict r.sessions
      → IsFiled r
      → get (evict now r).sessions j ≡ some s
      → s.tenant ≢ tenant_from_request key_hash q
      → ((created content_text call_text key_hash digest now fresh q t).session_id ≡ j)
        ⊎ (get (bind content_text call_text key_hash digest now fresh q t r).sessions j ≡ some s)
  unless_named now fresh q t r j s h f e other =
      let id = (created content_text call_text key_hash digest now fresh q t).session_id in
      elim (Bool-cases (str_eq id j)) [
        | inl same ↦ inl (ground (arith, same, eq_iff id j))
        | inr away ↦ inr (
            bind_others now fresh q t r j s h f e other
              (λ same. ground (arith, away, same, eq_iff id j)))
      ]

  -- Where each session stands once in the map and under its own id: DeleteSession leaves a session of
  -- another tenant as it is; Resolve leaves it so if it survives the eviction at its beginning, and
  -- so does Bind if besides the id that it takes for a new session does not name it.
  pub others_untouched :
      (now : ℕ) (fresh : String) (q : Request) (t : Turn) (ms : List Message) (id : String)
      (r : Resolver) (j : String) (s : Binding)
      → IsDict r.sessions
      → IsFiled r
      → get r.sessions j ≡ some s
      → s.tenant ≢ tenant_from_request key_hash q
      → let kept = get (evict now r).sessions j in
        (get (delete_session (tenant_from_request key_hash q) id r).0.sessions j ≡ some s)
        × ((kept ≢ some s)
            ⊎ (get (resolve content_text call_text key_hash digest now q ms r).0.sessions j
                ≡ some s))
        × ((kept ≢ some s)
            ⊎ ((created content_text call_text key_hash digest now fresh q t).session_id ≡ j)
            ⊎ (get (bind content_text call_text key_hash digest now fresh q t r).sessions j
                ≡ some s))
  others_untouched now fresh q t ms id r j s h f e other = (
    delete_isolated (tenant_from_request key_hash q) id r j s f e other,
    after_eviction now r j s
        (get (resolve content_text call_text key_hash digest now q ms r).0.sessions j ≡ some s) h e
        (λ kept. resolve_others content_text call_text key_hash digest now q ms r j s h kept other),
    after_eviction now r j s
        (((created content_text call_text key_hash digest now fresh q t).session_id ≡ j)
          ⊎ (get (bind content_text call_text key_hash digest now fresh q t r).sessions j ≡ some s))
        h e (λ kept. unless_named now fresh q t r j s h f kept other),
  )

  -- Where the caller has no session yet for its explicit id and its conversation, and the turn
  -- names the id of a session, Bind puts the caller's session in the place of that one, also where
  -- another tenant owns it: its owner is not found under the id any more.
  pub bind_takes_over :
      (now : ℕ) (fresh : String) (q : Request) (t : Turn) (r : Resolver) (s : Binding)
      → get (evict now r).sessions t.session_id ≡ some s
      → s.tenant ≢ tenant_from_request key_hash q
      → t.session_id ≢ ""
      → target_key (tenant_from_request key_hash q) q.session_header t.conversation_id (evict now r)
        ≡ ""
      → let after = bind content_text call_text key_hash digest now fresh q t r in
        (owned s.tenant t.session_id after ≡ none)
        × ((u : Binding) × (get after.sessions t.session_id ≡ some u)
            × (u.tenant ≡ tenant_from_request key_hash q)
            × (u.conversation_id ≡ t.conversation_id))
  unfolding bind bind_kept reindex created
  bind_takes_over now fresh q t r s e other given free =
      let r1 = evict now r in
      let new = created content_text call_text key_hash digest now fresh q t in
      let own_id : new.session_id ≡ t.session_id = ground (arith, given, eq_iff t.session_id "") in
      let there : get (bind content_text call_text key_hash digest now fresh q t r).sessions
            t.session_id
          ≡ some new =
        rw free (
          get-put r1.sessions new.session_id new t.session_id
          ∙ rw own_id (rw (eq_refl t.session_id) refl)) in
      let lost : str_eq new.tenant s.tenant ≡ false =
        ground (arith, other, eq_iff new.tenant s.tenant) in
      (owned-foreign s.tenant t.session_id _ new there lost, (new, there, refl, refl))
