-- ===== src/Sessions/NextTurn.antt =====
-- The next turn of a conversation that was recorded (Bind and then Resolve,
-- internal/web/session_resolver.go).
use Prim.Native.String.{◌++◌ as join}
use m365_copilot2api_docker.Base.{
  ℕ, ◌-◌, ◌≤◌, ◌≡◌, refl, String, true, false, some, List, [], ◌∷◌, ◌++◌, arith, str_eq, eq_iff,
  eq_refl, if◌then◌else◌, length, ◌∙◌, ap, inl, inr, is_some, Option-cases, ◌⊎◌, sym, Bool-cases,
  ◌≢◌, ◌<◌, Option,
}
use m365_copilot2api_docker.Dict.{Dict, get, put, get-put, IsDict}
use m365_copilot2api_docker.Messages.{Message, Call}
use m365_copilot2api_docker.Budget.{Atom, build_atoms}
use m365_copilot2api_docker.Budget.Grouping.{messages_of}
use m365_copilot2api_docker.Sessions.{Binding, Resolver, Request, evict}
use m365_copilot2api_docker.Sessions.Matching.{
  match_context, context_prefix_len, is_eligible, no_match,
}
use m365_copilot2api_docker.Sessions.Best.{best_match-IsMatch, best_match-longest, IsMatch}
use m365_copilot2api_docker.Sessions.Eviction.{
  evict-IsDict, evict-survivor, evict-SameLimits, get-evict_room,
}
use m365_copilot2api_docker.Sessions.Resolving.{
  context_prefix, Resumed, resume, resolve_content, resolve_kept, resolve, tenant_from_request,
  client_ip_fingerprint, session_of,
}
use m365_copilot2api_docker.Sessions.Recording.{Turn, history_of, created, updated, bind}
use m365_copilot2api_docker.Sessions.Takeover.{bind_kept-cases, evict-IsFiled}
use m365_copilot2api_docker.Sessions.Soundness.{IsSound, bind-IsSound}
use m365_copilot2api_docker.Sessions.Prefix.{context_prefix_len-append}

context_prefix_len-nil :
    (content_text : Message → String) (call_text : Call → String) (hist : List Message)
    → context_prefix_len content_text call_text hist [] ≡ 0
unfolding context_prefix_len
context_prefix_len-nil content_text call_text hist = ground arith

same_tenant :
    (key_hash : String → String) (p q : Request)
    → p.api_key ≡ q.api_key
    → tenant_from_request key_hash p ≡ tenant_from_request key_hash q
unfolding tenant_from_request
same_tenant key_hash p q e = ap (λ k. if str_eq k "" then "" else key_hash k) e

same_ip :
    (digest : String → String) (p q : Request)
    → p.host ≡ q.host
    → p.user_agent ≡ q.user_agent
    → client_ip_fingerprint digest p ≡ client_ip_fingerprint digest q
unfolding client_ip_fingerprint
same_ip digest p q h a =
    ap (λ x. digest (join x (join "|" p.user_agent))) h
    ∙ ap (λ x. digest (join q.host (join "|" x))) a

eligible :
    (ttl now later : ℕ) (tenant ip : String) (s : Binding)
    → s.tenant ≡ tenant
    → s.ip_fingerprint ≡ ip
    → s.last_used_at ≡ now
    → later - now ≤ ttl
    → is_eligible ttl later tenant ip s ≡ true
eligible ttl now later tenant ip s mine here used recent =
    ground (arith, mine, here, used, eq_iff s.tenant tenant, eq_iff s.ip_fingerprint ip)

twice :
    (d : Dict Binding) (k : String) (v : Binding) (j : String) (u : Binding)
    → get (put (put d k v) k v) j ≡ some u
    → get (put d k v) j ≡ some u
twice d k v j u e = ground (arith, get-put (put d k v) k v j, get-put d k v j, e)

put_or_before :
    (now : ℕ) (r : Resolver) (j : String) (u : Binding) (k : String) (v : Binding) (c : String)
    → IsDict r.sessions
    → v.conversation_id ≡ c
    → get (put (evict now r).sessions k v) j ≡ some u
    → (u.conversation_id ≡ c) ⊎ (get r.sessions j ≡ some u)
put_or_before now r j u k v c once same found =
    let split = get-put (evict now r).sessions k v j in
    elim (Bool-cases (str_eq k j)) [
      | inl here ↦
          let new : v ≡ u = ground (arith, split, here, found) in
          inl (ap (λ b. b.conversation_id) (sym new) ∙ same)
      | inr away ↦
          let old : get (evict now r).sessions j ≡ some u = sym (split ∙ rw away refl) ∙ found in
          inr (evict-survivor now r j u once old).0
    ]

module _ (content_text : Message → String) (call_text : Call → String)
    (key_hash digest : String → String) where
  -- A session that holds a turn of a request.
  abbrev Holds : ℕ → Request → Turn → Binding → Type 0
  Holds now q t s =
      (s.tenant ≡ tenant_from_request key_hash q)
      × (s.ip_fingerprint ≡ client_ip_fingerprint digest q)
      × (s.last_used_at ≡ now)
      × (s.context_history ≡ history_of content_text call_text t)
      × (s.conversation_id ≡ t.conversation_id)

  bound :
      (now : ℕ) (fresh : String) (q : Request) (t : Turn) (r : Resolver)
      → IsSound r
      → (k : String) × (s : Binding) × (get
            (bind content_text call_text key_hash digest now fresh q t r).sessions
            k
          ≡ some s)
        × Holds now q t s
  unfolding bind created updated
  bound now fresh q t r sound =
      let r1 = evict now r in
      let once = evict-IsDict now r sound.0 in
      let filed = evict-IsFiled now r sound.0 sound.1 in
      elim (bind_kept-cases content_text call_text key_hash digest now fresh q t r1 once filed) [
        | inl (none_own, after) ↦
            let new = created content_text call_text key_hash digest now fresh q t in
            (
              new.session_id,
              new,
              rw after (
                  get-put r1.sessions new.session_id new new.session_id
                  ∙ rw (eq_refl new.session_id) refl),
              (refl, refl, refl, refl, refl),
            )
        | inr (k, u, found, mine, after) ↦
            let up = updated content_text call_text key_hash digest now q t u in
            (
              k,
              up,
              rw after (get-put (put r1.sessions k up) k up k ∙ rw (eq_refl k) refl),
              (refl, refl, refl, refl, refl),
            )
      ]

  -- After Bind, a session is of the conversation of the turn, or it was there before.
  bound_or_before :
      (now : ℕ) (fresh : String) (q : Request) (t : Turn) (r : Resolver) (j : String) (u : Binding)
      → IsSound r
      → get (bind content_text call_text key_hash digest now fresh q t r).sessions j ≡ some u
      → (u.conversation_id ≡ t.conversation_id) ⊎ (get r.sessions j ≡ some u)
  unfolding bind created updated
  bound_or_before now fresh q t r j u sound found =
      let r1 = evict now r in
      let once = evict-IsDict now r sound.0 in
      let filed = evict-IsFiled now r sound.0 sound.1 in
      elim (bind_kept-cases content_text call_text key_hash digest now fresh q t r1 once filed) [
        | inl (none_own, after) ↦
            let new = created content_text call_text key_hash digest now fresh q t in
            put_or_before now r j u new.session_id new t.conversation_id sound.0 refl
              (ap (λ d. get d j) (sym after) ∙ found)
        | inr (k, v, there, mine, after) ↦
            let up = updated content_text call_text key_hash digest now q t v in
            put_or_before now r j u k up t.conversation_id sound.0 refl
              (twice r1.sessions k up j u (ap (λ d. get d j) (sym after) ∙ found))
      ]

  context-IsMatch :
      (ttl later : ℕ) (tenant ip : String) (ms : List Message) (d : Dict Binding) (k : String)
      (s : Binding)
      → IsDict d
      → is_some (get d "") ≡ false
      → get d k ≡ some s
      → is_eligible ttl later tenant ip s ≡ true
      → 1 ≤ context_prefix_len content_text call_text s.context_history ms
      → let m = match_context content_text call_text ttl later tenant ip ms d in
        (str_eq m.id "" ≡ false)
        × (context_prefix_len content_text call_text s.context_history ms ≤ m.n)
        × IsMatch
            (is_eligible ttl later tenant ip)
            (λ u. context_prefix_len content_text call_text u.context_history ms)
            1
            d
            m
  unfolding match_context
  context-IsMatch ttl later tenant ip [] d k s h e found able long =
      absurd (omega (arith, long, context_prefix_len-nil content_text call_text s.context_history))
  context-IsMatch ttl later tenant ip (x ∷ ms) d k s h e found able long =
      let score : Binding → ℕ =
        λ u. context_prefix_len content_text call_text u.context_history (x ∷ ms) in
      let far =
        best_match-longest (is_eligible ttl later tenant ip) score 1 d no_match k s found able
          long in
      elim (best_match-IsMatch (is_eligible ttl later tenant ip) score 1 d no_match h) [
        | inl nothing ↦ absurd (omega (arith, far, long, ap (λ m. m.n) nothing))
        | inr (u, there, fit, size, least) ↦
            let best = match_context content_text call_text ttl later tenant ip (x ∷ ms) d in
            (ground (arith, there, e, eq_iff best.id ""), far, (u, there, fit, size, least))
      ]

  -- A session that fits is resumed by its prefix, or another one by a longer one.
  resolve_content-prefix :
      (later : ℕ) (p : Request) (ms : List Message) (r : Resolver) (k : String) (s : Binding)
      → IsDict r.sessions
      → is_some (get r.sessions "") ≡ false
      → get r.sessions k ≡ some s
      → is_eligible r.context_ttl later
          (tenant_from_request key_hash p)
          (client_ip_fingerprint digest p)
          s
        ≡ true
      → 1 ≤ context_prefix_len content_text call_text s.context_history ms
      → (a : Resumed) × ((resolve_content content_text call_text key_hash digest later p ms r).1
          ≡ some a)
        × (a.matched_by ≡ context_prefix a.history_len)
        × (context_prefix_len content_text call_text s.context_history ms ≤ a.history_len)
        × ((j : String) × (u : Binding) × (get r.sessions j ≡ some u)
            × (u.tenant ≡ tenant_from_request key_hash p)
            × (a.history_len ≡ context_prefix_len content_text call_text u.context_history ms)
            × (a.conversation_id ≡ u.conversation_id))
  unfolding resolve_content resume
  resolve_content-prefix later p ms r k s once proper found able long =
      let tenant = tenant_from_request key_hash p in
      let ip = client_ip_fingerprint digest p in
      let (named, far, (u, there, fit, size, least)) =
        context-IsMatch r.context_ttl later tenant ip ms r.sessions k s once proper found able
          long in
      let best = match_context content_text call_text r.context_ttl later tenant ip ms r.sessions in
      let a : Resumed = record {
        session_id = u.session_id;
        conversation_id = u.conversation_id;
        account_id = u.account_id;
        matched_by = context_prefix best.n;
        history_len = best.n;
      } in
      let same : session_of r best.id ≡ u = rw there refl in
      let mine : u.tenant ≡ tenant = ground (arith, fit, eq_iff u.tenant tenant) in
      let out : Path (Option Resumed)
          (resolve_content content_text call_text key_hash digest later p ms r).1 (some a) =
        rw named (ap some (rw same refl)) in
      (a, out, refl, far, (best.id, u, there, mine, size, refl))

  resolve-content :
      (now : ℕ) (p : Request) (ms : List Message) (r : Resolver)
      → p.session_header ≡ ""
      → resolve content_text call_text key_hash digest now p ms r
        ≡ resolve_content content_text call_text key_hash digest now p ms (evict now r)
  unfolding resolve resolve_kept
  resolve-content now p ms r e = ground (arith, e, eq_iff p.session_header "")

  -- An eviction within the time limit, where there is room, leaves a session.
  evict-recent :
      (now : ℕ) (r : Resolver) (k : String) (s : Binding)
      → IsDict r.sessions
      → length r.sessions ≤ r.max_sessions
      → get r.sessions k ≡ some s
      → now - s.last_used_at ≤ r.ttl
      → get (evict now r).sessions k ≡ some s
  evict-recent now r k s once room found recent =
      get-evict_room now r k once room ∙ rw found (ground (arith, recent))

  evict-proper :
      (now : ℕ) (r : Resolver)
      → IsDict r.sessions
      → is_some (get r.sessions "") ≡ false
      → is_some (get (evict now r).sessions "") ≡ false
  evict-proper now r once proper = elim (Option-cases (get (evict now r).sessions "")) [
    | inl e ↦ rw e refl
    | inr (s, e) ↦ ground (arith, evict-survivor now r "" s once e, proper)
  ]

  -- From a state where each session stands once in the map, under its own id, a turn is recorded;
  -- then a request of the same key, address and user agent that names no session continues the
  -- recorded history at the end of an atom. Where no session of the caller for another conversation
  -- had a history that matches the request as far, the recorded history is not empty, no session has
  -- the empty id, there is room and none of the two time limits is over, Resolve answers the recorded
  -- conversation, by a prefix of at least the recorded history.
  pub next_turn_resumed :
      (now later : ℕ) (fresh : String) (q p : Request) (t : Turn) (more : List Message)
      (front back : List Atom) (r : Resolver)
      → let hist = history_of content_text call_text t in
        let after = bind content_text call_text key_hash digest now fresh q t r in
        IsSound r
        → ((j : String) (u : Binding)
            → get r.sessions j ≡ some u
            → (u.tenant ≢ tenant_from_request key_hash q)
              ⊎ (u.conversation_id ≡ t.conversation_id)
              ⊎ (context_prefix_len content_text call_text u.context_history (hist ++ more)
                  < length hist))
        → p.api_key ≡ q.api_key
        → p.host ≡ q.host
        → p.user_agent ≡ q.user_agent
        → p.session_header ≡ ""
        → build_atoms content_text call_text (hist ++ more) ≡ front ++ back
        → length (messages_of front) ≡ length hist
        → 1 ≤ length hist
        → is_some (get after.sessions "") ≡ false
        → length after.sessions ≤ after.max_sessions
        → later - now ≤ after.ttl
        → later - now ≤ after.context_ttl
        → (a : Resumed) × ((resolve content_text call_text key_hash digest later p
              (hist ++ more)
              after).1
            ≡ some a)
          × (a.matched_by ≡ context_prefix a.history_len)
          × (length hist ≤ a.history_len)
          × (a.conversation_id ≡ t.conversation_id)
  next_turn_resumed now later fresh q p t more front back r sound alone key host agent header split
        size long proper room ttl context_ttl =
      let hist = history_of content_text call_text t in
      let after = bind content_text call_text key_hash digest now fresh q t r in
      let once = (bind-IsSound content_text call_text key_hash digest now fresh q t r sound).0 in
      let (k, s, found, (mine, ip, used, history, same)) = bound now fresh q t r sound in
      let there = evict-recent later after k s once room found (rw used ttl) in
      let score : context_prefix_len content_text call_text s.context_history (hist ++ more)
          ≡ length hist =
        rw history
          (context_prefix_len-append content_text call_text hist more front back long split size) in
      let ttl_kept = (evict-SameLimits later after).1 in
      let able : is_eligible (evict later after).context_ttl later (tenant_from_request key_hash p)
            (client_ip_fingerprint digest p) s
          ≡ true =
        rw ttl_kept (
          rw (same_tenant key_hash p q key, same_ip digest p q host agent)
            (eligible after.context_ttl now later _ _ s mine ip used context_ttl)) in
      let (a, out, by, far, (j, u, listed, own, size_of, of_u)) =
        resolve_content-prefix later p (hist ++ more) (evict later after) k s
          (evict-IsDict later after once) (evict-proper later after once proper) there able
          (omega (arith, score, long)) in
      let own_q : u.tenant ≡ tenant_from_request key_hash q = own ∙ same_tenant key_hash p q key in
      let kept = (evict-survivor later after j u once listed).0 in
      let recorded : u.conversation_id ≡ t.conversation_id =
        elim (bound_or_before now fresh q t r j u sound kept) [
          | inl e ↦ e
          | inr before ↦ elim (alone j u before) [
            | inl foreign ↦ absurd (foreign own_q)
            | inr (inl e) ↦ e
            | inr (inr short) ↦ absurd (omega (arith, short, far, score, size_of))
          ]
        ] in
      (
        a,
        ap (λ x. x.1) (resolve-content later p (hist ++ more) after header) ∙ out,
        by,
        omega (arith, far, score),
        of_u ∙ recorded,
      )
