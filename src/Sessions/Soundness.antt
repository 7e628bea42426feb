-- ===== src/Sessions/Soundness.antt =====
-- The resolver over a sequence of calls (internal/web/session_resolver.go).
use m365_copilot2api_docker.Base.{
  ℕ, ◌≡◌, refl, String, some, List, [], ◌∷◌, arith, eq_iff, Option-cases, inl, inr,
}
use m365_copilot2api_docker.Dict.{get, put, get-put, get-remove, IsDict, put-IsDict, remove-IsDict}
use m365_copilot2api_docker.Messages.{Message, Call}
use m365_copilot2api_docker.Sessions.{
  Binding, Resolver, Request, evict, delete_session, drop_session, unbind, lookup_for_tenant,
  of_conversation,
}
use m365_copilot2api_docker.Sessions.Removal.{drop_where-kept, kept-IsDict, get-drop_where}
use m365_copilot2api_docker.Sessions.Eviction.{evict-IsDict}
use m365_copilot2api_docker.Sessions.Resolving.{resolve, resume}
use m365_copilot2api_docker.Sessions.Recording.{Turn, created, updated, bind}
use m365_copilot2api_docker.Sessions.Outcomes.{kept_outcome}
use m365_copilot2api_docker.Sessions.Isolation.{IsFiled}
use m365_copilot2api_docker.Sessions.Takeover.{bind_kept-cases, evict-IsFiled}

-- A call of the resolver, with the time and the uuid that it takes.
pub data Operation : Type 0 where
  resolving : ℕ → Request → List Message → Operation
  binding : ℕ → String → Request → Turn → Operation
  deleting : String → String → Operation
  unbinding : String → Operation

-- Each session stands once in the map, under its own id.
abbrev pub IsSound : Resolver → Type 0
IsSound r = IsDict r.sessions × IsFiled r

put-IsFiled :
    (r : Resolver) (k : String) (s : Binding)
    → IsFiled r
    → s.session_id ≡ k
    → (j : String) (t : Binding) → get (put r.sessions k s) j ≡ some t
    → t.session_id ≡ j
put-IsFiled r k s f e j t h = ground (arith, get-put r.sessions k s j, f j t, e, h, eq_iff k j)

evict-IsSound : (now : ℕ) (r : Resolver) → IsSound r → IsSound (evict now r)
evict-IsSound now r s = (evict-IsDict now r s.0, evict-IsFiled now r s.0 s.1)

delete-IsSound :
    (tenant id : String) (r : Resolver) → IsSound r → IsSound (delete_session tenant id r).0
unfolding delete_session drop_session
delete-IsSound tenant id r s = elim (Option-cases (lookup_for_tenant tenant id r)) [
  | inl n ↦ rw (n, delete_session) s
  | inr (t, h) ↦
      rw (h, delete_session)
        (
          remove-IsDict r.sessions t.session_id s.0,
          λ k u e. ground (arith, get-remove r.sessions t.session_id k, s.1 k u, e),
        )
]

unbind-IsSound : (id : String) (r : Resolver) → IsSound r → IsSound (unbind id r).0
unfolding unbind
unbind-IsSound id r s = (
  rw (drop_where-kept (of_conversation id) r s.0) (kept-IsDict (of_conversation id) r.sessions s.0),
  λ k u e. ground (arith, get-drop_where (of_conversation id) r k s.0, s.1 k u, e),
)

module _ (content_text : Message → String) (call_text : Call → String)
    (key_hash digest : String → String) where
  pub step : Operation → Resolver → Resolver
  step (resolving now q ms) r = (resolve content_text call_text key_hash digest now q ms r).0
  step (binding now fresh q t) r = bind content_text call_text key_hash digest now fresh q t r
  step (deleting tenant id) r = (delete_session tenant id r).0
  step (unbinding id) r = (unbind id r).0

  pub run : List Operation → Resolver → Resolver
  run [] r = r
  run (o ∷ os) r = run os (step o r)

  resolve-IsSound :
      (now : ℕ) (q : Request) (ms : List Message) (r : Resolver)
      → IsSound r
      → IsSound (resolve content_text call_text key_hash digest now q ms r).0
  unfolding resolve resume
  resolve-IsSound now q ms r s =
      let r1 = evict now r in
      let (once, filed) = evict-IsSound now r s in
      elim (kept_outcome content_text call_text key_hash digest now q ms r1 once) [
        | inl nothing ↦ rw nothing (once, filed)
        | inr (k, t, by, n, out, found, mine, why) ↦
            let used : Binding = record t { last_used_at = now } in
            rw out
              (put-IsDict r1.sessions k used once, put-IsFiled r1 k used filed (filed k t found))
      ]

  pub bind-IsSound :
      (now : ℕ) (fresh : String) (q : Request) (t : Turn) (r : Resolver)
      → IsSound r
      → IsSound (bind content_text call_text key_hash digest now fresh q t r)
  unfolding bind updated
  bind-IsSound now fresh q t r s =
      let r1 = evict now r in
      let (once, filed) = evict-IsSound now r s in
      elim (bind_kept-cases content_text call_text key_hash digest now fresh q t r1 once filed) [
        | inl (none_own, after) ↦
            let new = created content_text call_text key_hash digest now fresh q t in
            rw after (
              put-IsDict r1.sessions new.session_id new once,
              put-IsFiled r1 new.session_id new filed refl,
            )
        | inr (k, u, found, mine, after) ↦
            let up = updated content_text call_text key_hash digest now q t u in
            let own = filed k u found in
            let r2 : Resolver = record r1 { sessions = put r1.sessions k up } in
            rw after (
              put-IsDict r2.sessions k up (put-IsDict r1.sessions k up once),
              put-IsFiled r2 k up (put-IsFiled r1 k up filed own) own,
            )
      ]

  step-IsSound : (o : Operation) (r : Resolver) → IsSound r → IsSound (step o r)
  unfolding step
  step-IsSound (resolving now q ms) r s = resolve-IsSound now q ms r s
  step-IsSound (binding now fresh q t) r s = bind-IsSound now fresh q t r s
  step-IsSound (deleting tenant id) r s = delete-IsSound tenant id r s
  step-IsSound (unbinding id) r s = unbind-IsSound id r s

  -- Over any sequence of calls, each session stays once in the map, under its own id.
  pub run-IsSound : (os : List Operation) (r : Resolver) → IsSound r → IsSound (run os r)
  unfolding run
  run-IsSound [] r s = s
  run-IsSound (o ∷ os) r s = run-IsSound os (step o r) (step-IsSound o r s)
