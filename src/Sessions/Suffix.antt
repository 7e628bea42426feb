-- ===== src/Sessions/Suffix.antt =====
-- The match by suffix (matchSuffixLocked, internal/web/session_resolver.go).
use mathlib.Core.List.{reverse, reverse-append}
use m365_copilot2api_docker.Base.{
  ℕ, ◌≡◌, ◌≢◌, refl, String, false, some, List, [], ◌∷◌, ◌++◌, arith, eq_iff, ◌∙◌, sym, inl, inr,
}
use m365_copilot2api_docker.Dict.{get, IsDict}
use m365_copilot2api_docker.Messages.{Message, Call}
use m365_copilot2api_docker.Sessions.{Binding, Resolver, Request, evict}
use m365_copilot2api_docker.Sessions.Matching.{messages_equal, agreeing, suffix_match_len}
use m365_copilot2api_docker.Sessions.Eviction.{evict-IsDict, evict-survivor}
use m365_copilot2api_docker.Sessions.Resolving.{
  explicit, context_prefix, context_suffix, Resumed, resume, resolve,
}
use m365_copilot2api_docker.Sessions.Outcomes.{kept_outcome}

-- A conversation whose last message has a role.
abbrev pub EndsWith : String → List Message → Type 0
EndsWith role ms =
    (front : List Message) × (last : Message) × (ms ≡ front ++ last ∷ []) × (last.role ≡ role)

-- Every session ends with an answer, as bindConversation records them.
abbrev pub AnswersLast : Resolver → Type 0
AnswersLast r =
    (k : String) (s : Binding) → get r.sessions k ≡ some s → EndsWith "assistant" s.context_history

differ : (a b : Message) → a.role ≢ b.role → messages_equal a b ≡ false
unfolding messages_equal
differ a b h = ground (arith, h, eq_iff a.role b.role)

reversed :
    (front : List Message) (last : Message) → reverse (front ++ last ∷ []) ≡ last ∷ reverse front
reversed front last = reverse-append front (last ∷ [])

suffix_match_len-roles :
    (hist ms : List Message) (answer asked : String)
    → EndsWith answer hist
    → EndsWith asked ms
    → answer ≢ asked
    → suffix_match_len hist ms ≡ 0
unfolding suffix_match_len agreeing
suffix_match_len-roles hist ms answer asked (hs, h, same_h, role_h) (fs, f, same_f, role_f) other =
    let apart : messages_equal h f ≡ false = differ h f (λ e. other (sym role_h ∙ e ∙ role_f)) in
    rw (same_h, same_f, reversed hs h, reversed fs f, apart) refl

module _ (content_text : Message → String) (call_text : Call → String)
    (key_hash digest : String → String) where
  -- Where each session stands once in the map and every session ends with an answer of the
  -- assistant, a request that ends with a message of another role, such as a new question, is never
  -- answered with a match by suffix.
  pub suffix_needs_answer :
      (now : ℕ) (q : Request) (ms : List Message) (r : Resolver) (a : Resumed) (n : ℕ)
      (role : String)
      → IsDict r.sessions
      → AnswersLast r
      → EndsWith role ms
      → "assistant" ≢ role
      → (resolve content_text call_text key_hash digest now q ms r).1 ≡ some a
      → a.matched_by ≢ context_suffix n
  unfolding resolve resume
  suffix_needs_answer now q ms r a n role h answers asked other e by =
      elim (kept_outcome content_text call_text key_hash digest now q ms (evict now r)
        (evict-IsDict now r h)) [
          | inl nothing ↦ ground (arith, nothing)
          | inr (k, s, explicit, m, out, found, mine, why) ↦ ground (arith, out)
          | inr (k, s, context_prefix l, m, out, found, mine, why) ↦ ground (arith, out)
          | inr (k, s, context_suffix l, m, out, found, mine, why) ↦
              let there = (evict-survivor now r k s h found).0 in
              let zero_len =
                suffix_match_len-roles s.context_history ms "assistant" role (answers k s there)
                  asked other in
              absurd (omega (arith, why.1, why.2, zero_len))
        ]
