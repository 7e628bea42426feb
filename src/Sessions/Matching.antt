-- ===== src/Sessions/Matching.antt =====
-- How the messages of a request are compared with the history of a session
-- (internal/web/session_resolver.go).
use mathlib.Core.List.{reverse}
use m365_copilot2api_docker.Base.{
  ℕ, suc, ◌+◌, String, Bool, true, false, List, [], ◌∷◌, ◌&&◌, ◌||◌, not, ltb, leb, ◌==◌, str_eq,
  if◌then◌else◌, length,
}
use m365_copilot2api_docker.Dict.{Dict}
use m365_copilot2api_docker.Messages.{Message, Call}
use m365_copilot2api_docker.Budget.{Atom, build_atoms}
use m365_copilot2api_docker.Sessions.{Binding, is_older}

-- toolCallEqual
abbrev pub tool_call_equal : Call → Call → Bool
tool_call_equal x y = str_eq x.name y.name && str_eq x.argument_text y.argument_text

-- The loop of messagesEqual with the comparison of the lengths.
unfoldable pub calls_equal : List Call → List Call → Bool
calls_equal [] [] = true
calls_equal [] (y ∷ ys) = false
calls_equal (x ∷ xs) [] = false
calls_equal (x ∷ xs) (y ∷ ys) = tool_call_equal x y && calls_equal xs ys

abbrev pub same_bool : Bool → Bool → Bool
same_bool true b = b
same_bool false b = not b

-- messagesEqual
unfoldable pub messages_equal : Message → Message → Bool
messages_equal a b =
    str_eq a.role b.role
    && str_eq a.content b.content
    && same_bool a.calls_given b.calls_given
    && calls_equal a.tool_calls b.tool_calls

-- The loop of contextPrefixLen.
unfoldable pub starts_with : List Message → List Message → Bool
starts_with [] ms = true
starts_with (h ∷ hs) [] = false
starts_with (h ∷ hs) (m ∷ ms) = messages_equal h m && starts_with hs ms

-- Whether an atom ends at a position; `begin` is where the atoms begin.
unfoldable pub ends_at : ℕ → ℕ → List Atom → Bool
ends_at n begin [] = false
ends_at n begin (a ∷ rest) =
    let end = begin + length a.msgs in
    let later = ends_at n end rest in if end == n then true else if ltb n end then false else later

-- How many messages agree from the first on.
unfoldable pub agreeing : List Message → List Message → ℕ
agreeing [] ms = 0
agreeing (h ∷ hs) [] = 0
agreeing (h ∷ hs) (m ∷ ms) = let rest = agreeing hs ms in if messages_equal h m then suc rest else 0

-- suffixMatchLen
unfoldable pub suffix_match_len : List Message → List Message → ℕ
suffix_match_len hist msgs = agreeing (reverse hist) (reverse msgs)

-- The best match so far of matchContextLocked and matchSuffixLocked.
pub record Match : Type 0 where
  pub id : String
  pub n : ℕ
  pub recent : ℕ

abbrev pub no_match : Match
no_match = record { id = ""; n = 0; recent = 0 }

-- The loop that both have over the sessions: the longest match, and the latest use among those.
unfoldable pub best_match : (Binding → Bool) → (Binding → ℕ) → ℕ → Dict Binding → Match → Match
best_match eligible score least [] best = best
best_match eligible score least ((k, s) ∷ d) best =
    let better =
      eligible s
      && leb least (score s)
      && (ltb best.n (score s) || (score s == best.n && ltb best.recent s.last_used_at)) in
    best_match eligible score least d
      (if better then record { id = k; n = score s; recent = s.last_used_at } else best)

-- What both loops ask of a session.
abbrev pub is_eligible : ℕ → ℕ → String → String → Binding → Bool
is_eligible context_ttl now tenant ip s =
    not (is_older context_ttl now s) && str_eq s.tenant tenant && str_eq s.ip_fingerprint ip

module _ (content_text : Message → String) (call_text : Call → String) where
  -- contextPrefixLen
  unfoldable pub context_prefix_len : List Message → List Message → ℕ
  context_prefix_len hist msgs =
      if length hist == 0 || ltb (length msgs) (length hist)
      then 0
      else if not (starts_with hist msgs)
      then 0
      else if not (ends_at (length hist) 0 (build_atoms content_text call_text msgs))
      then 0
      else length hist

  -- matchContextLocked
  unfoldable pub match_context : ℕ → ℕ → String → String → List Message → Dict Binding → Match
  match_context context_ttl now tenant ip [] d = no_match
  match_context context_ttl now tenant ip (m ∷ ms) d =
      best_match (is_eligible context_ttl now tenant ip)
        (λ s. context_prefix_len s.context_history (m ∷ ms)) 1 d no_match

-- matchSuffixLocked
unfoldable pub match_suffix : ℕ → ℕ → String → String → List Message → Dict Binding → Match
match_suffix context_ttl now tenant ip msgs d =
    if ltb (length msgs) 2
    then no_match
    else best_match
        (λ s. is_eligible context_ttl now tenant ip s && not (ltb (length s.context_history) 2))
        (λ s. suffix_match_len s.context_history msgs) 2 d no_match
