-- ===== src/Sessions/Listing.antt =====
-- What the resolver tells of its sessions (internal/web/session_resolver.go).
use m365_copilot2api_docker.Base.{
  String, Bool, true, Option, none, some, List, [], ◌∷◌, ltb, str_eq, if◌then◌else◌,
}
use m365_copilot2api_docker.Dict.{Dict}
use m365_copilot2api_docker.Messages.{Message, Call}
use m365_copilot2api_docker.Sessions.{Binding, Resolver, of_conversation}
use m365_copilot2api_docker.Sessions.History.{clone_messages}

-- `sort.Slice` by the last use, the latest first. The order of equal ones is not relied on.
unfoldable pub insert_recent : Binding → List Binding → List Binding
insert_recent s [] = s ∷ []
insert_recent s (t ∷ ts) =
    let rest = insert_recent s ts in
    if ltb s.last_used_at t.last_used_at then t ∷ rest else s ∷ t ∷ ts

unfoldable pub recent_first : (Binding → Bool) → Dict Binding → List Binding
recent_first p [] = []
recent_first p ((k, s) ∷ d) =
    let rest = recent_first p d in if p s then insert_recent s rest else rest

-- ListSessions
unfoldable pub list_sessions : Resolver → List Binding
list_sessions r = recent_first (λ s. true) r.sessions

-- ListSessionsForTenant
unfoldable pub list_sessions_for_tenant : String → Resolver → List Binding
list_sessions_for_tenant tenant r =
    if str_eq tenant "" then [] else recent_first (λ s. str_eq s.tenant tenant) r.sessions

module _ (content_text : Message → String) (call_text : Call → String) where
  first_of : String → Dict Binding → Option Binding
  first_of id [] = none
  first_of id ((k, s) ∷ d) =
      let later = first_of id d in
      if of_conversation id s
      then some
          (record s { context_history = clone_messages content_text call_text s.context_history })
      else later

  -- GetConversation
  pub get_conversation : String → Resolver → Option Binding
  get_conversation id r = first_of id r.sessions
