-- ===== src/AutoCleanup.antt =====
-- The background cleanup of cloud conversations (internal/web/auto_cleanup.go), over the conversation
-- manager, the session resolver and the user sessions.
pub mod Activity
pub mod Protection
pub mod Newest
mod Tests
use m365_copilot2api_docker.Base.{
  ℕ, zero, suc, ◌+◌, String, Bool, true, false, Option, none, some, List, [], ◌∷◌, ◌++◌, ltb,
  str_eq, if◌then◌else◌, or_zero, drop, ◌*◌,
}
use m365_copilot2api_docker.Dict.{Dict, get, put}
use m365_copilot2api_docker.Conversations.{Conversation, Manager, delete_id}
use m365_copilot2api_docker.Sessions.{Binding, Resolver, unbind}
use m365_copilot2api_docker.Sessions.Listing.{list_sessions}
use m365_copilot2api_docker.UserSessions.{UserStore, active_conversations}

-- A chat of the cloud: conversationId, and createTimeUtc in milliseconds where it is a number.
pub record Chat : Type 0 where
  pub id : String
  pub created : Option ℕ

-- cand
pub record Candidate : Type 0 where
  pub id : String
  pub created : ℕ

-- The local state that a deletion changes.
pub record Local : Type 0 where
  pub manager : Manager
  pub resolver : Resolver

abbrev pub is_active : Dict Bool → String → Bool
is_active active id = or_zero false (get active id)

-- The first loop of activeConversationSet; `cutoff` is now - window.
pub add_sessions : ℕ → ℕ → List Binding → Dict Bool → Dict Bool
add_sessions window now [] active = active
add_sessions window now (s ∷ ss) active =
    add_sessions window now ss
      (if ltb now (s.last_used_at + window) then put active s.conversation_id true else active)

pub add_ids : Dict Bool → Dict Bool → Dict Bool
add_ids [] active = active
add_ids ((id, b) ∷ ids) active = add_ids ids (put active id true)

pub add_managed : ℕ → ℕ → Dict Conversation → Dict Bool → Dict Bool
add_managed window now [] active = active
add_managed window now ((id, c) ∷ d) active =
    add_managed window now d
      (if ltb now (c.last_used_at + window) then put active id true else active)

-- activeConversationSet
pub active_set : ℕ → ℕ → UserStore → Local → Dict Bool
active_set window now users st =
    let bound = add_sessions window now (list_sessions st.resolver) [] in
    let used = add_ids (active_conversations window now users) bound in
    let listed = add_ids st.manager.whitelist used in
    add_managed window now st.manager.data_of listed

-- The loop over the chats: the stale candidates and the rest.
pub sort_chats : ℕ → ℕ → Dict Bool → List Chat → List Candidate × List Candidate
sort_chats max_age now_ms active [] = ([], [])
sort_chats max_age now_ms active (c ∷ cs) =
    let (stale, rest) = sort_chats max_age now_ms active cs in
    let skipped = if str_eq c.id "" then true else is_active active c.id in
    elim c.created [
      | none ↦ (stale, rest)
      | some t ↦
          let x : Candidate = record { id = c.id; created = t } in
          if skipped
          then (stale, rest)
          else if ltb (t + max_age) now_ms
          then (x ∷ stale, rest)
          else (stale, x ∷ rest)
    ]

-- `sort.Slice` by the creation, the oldest first. The order of equal ones is not relied on.
pub insert_created : Candidate → List Candidate → List Candidate
insert_created x [] = x ∷ []
insert_created x (y ∷ ys) =
    let rest = insert_created x ys in if ltb y.created x.created then y ∷ rest else x ∷ y ∷ ys

pub by_creation : List Candidate → List Candidate
by_creation [] = []
by_creation (x ∷ xs) = insert_created x (by_creation xs)

-- The candidates that a round deletes beyond the stale ones.
pub beyond : ℕ → List Candidate → List Candidate
beyond keep rest = drop keep (by_creation rest)

-- dropConversation
pub drop_conversation : String → Local → Local
drop_conversation id st = record st {
  manager = delete_id id st.manager;
  resolver = (unbind id st.resolver).0;
}

-- The loops that delete candidates, and what they deleted; `ok` says whether the cloud deletes one.
pub delete_all : (String → Bool) → List Candidate → Local → Local × List String
delete_all ok [] st = (st, [])
delete_all ok (c ∷ cs) st =
    let (st1, ids) = delete_all ok cs (drop_conversation c.id st) in
    let skipped = delete_all ok cs st in if ok c.id then (st1, c.id ∷ ids) else skipped

-- One round over what the cloud lists.
pub round : ℕ → ℕ → ℕ → Dict Bool → (String → Bool) → List Chat → Local → Local × List String
round max_age keep now_ms active ok chats st =
    let (stale, rest) = sort_chats max_age now_ms active chats in
    delete_all ok (stale ++ beyond keep rest) st

-- What a round ends with: nothing was deleted, or the rounds after it.
pub after_round : Local → List String → Local × List String → Local × List String
after_round st [] later = (st, [])
after_round st (id ∷ ids) later = (later.0, (id ∷ ids) ++ later.1)

-- A round where the cloud lists chats; it fails (none) or lists none otherwise.
pub run_listed :
    Option (List Chat)
    → Local
    → (List Chat → Local × List String)
    → (Local → Local × List String)
    → Local × List String
run_listed none st run again = (st, [])
run_listed (some []) st run again = (st, [])
run_listed (some (c ∷ cs)) st run again =
    let (st1, ids) = run (c ∷ cs) in after_round st1 ids (again st1)

-- The rounds; the first argument bounds them. `list` is what the cloud lists in a round, or none where
-- it fails, and `ok` which deletions it carries out.
pub rounds :
    ℕ
    → ℕ
    → ℕ
    → ℕ
    → Dict Bool
    → (ℕ → Option (List Chat))
    → (ℕ → String → Bool)
    → ℕ
    → Local
    → Local × List String
rounds zero max_age keep now_ms active list ok i st = (st, [])
rounds (suc f) max_age keep now_ms active list ok i st =
    run_listed (list i) st (λ chats. round max_age keep now_ms active (ok i) chats st)
      (λ st1. rounds f max_age keep now_ms active list ok (suc i) st1)

-- autoCleanupOnce; times are in nanoseconds, those of the cloud in milliseconds.
pub auto_cleanup_once :
    ℕ
    → ℕ
    → ℕ
    → UserStore
    → (ℕ → Option (List Chat))
    → (ℕ → String → Bool)
    → Local
    → Local × List String
auto_cleanup_once max_age_ms keep now_ms users list ok st =
    rounds 100 max_age_ms keep now_ms
      (active_set (max_age_ms * 1_000_000) (now_ms * 1_000_000) users st) list ok 0 st
