-- ===== src/Sessions/Tests.antt =====
-- Runs of the session resolver, and instances of its theorems.
use m365_copilot2api_docker.Base.{
  ℕ, ◌≤◌, ◌≡◌, ◌≢◌, refl, String, false, none, some, List, [], ◌∷◌, ◌++◌, arith, eq_iff, length,
  take, drop, ◌⊎◌,
}
use m365_copilot2api_docker.Dict.{get, put, remove, IsDict}
use m365_copilot2api_docker.Text.{is_word, trim}
use m365_copilot2api_docker.Messages.{Message, Call}
use m365_copilot2api_docker.Budget.{
  Atom, build_atoms, group, atom, mark_anchor, is_system, is_tool, split_while,
}
use m365_copilot2api_docker.Budget.Grouping.{messages_of}
use m365_copilot2api_docker.Sessions.{
  Binding, Resolver, Request, evict, owned, lookup_for_tenant, delete_session, drop_session,
  drop_where, drop_oldest, drop_all, oldest_first, insert_old, reindex, link, unlink,
}
use m365_copilot2api_docker.Sessions.Matching.{
  match_context, match_suffix, context_prefix_len, best_match, starts_with, messages_equal,
  calls_equal, ends_at,
}
use m365_copilot2api_docker.Sessions.History.{clone_messages}
use m365_copilot2api_docker.Sessions.Resolving.{
  context_prefix, Resumed, resume, tenant_from_request, client_ip_fingerprint, resolve_content,
  resolve_kept, resolve,
}
use m365_copilot2api_docker.Sessions.Recording.{
  Turn, assistant, target_key, find_conversation, history_of, created, bind, bind_kept,
}
use m365_copilot2api_docker.Sessions.Listing.{list_sessions_for_tenant, recent_first, insert_recent}
use m365_copilot2api_docker.Sessions.Isolation.{IsFiled, resolve_isolated}
use m365_copilot2api_docker.Sessions.Takeover.{bind_takes_over, others_untouched}
use m365_copilot2api_docker.Sessions.Soundness.{
  IsSound, resolving, binding, deleting, unbinding, run, run-IsSound,
}
use m365_copilot2api_docker.Sessions.Prefix.{IsPrefix, resolved_prefix}
use m365_copilot2api_docker.Sessions.NextTurn.{next_turn_resumed}
use m365_copilot2api_docker.Sessions.Suffix.{EndsWith}

abbrev says : String → String → Message
says role text = record {
  role = role;
  name = "";
  content = text;
  calls_given = false;
  tool_calls = [];
  tool_call_id = "";
}

abbrev content_text : Message → String
content_text m = m.content

abbrev call_text : Call → String
call_text c = c.argument_text

-- The key itself and the text itself, in place of their hashes.
abbrev plain : String → String
plain s = s

abbrev request_of : String → Request
request_of key = record { api_key = key; host = "h"; user_agent = "u"; session_header = "" }

abbrev talk : List Message
talk = says "user" "hi" ∷ says "assistant" "hello" ∷ []

abbrev session : String → String → String → ℕ → Binding
session id conversation tenant used = record {
  session_id = id;
  conversation_id = conversation;
  account_id = "account";
  created_at = 1;
  last_used_at = used;
  ip_fingerprint = "h|u";
  user_field = "";
  context_finger = "";
  context_history = talk;
  tenant = tenant;
  explicit_id = "";
}

abbrev two : Resolver
two = record {
  sessions = ("s1", session "s1" "c1" "alice" 10) ∷ ("s2", session "s2" "c2" "bob" 20) ∷ [];
  by_explicit = [];
  by_user_field = [];
  by_ip_finger = ("h|u", "s2") ∷ [];
  by_context = [];
  ttl = 100;
  context_ttl = 100;
  max_sessions = 3;
  dirty = false;
}

abbrev fuller : List Message
fuller = says "user" "hi" ∷ says "assistant" "hello" ∷ says "user" "and" ∷ []

once : IsDict two.sessions
unfolding get
once = (refl, (refl, tt))

filed : IsFiled two
unfolding get
filed k s e = ground (arith, e, eq_iff "s1" k, eq_iff "s2" k)

abbrev answer : Resumed
answer = record {
  session_id = "s1";
  conversation_id = "c1";
  account_id = "account";
  matched_by = context_prefix 2;
  history_len = 2;
}

resumes :
    (resolve content_text call_text plain plain 30 (request_of "alice") fuller two).1 ≡ some answer
unfolding resolve resolve_kept resolve_content resume tenant_from_request client_ip_fingerprint
    match_context match_suffix context_prefix_len best_match starts_with messages_equal calls_equal
    ends_at evict drop_oldest drop_where drop_session build_atoms group atom mark_anchor is_system
    is_tool is_word split_while get
resumes = refl

stranger : (resolve content_text call_text plain plain 30 (request_of "carol") fuller two).1 ≡ none
unfolding resolve resolve_kept resolve_content resume tenant_from_request client_ip_fingerprint
    match_context match_suffix best_match evict drop_oldest drop_where
stranger = refl

kept_alice : get (evict 30 two).sessions "s1" ≡ some (session "s1" "c1" "alice" 10)
unfolding evict drop_oldest drop_where get
kept_alice = refl

kept_bob : get (evict 30 two).sessions "s2" ≡ some (session "s2" "c2" "bob" 20)
unfolding evict drop_oldest drop_where get
kept_bob = refl

apart : "bob" ≢ tenant_from_request plain (request_of "alice")
unfolding tenant_from_request
apart same = absurd (ground (arith, eq_iff "bob" "alice"))

resolve_isolated_example :
    (k : String) × (s : Binding) × (get (evict 30 two).sessions k ≡ some s)
    × (s.tenant ≡ tenant_from_request plain (request_of "alice"))
    × (answer.session_id ≡ s.session_id)
    × (answer.conversation_id ≡ s.conversation_id)
    × (answer.account_id ≡ s.account_id)
resolve_isolated_example =
    resolve_isolated content_text call_text plain plain 30 (request_of "alice") fuller two answer
      once resumes

resolved_prefix_example :
    (k : String) × (s : Binding) × (get (evict 30 two).sessions k ≡ some s)
    × (answer.conversation_id ≡ s.conversation_id)
    × (answer.history_len ≡ length s.context_history)
    × IsPrefix s.context_history fuller
    × ((front back : List Atom) × (build_atoms content_text call_text fuller ≡ front ++ back)
        × (messages_of front ≡ take answer.history_len fuller)
        × (messages_of back ≡ drop answer.history_len fuller))
resolved_prefix_example =
    resolved_prefix content_text call_text plain plain 30 (request_of "alice") fuller two answer 2
      once resumes refl

deleted : get (delete_session "alice" "s1" two).0.sessions "s1" ≡ none
unfolding delete_session lookup_for_tenant owned drop_session unlink get remove
deleted = refl

abbrev narrow : Resolver
narrow = record two { max_sessions = 1 }

left : get (evict 30 narrow).sessions "s2" ≡ some (session "s2" "c2" "bob" 20)
unfolding evict drop_oldest drop_where drop_all drop_session oldest_first insert_old unlink get
    remove
left = refl

gone : get (evict 30 narrow).sessions "s1" ≡ none
unfolding evict drop_oldest drop_where drop_all drop_session oldest_first insert_old unlink get
    remove
gone = refl

abbrev turn_of : String → String → Turn
turn_of id conversation = record {
  session_id = id;
  conversation_id = conversation;
  account_id = "account";
  messages = says "user" "hi" ∷ [];
  user = "";
  assistant_text = "hello";
}

abbrev bobs : Binding
bobs = session "s2" "c2" "bob" 20

others_untouched_example :
    let kept = get (evict 30 two).sessions "s2" in
    (get (delete_session (tenant_from_request plain (request_of "alice")) "s1" two).0.sessions "s2"
      ≡ some bobs)
    × ((kept ≢ some bobs)
        ⊎ (get
              (resolve content_text call_text plain plain 30
                (request_of "alice")
                fuller
                two).0.sessions
              "s2"
            ≡ some bobs))
    × ((kept ≢ some bobs)
        ⊎ ((created content_text call_text plain plain 30 "f"
              (request_of "alice")
              (turn_of "s3" "c3")).session_id
            ≡ "s2")
        ⊎ (get
              (bind content_text call_text plain plain 30 "f"
                (request_of "alice")
                (turn_of "s3" "c3")
                two).sessions
              "s2"
            ≡ some bobs))
unfolding get
others_untouched_example =
    others_untouched content_text call_text plain plain 30 "f" (request_of "alice")
      (turn_of "s3" "c3") fuller "s1" two "s2" bobs once filed refl apart

-- Alice names the id of Bob's session with a conversation that she has not used.
bind_takes_over_example :
    let after =
      bind content_text call_text plain plain 30 "f" (request_of "alice") (turn_of "s2" "c3") two in
    (owned "bob" "s2" after ≡ none)
    × ((u : Binding) × (get after.sessions "s2" ≡ some u)
        × (u.tenant ≡ tenant_from_request plain (request_of "alice"))
        × (u.conversation_id ≡ "c3"))
unfolding target_key find_conversation evict drop_oldest drop_where tenant_from_request
bind_takes_over_example =
    bind_takes_over content_text call_text plain plain 30 "f" (request_of "alice")
      (turn_of "s2" "c3") two (session "s2" "c2" "bob" 20) kept_bob apart
      (λ same. absurd (ground (arith, eq_iff "s2" ""))) refl

run_IsSound_calls : IsSound two
run_IsSound_calls = (once, filed)

run-IsSound_example : IsSound (
    run content_text call_text plain plain
      (resolving 30 (request_of "alice") fuller
        ∷ binding 30 "f" (request_of "alice") (turn_of "s3" "c1")
        ∷ deleting "bob" "s2"
        ∷ unbinding "c1"
        ∷ [])
      two)
run-IsSound_example =
    run-IsSound content_text call_text plain plain
      (resolving 30 (request_of "alice") fuller
        ∷ binding 30 "f" (request_of "alice") (turn_of "s3" "c1")
        ∷ deleting "bob" "s2"
        ∷ unbinding "c1"
        ∷ [])
      two run_IsSound_calls

listed : list_sessions_for_tenant "bob" two ≡ session "s2" "c2" "bob" 20 ∷ []
unfolding list_sessions_for_tenant recent_first insert_recent
listed = refl

abbrev blank : Resolver
blank = record two { sessions = [] }

-- The answer is recorded, and the client asks again with it.
next_turn_resumed_example :
    let hist = history_of content_text call_text (turn_of "s1" "c1") in
    let after =
      bind content_text call_text plain plain 10 "f"
        (request_of "alice")
        (turn_of "s1" "c1")
        blank in
    (a : Resumed) × ((resolve content_text call_text plain plain 30
        (request_of "alice")
        (hist ++ says "user" "and" ∷ [])
        after).1
      ≡ some a)
    × (a.matched_by ≡ context_prefix a.history_len)
    × (length hist ≤ a.history_len)
    × (a.conversation_id ≡ "c1")
unfolding bind bind_kept created reindex link evict drop_oldest drop_where target_key
    find_conversation put remove get history_of clone_messages trim build_atoms group atom
    mark_anchor is_system is_tool is_word split_while messages_of
next_turn_resumed_example =
    next_turn_resumed content_text call_text plain plain 10 30 "f" (request_of "alice")
      (request_of "alice") (turn_of "s1" "c1") (says "user" "and" ∷ [])
      (take 2 (
        build_atoms content_text call_text
          (says "user" "hi" ∷ assistant "hello" ∷ says "user" "and" ∷ [])))
      (drop 2 (
        build_atoms content_text call_text
          (says "user" "hi" ∷ assistant "hello" ∷ says "user" "and" ∷ [])))
      blank (tt, λ k s e. ground (arith, e)) (λ k s e. ground (arith, e)) refl refl refl refl refl
      refl (omega arith) refl (omega arith) (omega arith) (omega arith)

answers_last :
    (k : String) (s : Binding)
    → get two.sessions k ≡ some s
    → EndsWith "assistant" s.context_history
unfolding get
answers_last k s e =
    let same : s.context_history ≡ talk = ground (arith, e) in
    (says "user" "hi" ∷ [], says "assistant" "hello", same, refl)
