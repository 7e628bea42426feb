-- ===== src/AutoCleanup/Tests.antt =====
-- Runs of the background cleanup, and instances of its theorems.
use m365_copilot2api_docker.Base.{
  ℕ, ◌+◌, ◌≤◌, ◌≡◌, refl, String, Bool, true, false, Option, some, none, List, [], ◌∷◌, All, take,
  length, zero, suc, inl,
}
use m365_copilot2api_docker.Dict.{get, put, remove, IsDict}
use m365_copilot2api_docker.Conversations.{Manager, keep_n}
use m365_copilot2api_docker.Sessions.{Binding, Resolver}
use m365_copilot2api_docker.Sessions.Listing.{recent_first, insert_recent, list_sessions}
use m365_copilot2api_docker.Sessions.Removal.{unless}
use m365_copilot2api_docker.UserSessions.{UserStore, active_conversations}
use m365_copilot2api_docker.AutoCleanup.{
  Chat, Candidate, Local, active_set, add_sessions, add_ids, add_managed, sort_chats,
  insert_created, by_creation, beyond, drop_conversation, delete_all, round, after_round,
  run_listed, rounds, auto_cleanup_once,
}
use m365_copilot2api_docker.AutoCleanup.Protection.{listed, cleanup_spares_active}
use m365_copilot2api_docker.AutoCleanup.Newest.{newest_deleted}

abbrev session : String → ℕ → Binding
session conversation used = record {
  session_id = "s1";
  conversation_id = conversation;
  account_id = "account";
  created_at = 1;
  last_used_at = used;
  ip_fingerprint = "";
  user_field = "";
  context_finger = "";
  context_history = [];
  tenant = "alice";
  explicit_id = "";
}

abbrev manager : Manager
manager = record {
  data_of = [];
  mode = keep_n;
  keep = 5;
  max_age_of = 0;
  whitelist = ("white", true) ∷ [];
  dirty = false;
}

abbrev resolver : Resolver
resolver = record {
  sessions = ("s1", session "old" 1) ∷ [];
  by_explicit = [];
  by_user_field = [];
  by_ip_finger = [];
  by_context = [];
  ttl = 100;
  context_ttl = 100;
  max_sessions = 3;
  dirty = false;
}

abbrev before : Local
before = record { manager = manager; resolver = resolver }

abbrev users : UserStore
users = record { data_of = []; ttl = 60; dirty = false }

abbrev chat : String → ℕ → Chat
chat id created = record { id = id; created = some created }

abbrev all_chats : List Chat
all_chats =
    chat "old" 1
    ∷ chat "white" 1
    ∷ chat "a" 9_001
    ∷ chat "c" 9_003
    ∷ chat "b" 9_002
    ∷ record { id = "undated"; created = none }
    ∷ []

abbrev lists : ℕ → Option (List Chat)
lists zero = some all_chats
lists (suc n) = some []

abbrev all_work : ℕ → String → Bool
all_work i id = true

-- One conversation may be left beside those that are active: the newest ones go with the stale one.
deletes : (auto_cleanup_once 1_000 1 9_500 users lists all_work before).1 ≡ "old" ∷ "b" ∷ "c" ∷ []
unfolding auto_cleanup_once rounds run_listed round after_round delete_all sort_chats by_creation
    insert_created beyond drop_conversation active_set add_sessions add_ids add_managed
    active_conversations list_sessions recent_first insert_recent get put remove
deletes = refl

once : IsDict resolver.sessions
unfolding get
once = (refl, tt)

cleanup_spares_active_example :
    let out = auto_cleanup_once 1_000 1 9_500 users lists all_work before in
    (listed out.1 "white" ≡ false)
    × (get out.0.resolver.sessions "s1"
        ≡ unless (λ s. listed out.1 s.conversation_id) (get before.resolver.sessions "s1"))
unfolding get
cleanup_spares_active_example =
    cleanup_spares_active 1_000 1 9_500 users lists all_work before "s1" "white" once (inl refl)

abbrev three : List Candidate
three =
    record { id = "a"; created = 1 }
    ∷ record { id = "c"; created = 3 }
    ∷ record { id = "b"; created = 2 }
    ∷ []

newest_deleted_example :
    (length (take 1 (by_creation three)) + length (beyond 1 three) ≡ 3)
    × (length (take 1 (by_creation three)) ≤ 1)
    × All (λ x. All (λ y. x.created ≤ y.created) (beyond 1 three)) (take 1 (by_creation three))
newest_deleted_example = newest_deleted 1 three
