-- ===== src/Conversations.antt =====
-- The conversations that are cleaned up (conversationManager, internal/web/conversation_manager.go).
pub mod Cleanup
pub mod KeepN
mod Tests
use m365_copilot2api_docker.Base.{
  ℕ, zero, suc, ◌+◌, ◌-◌, ◌*◌, String, Bool, true, false, Option, none, some, List, [], ◌∷◌, ◌++◌,
  ◌&&◌, not, ltb, leb, str_eq, if◌then◌else◌, or_zero, length, drop, second,
}
use m365_copilot2api_docker.Dict.{Dict, get, put, remove}

-- managedConversation; its ID is the key of the map.
pub record Conversation : Type 0 where
  pub account_id : String
  pub created_at : ℕ
  pub last_used_at : ℕ
  pub title : String

-- ConversationCleanupMode; the variable may hold any other text.
pub data Mode : Type 0 where
  after_response on_exit keep_n max_age other : Mode

pub record Manager : Type 0 where
  pub data_of : Dict Conversation
  pub mode : Mode
  pub keep : ℕ
  pub max_age_of : ℕ
  pub whitelist : Dict Bool
  pub dirty : Bool

-- Record
pub record_use : String → String → String → ℕ → Manager → Manager
record_use id account title now m =
    let created : ℕ = elim (get m.data_of id) [ none ↦ now | some c ↦ c.created_at ] in
    let c : Conversation = record {
      account_id = account;
      created_at = created;
      last_used_at = now;
      title = title;
    } in
    record m { data_of = put m.data_of id c; dirty = true }

-- Whitelist
pub whitelist_id : String → Manager → Manager
whitelist_id id m = record m { whitelist = put m.whitelist id true; dirty = true }

-- Unwhitelist
pub unwhitelist_id : String → Manager → Manager
unwhitelist_id id m = record m { whitelist = remove m.whitelist id; dirty = true }

-- IsWhitelisted
abbrev pub is_whitelisted : String → Manager → Bool
is_whitelisted id m = or_zero false (get m.whitelist id)

-- Delete
pub delete_id : String → Manager → Manager
delete_id id m = record m { data_of = remove m.data_of id; dirty = true }

-- The loops of Cleanup over the map: the ids that a test selects.
pub ids_of : (String → Conversation → Bool) → Dict Conversation → List String
ids_of p [] = []
ids_of p ((id, c) ∷ d) = let rest = ids_of p d in if p id c then id ∷ rest else rest

-- `sort.Slice` by the last use, the latest first. The order of equal ones is not relied on.
pub insert_item : String × ℕ → List (String × ℕ) → List (String × ℕ)
insert_item x [] = x ∷ []
insert_item x (y ∷ ys) = let rest = insert_item x ys in if ltb x.1 y.1 then y ∷ rest else x ∷ y ∷ ys

pub sorted_items : Dict Conversation → List (String × ℕ)
sorted_items [] = []
sorted_items ((id, c) ∷ d) = insert_item (id, c.last_used_at) (sorted_items d)

-- The ids of items, but the whitelisted ones.
pub free_ids : Manager → List (String × ℕ) → List String
free_ids m [] = []
free_ids m ((id, t) ∷ items) =
    let rest = free_ids m items in if is_whitelisted id m then rest else id ∷ rest

abbrev pub is_unused : ℕ → Manager → String → Conversation → Bool
is_unused now m id c = not (is_whitelisted id m) && ltb (30 * second) (now - c.last_used_at)

abbrev pub is_old : ℕ → Manager → String → Conversation → Bool
is_old now m id c = not (is_whitelisted id m) && ltb (c.created_at + m.max_age_of) now

-- The switch of Cleanup.
pub to_delete : ℕ → Mode → Manager → List String
to_delete now after_response m = ids_of (is_unused now m) m.data_of
to_delete now max_age m = ids_of (is_old now m) m.data_of
to_delete now keep_n m =
    if ltb m.keep (length m.data_of) then free_ids m (drop m.keep (sorted_items m.data_of)) else []
to_delete now on_exit m = []
to_delete now other m = []

pub remove_all : List String → Dict Conversation → Dict Conversation
remove_all [] d = d
remove_all (id ∷ ids) d = remove_all ids (remove d id)

abbrev pub is_nonempty : List String → Bool
is_nonempty [] = false
is_nonempty (id ∷ ids) = true

-- Cleanup
pub cleanup : ℕ → Manager → Manager × List String
cleanup now m =
    let ids = to_delete now m.mode m in
    (
      record m {
        data_of = remove_all ids m.data_of;
        dirty = if is_nonempty ids then true else m.dirty;
      },
      ids,
    )

-- ShouldCleanup
pub should_cleanup : Manager → Bool
should_cleanup m = elim m.mode [ on_exit ↦ false | _ ↦ true ]

-- SetMode
pub set_mode : Mode → Manager → Manager
set_mode mode m = record m { mode = mode }
