-- ===== src/Conversations/Tests.antt =====
-- Runs of the cleanup of conversations, and instances of its theorems.
use m365_copilot2api_docker.Base.{ℕ, ◌*◌, ◌≡◌, refl, true, false, [], ◌∷◌, second, hour}
use m365_copilot2api_docker.Dict.{get}
use m365_copilot2api_docker.Conversations.{
  Conversation, Manager, after_response, keep_n, max_age, cleanup, to_delete, ids_of, sorted_items,
  insert_item, free_ids, is_whitelisted,
}
use m365_copilot2api_docker.Conversations.Cleanup.{listed, IsDict}

abbrev chat : ℕ → Conversation
chat t = record { account_id = "a"; created_at = t; last_used_at = t; title = "" }

abbrev three : Manager
three = record {
  data_of = ("x", chat 1) ∷ ("y", chat (20 * second)) ∷ ("z", chat 2) ∷ [];
  mode = keep_n;
  keep = 1;
  max_age_of = 24 * hour;
  whitelist = ("z", true) ∷ [];
  dirty = false;
}

deleted :
    ((cleanup (40 * second) three).1 ≡ "x" ∷ [])
    × ((cleanup (40 * second) (record three { mode = after_response })).1 ≡ "x" ∷ [])
    × ((cleanup (40 * second) (record three { mode = max_age })).1 ≡ [])
unfolding cleanup to_delete ids_of sorted_items insert_item free_ids get
deleted = (refl, refl, refl)

protected : is_whitelisted "z" three ≡ true
unfolding get
protected = refl

once : IsDict three.data_of
unfolding get
once = (refl, (refl, (refl, tt)))

oldest_listed : listed "x" (to_delete (40 * second) keep_n three) ≡ true
unfolding to_delete sorted_items insert_item free_ids get listed
oldest_listed = refl
