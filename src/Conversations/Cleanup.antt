-- ===== src/Conversations/Cleanup.antt =====
-- Which conversations a cleanup deletes (internal/web/conversation_manager.go).
use m365_copilot2api_docker.Base.{
  ℕ, ◌≡◌, refl, String, Bool, true, false, Option, none, some, List, [], ◌∷◌, ◌||◌, str_eq,
  if◌then◌else◌, drop, arith, eq_iff, eq_refl,
}
use m365_copilot2api_docker.Dict.{Dict, get, put, remove, get-remove}
use m365_copilot2api_docker.Conversations.{
  Conversation, Manager, Mode, after_response, on_exit, keep_n, max_age, other, is_whitelisted,
  ids_of, sorted_items, free_ids, is_unused, is_old, to_delete, remove_all, cleanup, record_use,
  delete_id,
}

unfoldable pub listed : String → List String → Bool
listed id [] = false
listed id (x ∷ xs) = str_eq x id || listed id xs

get-remove_all :
    (ids : List String) (d : Dict Conversation) (j : String)
    → get (remove_all ids d) j ≡ (if listed j ids then none else get d j)
unfolding remove_all listed
get-remove_all [] d j = ground arith
get-remove_all (id ∷ ids) d j =
    ground (arith, get-remove_all ids (remove d id) j, get-remove d id j)

listed-ids_of :
    (p : String → Conversation → Bool) (d : Dict Conversation) (j : String)
    → ((c : Conversation) → p j c ≡ false)
    → listed j (ids_of p d) ≡ false
unfolding listed ids_of
listed-ids_of p [] j h = refl
listed-ids_of p ((id, c) ∷ d) j h = ground (arith, listed-ids_of p d j h, h c, eq_iff id j)

listed-free_ids :
    (m : Manager) (items : List (String × ℕ)) (j : String)
    → is_whitelisted j m ≡ true
    → listed j (free_ids m items) ≡ false
unfolding listed free_ids
listed-free_ids m [] j h = refl
listed-free_ids m ((id, t) ∷ items) j h = ground (arith, listed-free_ids m items j h, eq_iff id j)

whitelisted_unlisted :
    (now : ℕ) (mode : Mode) (m : Manager) (j : String)
    → is_whitelisted j m ≡ true
    → listed j (to_delete now mode m) ≡ false
unfolding to_delete listed
whitelisted_unlisted now after_response m j h =
    listed-ids_of (is_unused now m) m.data_of j (λ c. ground arith)
whitelisted_unlisted now max_age m j h =
    listed-ids_of (is_old now m) m.data_of j (λ c. ground arith)
whitelisted_unlisted now keep_n m j h =
    ground (arith, listed-free_ids m (drop m.keep (sorted_items m.data_of)) j)
whitelisted_unlisted now on_exit m j h = refl
whitelisted_unlisted now other m j h = refl

-- In every mode, a cleanup leaves the conversations that are whitelisted as they are.
pub cleanup_whitelist :
    (now : ℕ) (m : Manager) (j : String)
    → is_whitelisted j m ≡ true
    → get (cleanup now m).0.data_of j ≡ get m.data_of j
unfolding cleanup
cleanup_whitelist now m j h = ground (
  arith,
  get-remove_all (to_delete now m.mode m) m.data_of j,
  whitelisted_unlisted now m.mode m j h,
)

-- A key stands once in the map.
abbrev pub IsDict : Dict Conversation → Type 0
IsDict [] = Unit
IsDict ((id, c) ∷ d) = (get d id ≡ none) × IsDict d

abbrev pub unless : (Conversation → Bool) → Option Conversation → Option Conversation
unless p none = none
unless p (some c) = if p c then none else some c

abbrev pub passes : (Conversation → Bool) → Option Conversation → Bool
passes p none = false
passes p (some c) = p c

listed-ids_of_exact :
    (p : String → Conversation → Bool) (d : Dict Conversation) (j : String)
    → IsDict d
    → listed j (ids_of p d) ≡ passes (p j) (get d j)
unfolding listed ids_of get
listed-ids_of_exact p [] j h = refl
listed-ids_of_exact p ((id, c) ∷ d) j h =
    ground (arith, listed-ids_of_exact p d j h.1, eq_iff id j, h.0)

removed_exact :
    (p : String → Conversation → Bool) (d : Dict Conversation) (j : String)
    → IsDict d
    → get (remove_all (ids_of p d) d) j ≡ unless (p j) (get d j)
removed_exact p d j h = ground (arith, get-remove_all (ids_of p d) d j, listed-ids_of_exact p d j h)

-- Where each conversation stands once in the map, a cleanup in the two modes that look at times deletes exactly the conversations that are not
-- whitelisted and were not used for more than 30 seconds, or were made longer ago than the limit.
pub cleanup_exact :
    (now : ℕ) (m : Manager) (j : String)
    → IsDict m.data_of
    → (get (cleanup now (record m { mode = after_response })).0.data_of j
        ≡ unless (is_unused now m j) (get m.data_of j))
      × (get (cleanup now (record m { mode = max_age })).0.data_of j
          ≡ unless (is_old now m j) (get m.data_of j))
unfolding cleanup to_delete
cleanup_exact now m j h =
    (removed_exact (is_unused now m) m.data_of j h, removed_exact (is_old now m) m.data_of j h)

remove-IsDict : (d : Dict Conversation) (id : String) → IsDict d → IsDict (remove d id)
unfolding remove
remove-IsDict [] id h = h
remove-IsDict ((j, c) ∷ d) id h = ground (arith, remove-IsDict d id h.1, get-remove d id j, h.0)

remove_all-IsDict :
    (ids : List String) (d : Dict Conversation) → IsDict d → IsDict (remove_all ids d)
unfolding remove_all
remove_all-IsDict [] d h = h
remove_all-IsDict (id ∷ ids) d h = remove_all-IsDict ids (remove d id) (remove-IsDict d id h)

-- Recording a use, deleting and cleaning up keep each conversation once in the map.
pub record_use-IsDict :
    (id account title : String) (now : ℕ) (m : Manager)
    → IsDict m.data_of
    → IsDict (record_use id account title now m).data_of
      × IsDict (delete_id id m).data_of
      × IsDict (cleanup now m).0.data_of
unfolding record_use delete_id cleanup put
record_use-IsDict id account title now m h = (
  (ground (arith, get-remove m.data_of id id, eq_refl id), remove-IsDict m.data_of id h),
  remove-IsDict m.data_of id h,
  remove_all-IsDict (to_delete now m.mode m) m.data_of h,
)
