-- ===== src/AutoCleanup/Activity.antt =====
-- Which conversations count as active (activeConversationSet, internal/web/auto_cleanup.go).
use m365_copilot2api_docker.Base.{
  ℕ, ◌+◌, ◌<◌, ◌≡◌, refl, String, Bool, true, false, some, List, [], ◌∷◌, ltb, str_eq, eq_iff,
  arith, ◌&&◌, ◌||◌, is_some, ◌⊎◌, inl, inr, eq_refl, ◌∙◌,
}
use m365_copilot2api_docker.Dict.{Dict, get, put, get-put}
use m365_copilot2api_docker.Sessions.{Binding}
use m365_copilot2api_docker.Sessions.Listing.{insert_recent, recent_first, list_sessions}
use m365_copilot2api_docker.Conversations.{Conversation}
use m365_copilot2api_docker.UserSessions.{UserSession, UserStore, active_conversations, add_active}
use m365_copilot2api_docker.AutoCleanup.{
  Local, is_active, add_sessions, add_ids, add_managed, active_set,
}

-- A conversation that must be spared: it is on the whitelist, or it was used within the window by a
-- session, by the session of a user, or as a managed conversation.
abbrev pub IsInUse : ℕ → ℕ → UserStore → Local → String → Type 0
IsInUse window now users st id =
    (is_some (get st.manager.whitelist id) ≡ true)
    ⊎ ((k : String) × (s : Binding) × (get st.resolver.sessions k ≡ some s)
        × (s.conversation_id ≡ id)
        × (now < s.last_used_at + window))
    ⊎ ((k : String) × (u : UserSession) × (get users.data_of k ≡ some u)
        × (u.conversation_id ≡ id)
        × (now < u.last_used_at + window))
    ⊎ ((c : Conversation) × (get st.manager.data_of id ≡ some c) × (now < c.last_used_at + window))

-- An entry of a map passes a test.
unfoldable any_entry : {V : Type 0} → (String → V → Bool) → Dict V → Bool
any_entry p [] = false
any_entry p ((k, v) ∷ d) = p k v || any_entry p d

any_entry-get :
    {V : Type 0} (p : String → V → Bool) (d : Dict V) (k : String) (v : V)
    → get d k ≡ some v
    → p k v ≡ true
    → any_entry p d ≡ true
unfolding any_entry get
any_entry-get p [] k v e h = cc
any_entry-get p ((j, u) ∷ d) k v e h = ground (arith, e, h, any_entry-get p d k v, eq_iff j k)

abbrev recent_session : ℕ → ℕ → String → Binding → Bool
recent_session window now id s = str_eq s.conversation_id id && ltb now (s.last_used_at + window)

any_session : (Binding → Bool) → List Binding → Bool
any_session p [] = false
any_session p (s ∷ ss) = p s || any_session p ss

any_session-insert_recent :
    (p : Binding → Bool) (s : Binding) (ss : List Binding)
    → any_session p (insert_recent s ss) ≡ (p s || any_session p ss)
unfolding any_session insert_recent
any_session-insert_recent p s [] = refl
any_session-insert_recent p s (t ∷ ts) = ground (arith, any_session-insert_recent p s ts)

any_session-listed :
    (p : Binding → Bool) (d : Dict Binding)
    → any_session p (recent_first (λ s. true) d) ≡ any_entry (λ k s. p s) d
unfolding any_session recent_first any_entry
any_session-listed p [] = refl
any_session-listed p ((k, s) ∷ d) =
    any_session-insert_recent p s (recent_first (λ t. true) d)
    ∙ ground (arith, any_session-listed p d)

active-add_sessions :
    (window now : ℕ) (ss : List Binding) (active : Dict Bool) (id : String)
    → is_active (add_sessions window now ss active) id
      ≡ (any_session (recent_session window now id) ss || is_active active id)
unfolding add_sessions any_session
active-add_sessions window now [] active id = refl
active-add_sessions window now (s ∷ ss) active id = ground (
  arith,
  active-add_sessions window now ss active id,
  active-add_sessions window now ss (put active s.conversation_id true) id,
  get-put active s.conversation_id true id,
)

active-add_ids :
    (ids active : Dict Bool) (id : String)
    → is_active (add_ids ids active) id ≡ (is_some (get ids id) || is_active active id)
unfolding add_ids get
active-add_ids [] active id = refl
active-add_ids ((j, b) ∷ ids) active id =
    ground (arith, active-add_ids ids (put active j true) id, get-put active j true id)

active-add_managed :
    (window now : ℕ) (d : Dict Conversation) (active : Dict Bool) (id : String)
    → is_active (add_managed window now d active) id ≡ (
        any_entry (λ k c. str_eq k id && ltb now (c.last_used_at + window)) d
        || is_active active id)
unfolding add_managed any_entry
active-add_managed window now [] active id = refl
active-add_managed window now ((j, c) ∷ d) active id = ground (
  arith,
  active-add_managed window now d active id,
  active-add_managed window now d (put active j true) id,
  get-put active j true id,
)

some-add_active :
    (window now : ℕ) (d : Dict UserSession) (id : String)
    → is_some (get (add_active window now d) id)
      ≡ any_entry (λ k u. str_eq u.conversation_id id && ltb now (u.last_used_at + window)) d
unfolding add_active any_entry get
some-add_active window now [] id = refl
some-add_active window now ((j, u) ∷ d) id = ground (
  arith,
  some-add_active window now d id,
  get-put (add_active window now d) u.conversation_id true id,
)

active_in_use :
    (window now : ℕ) (users : UserStore) (st : Local) (id : String)
    → is_active (active_set window now users st) id ≡ (
        any_entry (λ k c. str_eq k id && ltb now (c.last_used_at + window)) st.manager.data_of
        || (is_some (get st.manager.whitelist id)
            || (any_entry
                  (λ k u. str_eq u.conversation_id id && ltb now (u.last_used_at + window))
                  users.data_of
                || (any_entry (λ k s. recent_session window now id s) st.resolver.sessions
                    || false))))
unfolding active_set active_conversations list_sessions get
active_in_use window now users st id =
    let bound = add_sessions window now (recent_first (λ s. true) st.resolver.sessions) [] in
    let used = add_ids (add_active window now users.data_of) bound in
    let listed = add_ids st.manager.whitelist used in
    ground (
      arith,
      active-add_managed window now st.manager.data_of listed id,
      active-add_ids st.manager.whitelist used id,
      active-add_ids (add_active window now users.data_of) bound id,
      some-add_active window now users.data_of id,
      active-add_sessions window now (recent_first (λ s. true) st.resolver.sessions) [] id,
      any_session-listed (recent_session window now id) st.resolver.sessions,
    )

pub in_use-active :
    (window now : ℕ) (users : UserStore) (st : Local) (id : String)
    → IsInUse window now users st id
    → is_active (active_set window now users st) id ≡ true
in_use-active window now users st id (inl white) =
    ground (arith, white, active_in_use window now users st id)
in_use-active window now users st id (inr (inl (k, s, there, same, recent))) =
    let one =
      any_entry-get (λ j t. recent_session window now id t) st.resolver.sessions k s there
        (ground (arith, same, recent, eq_iff s.conversation_id id)) in
    ground (arith, one, active_in_use window now users st id)
in_use-active window now users st id (inr (inr (inl (k, u, there, same, recent)))) =
    let one =
      any_entry-get (λ j v. str_eq v.conversation_id id && ltb now (v.last_used_at + window))
        users.data_of k u there (ground (arith, same, recent, eq_iff u.conversation_id id)) in
    ground (arith, one, active_in_use window now users st id)
in_use-active window now users st id (inr (inr (inr (c, there, recent)))) =
    let one =
      any_entry-get (λ j d. str_eq j id && ltb now (d.last_used_at + window)) st.manager.data_of id
        c there (ground (arith, recent, eq_refl id)) in
    ground (arith, one, active_in_use window now users st id)
