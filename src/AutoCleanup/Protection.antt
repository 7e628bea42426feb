-- ===== src/AutoCleanup/Protection.antt =====
-- What the background cleanup spares, and what becomes of the sessions of a conversation that it
-- deletes (internal/web/auto_cleanup.go).
use m365_copilot2api_docker.Base.{
  ℕ, zero, suc, ◌≡◌, refl, String, Bool, false, Option, none, some, List, [], ◌∷◌, ◌++◌, str_eq,
  eq_iff, drop, arith, All, Bool-cases, Option-cases, inl, inr, ◌∙◌, ◌||◌, ◌*◌, true,
}
use m365_copilot2api_docker.Dict.{Dict, get, IsDict}
use m365_copilot2api_docker.Sessions.{of_conversation}
use m365_copilot2api_docker.Sessions.Removal.{unless, unbind_exact, unbind-IsDict}
use m365_copilot2api_docker.UserSessions.{UserStore}
use m365_copilot2api_docker.AutoCleanup.Activity.{IsInUse, in_use-active}
use m365_copilot2api_docker.AutoCleanup.{
  Chat, Candidate, Local, is_active, active_set, sort_chats, insert_created, by_creation, beyond,
  drop_conversation, delete_all, round, after_round, run_listed, rounds, auto_cleanup_once,
}

-- A text of a list.
unfoldable pub listed : List String → String → Bool
listed [] id = false
listed (x ∷ xs) id = str_eq x id || listed xs id

listed-append :
    (xs ys : List String) (id : String) → listed (xs ++ ys) id ≡ (listed xs id || listed ys id)
unfolding listed
listed-append [] ys id = refl
listed-append (x ∷ xs) ys id = ground (arith, listed-append xs ys id)

module _ (active : Dict Bool) where
  abbrev IsFree : List Candidate → Type 0
  IsFree = All (λ c. is_active active c.id ≡ false)

  sort_chats-IsFree :
      (max_age now_ms : ℕ) (chats : List Chat)
      → IsFree (sort_chats max_age now_ms active chats).0
        × IsFree (sort_chats max_age now_ms active chats).1
  unfolding sort_chats
  sort_chats-IsFree max_age now_ms [] = (tt, tt)
  sort_chats-IsFree max_age now_ms (c ∷ cs) = ground (arith, sort_chats-IsFree max_age now_ms cs)

  insert_created-IsFree :
      (x : Candidate) (xs : List Candidate)
      → is_active active x.id ≡ false
      → IsFree xs
      → IsFree (insert_created x xs)
  unfolding insert_created
  insert_created-IsFree x [] h a = (h, tt)
  insert_created-IsFree x (y ∷ ys) h a = ground (arith, insert_created-IsFree x ys h a.1, a)

  by_creation-IsFree : (xs : List Candidate) → IsFree xs → IsFree (by_creation xs)
  unfolding by_creation
  by_creation-IsFree [] a = tt
  by_creation-IsFree (x ∷ xs) a =
      insert_created-IsFree x (by_creation xs) a.0 (by_creation-IsFree xs a.1)

  drop-IsFree : (n : ℕ) (xs : List Candidate) → IsFree xs → IsFree (drop n xs)
  drop-IsFree zero xs a = a
  drop-IsFree (suc n) [] a = tt
  drop-IsFree (suc n) (x ∷ xs) a = drop-IsFree n xs a.1

  append-IsFree : (xs ys : List Candidate) → IsFree xs → IsFree ys → IsFree (xs ++ ys)
  append-IsFree [] ys a b = b
  append-IsFree (x ∷ xs) ys a b = (a.0, append-IsFree xs ys a.1 b)

  -- What a part of the cleanup did: the sessions of what it deleted are gone and no others, and
  -- nothing active was deleted.
  abbrev pub IsClean : Local → Local × List String → Type 0
  IsClean st out =
      IsDict out.0.resolver.sessions
      × ((k : String)
          → get out.0.resolver.sessions k
            ≡ unless (λ s. listed out.1 s.conversation_id) (get st.resolver.sessions k))
      × All (λ id. is_active active id ≡ false) out.1

  nothing-IsClean : (st : Local) → IsDict st.resolver.sessions → IsClean st (st, [])
  unfolding listed
  nothing-IsClean st h = (h, λ k. ground arith, tt)

  dropped :
      (id : String) (st : Local) (k : String)
      → IsDict st.resolver.sessions
      → get (drop_conversation id st).resolver.sessions k
        ≡ unless (of_conversation id) (get st.resolver.sessions k)
  unfolding drop_conversation
  dropped id st k h = (unbind_exact id st.resolver k h).0

  drop_conversation-IsClean :
      (id : String) (st : Local)
      → IsDict st.resolver.sessions
      → is_active active id ≡ false
      → IsClean st (drop_conversation id st, id ∷ [])
  unfolding drop_conversation listed
  drop_conversation-IsClean id st h free = (
    unbind-IsDict id st.resolver h,
    λ k. elim (Option-cases (get st.resolver.sessions k)) [
      | inl e ↦ dropped id st k h ∙ rw e refl
      | inr (s, e) ↦
          dropped id st k h
          ∙ rw e (ground (arith, eq_iff s.conversation_id id, eq_iff id s.conversation_id))
    ],
    (free, tt),
  )

  All-append :
      (xs ys : List String)
      → All (λ id. is_active active id ≡ false) xs
      → All (λ id. is_active active id ≡ false) ys
      → All (λ id. is_active active id ≡ false) (xs ++ ys)
  All-append [] ys a b = b
  All-append (x ∷ xs) ys a b = (a.0, All-append xs ys a.1 b)

  IsClean-append :
      (st st1 : Local) (ids : List String) (out : Local × List String)
      → IsClean st (st1, ids)
      → IsClean st1 out
      → IsClean st (out.0, ids ++ out.1)
  IsClean-append st st1 ids out (h, before, a) (u, after, b) = (
    u,
    λ k. elim (Option-cases (get st.resolver.sessions k)) [
      | inl e ↦ ground (arith, e, before k, after k)
      | inr (s, e) ↦ ground (arith, e, before k, after k, listed-append ids out.1 s.conversation_id)
    ],
    All-append ids out.1 a b,
  )

  delete_all-IsClean :
      (ok : String → Bool) (cs : List Candidate) (st : Local)
      → IsDict st.resolver.sessions
      → IsFree cs
      → IsClean st (delete_all ok cs st)
  unfolding delete_all
  delete_all-IsClean ok [] st h a = nothing-IsClean st h
  delete_all-IsClean ok (c ∷ cs) st h a = elim (Bool-cases (ok c.id)) [
    | inl done ↦
        let one = drop_conversation-IsClean c.id st h a.0 in
        let rest = delete_all-IsClean ok cs (drop_conversation c.id st) one.0 a.1 in
        rw done (
          IsClean-append st (drop_conversation c.id st) (c.id ∷ [])
            (delete_all ok cs (drop_conversation c.id st)) one rest)
    | inr kept ↦ rw kept (delete_all-IsClean ok cs st h a.1)
  ]

  round-IsClean :
      (max_age keep now_ms : ℕ) (ok : String → Bool) (chats : List Chat) (st : Local)
      → IsDict st.resolver.sessions
      → IsClean st (round max_age keep now_ms active ok chats st)
  unfolding round beyond
  round-IsClean max_age keep now_ms ok chats st h =
      let (stale, rest) = sort_chats-IsFree max_age now_ms chats in
      let sorted = sort_chats max_age now_ms active chats in
      delete_all-IsClean ok (sorted.0 ++ beyond keep sorted.1) st h (
        append-IsFree sorted.0 (beyond keep sorted.1) stale
          (drop-IsFree keep (by_creation sorted.1) (by_creation-IsFree sorted.1 rest)))

  after_round-IsClean :
      (st st1 : Local) (ids : List String) (later : Local × List String)
      → IsClean st (st1, ids)
      → IsClean st1 later
      → IsClean st (after_round st1 ids later)
  unfolding after_round
  after_round-IsClean st st1 [] later a b = a
  after_round-IsClean st st1 (id ∷ ids) later a b = IsClean-append st st1 (id ∷ ids) later a b

  run_listed-IsClean :
      (o : Option (List Chat)) (st : Local) (run : List Chat → Local × List String)
      (again : Local → Local × List String)
      → IsDict st.resolver.sessions
      → ((chats : List Chat) → IsClean st (run chats))
      → ((st1 : Local) → IsDict st1.resolver.sessions → IsClean st1 (again st1))
      → IsClean st (run_listed o st run again)
  unfolding run_listed
  run_listed-IsClean none st run again h r a = nothing-IsClean st h
  run_listed-IsClean (some []) st run again h r a = nothing-IsClean st h
  run_listed-IsClean (some (c ∷ cs)) st run again h r a =
      let (st1, ids) = run (c ∷ cs) in
      after_round-IsClean st st1 ids (again st1) (r (c ∷ cs)) (a st1 (r (c ∷ cs)).0)

  rounds-IsClean :
      (f max_age keep now_ms : ℕ) (list : ℕ → Option (List Chat)) (ok : ℕ → String → Bool) (i : ℕ)
      (st : Local)
      → IsDict st.resolver.sessions
      → IsClean st (rounds f max_age keep now_ms active list ok i st)
  unfolding rounds
  rounds-IsClean zero max_age keep now_ms list ok i st h = nothing-IsClean st h
  rounds-IsClean (suc f) max_age keep now_ms list ok i st h =
      run_listed-IsClean (list i) st _ _ h
        (λ chats. round-IsClean max_age keep now_ms (ok i) chats st h)
        (λ st1 h1. rounds-IsClean f max_age keep now_ms list ok (suc i) st1 h1)

spared :
    (active : Dict Bool) (ids : List String) (id : String)
    → All (λ x. is_active active x ≡ false) ids
    → is_active active id ≡ true
    → listed ids id ≡ false
unfolding listed
spared active [] id free used = refl
spared active (x ∷ xs) id free used =
    ground (arith, spared active xs id free.1 used, free.0, used, eq_iff x id)

-- Where each session stands once in the map: whatever the cloud lists and deletes in its rounds, a
-- cleanup does not delete a conversation that is on the whitelist, or that a session, a user or the
-- manager used within the maximal age before the cleanup began; and it leaves the resolver with exactly
-- the sessions whose conversations were not deleted.
pub cleanup_spares_active :
    (max_age_ms keep now_ms : ℕ) (users : UserStore) (list : ℕ → Option (List Chat))
    (ok : ℕ → String → Bool) (st : Local) (k id : String)
    → IsDict st.resolver.sessions
    → IsInUse (max_age_ms * 1_000_000) (now_ms * 1_000_000) users st id
    → let out = auto_cleanup_once max_age_ms keep now_ms users list ok st in
      (listed out.1 id ≡ false)
      × (get out.0.resolver.sessions k
          ≡ unless (λ s. listed out.1 s.conversation_id) (get st.resolver.sessions k))
unfolding auto_cleanup_once
cleanup_spares_active max_age_ms keep now_ms users list ok st k id h busy =
    let window = max_age_ms * 1_000_000 in
    let now = now_ms * 1_000_000 in
    let active = active_set window now users st in
    let (u, gone, free) = rounds-IsClean active 100 max_age_ms keep now_ms list ok 0 st h in
    (spared active _ id free (in_use-active window now users st id busy), gone k)
