-- ===== src/Accounts/Merging.antt =====
-- What Upsert makes of the accounts (internal/auth/cache.go).
use m365_copilot2api_docker.Base.{
  ℕ, suc, ◌≤◌, ◌≡◌, ◌≢◌, refl, String, Bool, true, false, none, some, List, [], ◌∷◌, ◌++◌, str_eq,
  if◌then◌else◌, arith, eq_iff, eq_refl, Bool-cases, Option-cases, inl, inr, ◌⊎◌,
}
use m365_copilot2api_docker.Accounts.{
  Account, TokenSet, Store, first_match, update_first, has_id, or_else, made_of, is_same, merged,
  upsert,
}

pub first_match-passes :
    (p : Account → Bool) (l : List Account) (a : Account) → first_match p l ≡ some a → p a ≡ true
unfolding first_match
first_match-passes p [] a e = cc
first_match-passes p (b ∷ rest) a e = elim (Bool-cases (p b)) [
  | inl here ↦ let same : b ≡ a = ground (arith, e, here) in rw (← same) here
  | inr there ↦ first_match-passes p rest a (ground (arith, e, there))
]

-- The first account of a test is replaced by one that is the first of another test, if nothing that
-- passes the second test passes not the first.
first_match-update_first :
    (p q : Account → Bool) (f : Account → Account) (l : List Account) (a : Account)
    → ((b : Account) → p b ≡ false → q b ≡ false)
    → first_match p l ≡ some a
    → q (f a) ≡ true
    → first_match q (update_first p f l) ≡ some (f a)
unfolding first_match update_first
first_match-update_first p q f [] a weaker e h = cc
first_match-update_first p q f (b ∷ rest) a weaker e h = elim (Bool-cases (p b)) [
  | inl here ↦ let same : b ≡ a = ground (arith, e, here) in rw here (rw same (rw h refl))
  | inr there ↦
      rw (there, weaker b there)
        (first_match-update_first p q f rest a weaker (ground (arith, e, there)) h)
]

first_match-append :
    (p q : Account → Bool) (l : List Account) (a : Account)
    → ((b : Account) → p b ≡ false → q b ≡ false)
    → first_match p l ≡ none
    → q a ≡ true
    → first_match q (l ++ a ∷ []) ≡ some a
unfolding first_match
first_match-append p q [] a weaker e h = rw h refl
first_match-append p q (b ∷ rest) a weaker e h = elim (Bool-cases (p b)) [
  | inl here ↦ ground (arith, e, here)
  | inr there ↦
      rw (weaker b there) (first_match-append p q rest a weaker (ground (arith, e, there)) h)
]

pub first_match-update_same :
    (p : Account → Bool) (f : Account → Account) (l : List Account) (a : Account)
    → first_match p l ≡ some a
    → p (f a) ≡ true
    → first_match p (update_first p f l) ≡ some (f a)
first_match-update_same p f l a e h = first_match-update_first p p f l a (λ b n. n) e h

upsert-new :
    (now : ℕ) (fresh client : String) (tok : TokenSet) (s : Store)
    → let acc = made_of now fresh client tok in
      first_match (is_same acc) s.accounts ≡ none
      → upsert now fresh client tok s ≡ (record s { accounts = s.accounts ++ acc ∷ [] }, acc)
unfolding upsert
upsert-new now fresh client tok s e = rw (e, upsert) refl

upsert-known :
    (now : ℕ) (fresh client : String) (tok : TokenSet) (s : Store) (a : Account)
    → let acc = made_of now fresh client tok in
      first_match (is_same acc) s.accounts ≡ some a
      → upsert now fresh client tok s
        ≡ (record s { accounts = update_first (is_same acc) (merged acc) s.accounts }, merged acc a)
unfolding upsert
upsert-known now fresh client tok s a e = rw (e, upsert) refl

pub upsert-id :
    (now : ℕ) (fresh client : String) (tok : TokenSet) (s : Store)
    → (upsert now fresh client tok s).1.id ≡ (made_of now fresh client tok).id
unfolding merged
upsert-id now fresh client tok s =
    elim (Option-cases (first_match (is_same (made_of now fresh client tok)) s.accounts)) [
      | inl e ↦ rw (upsert-new now fresh client tok s e) refl
      | inr (a, e) ↦ rw (upsert-known now fresh client tok s a e) refl
    ]

-- The new account takes the place of the existing one, and keeps from it what IsMerged says.
abbrev pub IsMerged : TokenSet → Account → Account → Type 0
IsMerged tok a out =
    (out.schedule_disabled ≡ a.schedule_disabled)
    × (out.bound_proxy ≡ or_else "" a.bound_proxy)
    × (out.refresh_token ≡ or_else tok.refresh_token a.refresh_token)

-- After Upsert, the first account with the id of the one that it answers is that one. It has the
-- access token and the expiry of the new tokens and counts as online. Either no account had the id or
-- address, and the new one has the new refresh token and may be scheduled; or it keeps from the first
-- such account the switch of the scheduler, the proxy, and the refresh token where none was given.
pub upsert_found :
    (now : ℕ) (fresh client : String) (tok : TokenSet) (s : Store)
    → let out = upsert now fresh client tok s in
      (first_match (has_id out.1.id) out.0.accounts ≡ some out.1)
      × (out.1.access_token ≡ tok.access_token)
      × (out.1.expires_at ≡ tok.expires_at)
      × (out.1.updated_at ≡ now)
      × (out.1.status ≡ "online")
      × (((first_match (is_same (made_of now fresh client tok)) s.accounts ≡ none)
            × (out.1.refresh_token ≡ tok.refresh_token)
            × (out.1.schedule_disabled ≡ false))
          ⊎ ((a : Account) × (first_match (is_same (made_of now fresh client tok)) s.accounts
                ≡ some a)
              × IsMerged tok a out.1))
unfolding made_of merged
upsert_found now fresh client tok s =
    let acc = made_of now fresh client tok in
    elim (Option-cases (first_match (is_same acc) s.accounts)) [
      | inl e ↦
          let new =
            first_match-append (is_same acc) (has_id acc.id) s.accounts acc (λ b h. ground arith) e
              (eq_refl acc.id) in
          rw (upsert-new now fresh client tok s e)
            (new, refl, refl, refl, refl, inl (e, refl, refl))
      | inr (a, e) ↦
          let kept =
            first_match-update_first (is_same acc) (has_id acc.id) (merged acc) s.accounts a
              (λ b h. ground arith) e (eq_refl acc.id) in
          rw (upsert-known now fresh client tok s a e)
            (kept, refl, refl, refl, refl, inr (a, e, (refl, refl, refl)))
    ]

unfoldable pub count_id : String → List Account → ℕ
count_id id [] = 0
count_id id (a ∷ rest) = let n = count_id id rest in if str_eq a.id id then suc n else n

count_id-some :
    (id : String) (l : List Account) (a : Account)
    → first_match (has_id id) l ≡ some a
    → 1 ≤ count_id id l
unfolding count_id first_match
count_id-some id [] a e = cc
count_id-some id (b ∷ rest) a e = ground (arith, count_id-some id rest a)

-- Where the first account has the address of a new token, and a later one has its object id, Upsert
-- leaves two accounts with that id.
pub upsert_duplicates :
    (now : ℕ) (fresh client : String) (tok : TokenSet) (a b : Account) (rest : List Account) (n : ℕ)
    → tok.email ≢ ""
    → a.email ≡ tok.email
    → tok.home_oid ≢ ""
    → first_match (has_id tok.home_oid) rest ≡ some b
    → 2
      ≤ count_id tok.home_oid
          (upsert now fresh client tok (record { accounts = a ∷ rest; next_idx = n })).0.accounts
unfolding upsert made_of merged first_match update_first count_id
upsert_duplicates now fresh client tok a b rest n mail same oid there = ground (
  arith,
  mail,
  same,
  oid,
  eq_iff a.email tok.email,
  eq_iff tok.email "",
  eq_iff tok.home_oid "",
  eq_refl tok.home_oid,
  count_id-some tok.home_oid rest b there,
)
