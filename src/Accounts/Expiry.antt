-- ===== src/Accounts/Expiry.antt =====
-- What EnsureValid promises, and what it does not (internal/auth/cache.go).
use m365_copilot2api_docker.Base.{
  ℕ, ◌+◌, ◌-◌, ◌*◌, ◌≤◌, ◌<◌, ◌≡◌, ◌≢◌, refl, String, Option, none, some, List, str_eq, arith,
  eq_iff, eq_refl, ◌∙◌, ap, Bool-cases, Option-cases, inl, inr, ◌⊎◌, second, ltb,
}
use m365_copilot2api_docker.Dict.{get, put, get-remove}
use m365_copilot2api_docker.Accounts.{
  Account, TokenSet, Store, first_match, has_id, made_of, upsert, threshold, Validity, unknown,
  valid, expired, refreshing, ensure_valid, get_account,
}
use m365_copilot2api_docker.Accounts.Merging.{first_match-update_same, upsert_found, upsert-id}
use m365_copilot2api_docker.Accounts.Refreshing.{
  State, sends, begin_refresh, filled, end_refresh, apply_answer, forget_refresh,
}

-- What an answer means: no account has the name; or the first that has it has a token that lives for
-- more than the margin; or one that does not, and there is a refresh token or there is none.
abbrev pub IsRight : ℕ → String → Store → Validity → Type 0
IsRight now id s unknown = get_account id s ≡ none
IsRight now id s (valid a) = (get_account id s ≡ some a) × (now + threshold a < a.expires_at)
IsRight now id s (expired a) =
    (b : Account) × (get_account id s ≡ some b)
    × (a ≡ record b { status = "expired" })
    × (b.expires_at ≤ now + threshold b)
    × (b.refresh_token ≡ "")
IsRight now id s (refreshing a) =
    (get_account id s ≡ some a) × (a.expires_at ≤ now + threshold a) × (a.refresh_token ≢ "")

-- The margin is 120 seconds, or the tenth of the lifetime that the token had, rounded down, if that is
-- less.
abbrev pub IsMargin : Account → Type 0
IsMargin a =
    let lifetime = a.expires_at - a.updated_at in
    ((threshold a ≡ 120 * second) × ((lifetime ≡ 0) ⊎ (1_200 * second ≤ lifetime)))
    ⊎ ((0 < lifetime)
        × (lifetime < 1_200 * second)
        × (10 * threshold a ≤ lifetime)
        × (lifetime < 10 * threshold a + 10))

threshold-IsMargin : (a : Account) → IsMargin a
unfolding threshold
threshold-IsMargin a = ground arith

ensure_valid-found :
    (now : ℕ) (id : String) (s : Store) (a : Account)
    → get_account id s ≡ some a
    → IsRight now id s (ensure_valid now id s).1
unfolding ensure_valid
ensure_valid-found now id s a there = elim (Bool-cases (ltb (now + threshold a) a.expires_at)) [
  | inl lives ↦ rw (there, ensure_valid) (rw lives (there, ground (arith, lives)))
  | inr over ↦ elim (Bool-cases (str_eq a.refresh_token "")) [
    | inl blank ↦
        rw (there, ensure_valid)
          (rw over (
            rw blank (
              a,
              there,
              refl,
              ground (arith, over),
              ground (arith, blank, eq_iff a.refresh_token ""),
            )))
    | inr token ↦
        rw (there, ensure_valid)
          (rw over (
            rw token (
              there,
              ground (arith, over),
              λ same. ground (arith, token, same, eq_iff a.refresh_token ""),
            )))
  ]
]

ensure_valid_lem : (now : ℕ) (id : String) (s : Store) → IsRight now id s (ensure_valid now id s).1
unfolding ensure_valid
ensure_valid_lem now id s = elim (Option-cases (get_account id s)) [
  | inl missing ↦ rw (missing, ensure_valid) missing
  | inr (a, there) ↦ ensure_valid-found now id s a there
]

-- Up to the refresh, EnsureValid answers that there is no account of the name only where there is none;
-- else it is about the first account of the name, and answers it where its token lives for more than
-- the margin, hands it to the refresh where the token does not and there is a refresh token, and
-- answers it as expired where there is none. The margin is 120 seconds, or a tenth of the lifetime of
-- the token if that is less.
pub ensure_valid-IsRight :
    (now : ℕ) (id : String) (s : Store)
    → IsRight now id s (ensure_valid now id s).1 × ((a : Account) → IsMargin a)
ensure_valid-IsRight now id s = (ensure_valid_lem now id s, threshold-IsMargin)

begin_idle :
    (a : Account) (st : State)
    → get st.inflight a.id ≡ none
    → begin_refresh a st ≡ (record st { inflight = put st.inflight a.id a }, sends a.refresh_token)
unfolding begin_refresh
begin_idle a st idle = rw (idle, begin_refresh) refl

end_idle :
    (now : ℕ) (fresh client : String) (a : Account) (answer : Option TokenSet) (st : State)
    → get (end_refresh now fresh client a answer st).inflight a.id ≡ none
unfolding end_refresh apply_answer forget_refresh
end_idle now fresh client a answer st =
    ground (arith, get-remove st.inflight a.id a.id, eq_refl a.id)

filled-id :
    (now : ℕ) (fresh client : String) (a : Account) (tok : TokenSet)
    → a.id ≢ ""
    → tok.home_oid ≡ a.id
    → (made_of now fresh client (filled a tok)).id ≡ a.id
unfolding made_of filled
filled-id now fresh client a tok named own = ground (arith, named, own, eq_iff tok.home_oid "")

renamed :
    (x y : String) (l : List Account) (b : Account)
    → x ≡ y
    → first_match (has_id x) l ≡ some b
    → first_match (has_id y) l ≡ some b
renamed x y l b same h = rw (← same) h

refresh_finds :
    (now : ℕ) (fresh client : String) (a : Account) (tok : TokenSet) (st : State)
    → a.id ≢ ""
    → tok.home_oid ≡ a.id
    → (b : Account) × (first_match
          (has_id a.id)
          (end_refresh now fresh client a (some tok) st).store.accounts
        ≡ some b)
      × (b.id ≡ a.id)
      × (b.access_token ≡ tok.access_token)
unfolding end_refresh apply_answer forget_refresh filled
refresh_finds now fresh client a tok st named own =
    let found_now = upsert_found now fresh client (filled a tok) st.store in
    let same_id =
      upsert-id now fresh client (filled a tok) st.store
      ∙ filled-id now fresh client a tok named own in
    (
      (upsert now fresh client (filled a tok) st.store).1,
      renamed (upsert now fresh client (filled a tok) st.store).1.id a.id _ _ same_id found_now.0,
      same_id,
      found_now.1,
    )

-- A refused refresh marks the account, whatever its tokens.
refusal_expires :
    (now : ℕ) (fresh client : String) (a b : Account) (st : State)
    → first_match (has_id a.id) st.store.accounts ≡ some b
    → b.id ≡ a.id
    → first_match (has_id a.id) (end_refresh now fresh client a none st).store.accounts
      ≡ some (record b { status = "expired" })
unfolding end_refresh apply_answer forget_refresh
refusal_expires now fresh client a b st there same =
    first_match-update_same (has_id a.id) (λ c. record c { status = "expired" }) st.store.accounts b
      there (ground (arith, same, eq_refl a.id))

-- Where two calls of EnsureValid read an account before either refreshed it, and the second begins after
-- the first succeeded, with the id of the account in the answer, then both send the same refresh token,
-- and if the second is refused, the account with the new access token is marked as expired.
pub late_refresh_expires :
    (now later : ℕ) (fresh client : String) (a : Account) (tok : TokenSet) (st : State)
    → a.id ≢ ""
    → tok.home_oid ≡ a.id
    → get st.inflight a.id ≡ none
    → let first_done = end_refresh now fresh client a (some tok) (begin_refresh a st).0 in
      let again = begin_refresh a first_done in
      ((begin_refresh a st).1 ≡ sends a.refresh_token)
      × (again.1 ≡ sends a.refresh_token)
      × ((b : Account) × (first_match
              (has_id a.id)
              (end_refresh later fresh client a none again.0).store.accounts
            ≡ some b)
          × (b.access_token ≡ tok.access_token)
          × (b.status ≡ "expired"))
late_refresh_expires now later fresh client a tok st named own idle =
    let begun = (begin_refresh a st).0 in
    let done = end_refresh now fresh client a (some tok) begun in
    let (b, there, id, token) = refresh_finds now fresh client a tok begun named own in
    rw (begin_idle a done (end_idle now fresh client a (some tok) begun)) (
      ap (λ out. out.1) (begin_idle a st idle),
      refl,
      (
        record b { status = "expired" },
        refusal_expires later fresh client a b _ there id,
        token,
        refl,
      ),
    )
