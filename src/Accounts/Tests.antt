-- ===== src/Accounts/Tests.antt =====
-- Runs of the account store, and instances of its theorems.
use m365_copilot2api_docker.Base.{
  ◌*◌, ◌≡◌, ◌≢◌, refl, String, true, Option, none, some, [], ◌∷◌, arith, eq_iff, ◌⊎◌, second, false,
}
use m365_copilot2api_docker.Dict.{get}
use m365_copilot2api_docker.Accounts.{
  Account, TokenSet, Store, valid, refreshing, ensure_valid, made_of, is_same, first_match, has_id,
  upsert, get_account, threshold,
}
use m365_copilot2api_docker.Accounts.Secrets.{AllSealed, sealed, reopen, reopen-sealed}
use m365_copilot2api_docker.Accounts.Merging.{IsMerged, upsert_found}
use m365_copilot2api_docker.Accounts.Refreshing.{State, sends, begin_refresh, end_refresh}
use m365_copilot2api_docker.Accounts.Expiry.{
  IsRight, IsMargin, ensure_valid-IsRight, late_refresh_expires,
}

abbrev ann : Account
ann = record {
  id = "a";
  email = "ann@x";
  display_name = "Ann";
  status = "online";
  schedule_disabled = true;
  access_token = "old";
  refresh_token = "r1";
  expires_at = 4_000 * second;
  updated_at = 400 * second;
  oid = "a";
  tid = "t";
  client_id = "c";
  bound_proxy = "p";
}

abbrev bob : Account
bob = record ann { id = "b"; email = "bob@x"; oid = "b" }

abbrev two : Store
two = record { accounts = ann ∷ bob ∷ []; next_idx = 1 }

abbrev new_token : TokenSet
new_token = record {
  access_token = "new";
  refresh_token = "r2";
  expires_at = 8_000 * second;
  home_oid = "a";
  tenant_id = "t";
  email = "ann@x";
  display_name = "Ann";
}

long_valid : (ensure_valid (3_000 * second) "ann@x" two).1 ≡ valid ann
unfolding ensure_valid get_account first_match threshold
long_valid = refl

soon_refreshed : (ensure_valid (3_900 * second) "ann@x" two).1 ≡ refreshing ann
unfolding ensure_valid get_account first_match threshold
soon_refreshed = refl

a_given : ◌≢◌ {A = String} "a" ""
a_given same = absurd (ground (arith, eq_iff "a" ""))

b_given : ◌≢◌ {A = String} "b" ""
b_given same = absurd (ground (arith, eq_iff "b" ""))

ensure_valid-IsRight_example :
    IsRight (3_900 * second) "ann@x" two (ensure_valid (3_900 * second) "ann@x" two).1
    × ((a : Account) → IsMargin a)
ensure_valid-IsRight_example = ensure_valid-IsRight (3_900 * second) "ann@x" two

upsert_found_example :
    let out = upsert 5 "f" "c" new_token two in
    (first_match (has_id out.1.id) out.0.accounts ≡ some out.1)
    × (out.1.access_token ≡ "new")
    × (out.1.expires_at ≡ new_token.expires_at)
    × (out.1.updated_at ≡ 5)
    × (out.1.status ≡ "online")
    × (((first_match (is_same (made_of 5 "f" "c" new_token)) two.accounts ≡ none)
          × (out.1.refresh_token ≡ new_token.refresh_token)
          × (out.1.schedule_disabled ≡ false))
        ⊎ ((a : Account) × (first_match (is_same (made_of 5 "f" "c" new_token)) two.accounts
              ≡ some a)
            × IsMerged new_token a out.1))
upsert_found_example = upsert_found 5 "f" "c" new_token two

abbrev open_seal : String → String → String
open_seal n t = t

abbrev open_unseal : String → Option String
open_unseal t = some t

reopen-sealed_example :
    (reopen open_seal open_unseal (sealed open_seal open_unseal (λ i. "n") 0 (ann ∷ bob ∷ []))
      ≡ ann ∷ bob ∷ [])
    × AllSealed open_seal open_unseal
        (ann ∷ bob ∷ [])
        (sealed open_seal open_unseal (λ i. "n") 0 (ann ∷ bob ∷ []))
reopen-sealed_example =
    reopen-sealed open_seal open_unseal (λ i. "n") 0 (ann ∷ bob ∷ []) (λ n t. refl)
      ((a_given, a_given, refl), ((b_given, b_given, refl), tt))

abbrev idle : State
idle = record { store = two; inflight = [] }

late_refresh_expires_example :
    let first_done = end_refresh 5 "f" "c" ann (some new_token) (begin_refresh ann idle).0 in
    let again = begin_refresh ann first_done in
    ((begin_refresh ann idle).1 ≡ sends "r1")
    × (again.1 ≡ sends "r1")
    × ((b : Account) × (first_match
            (has_id "a")
            (end_refresh 6 "f" "c" ann none again.0).store.accounts
          ≡ some b)
        × (b.access_token ≡ "new")
        × (b.status ≡ "expired"))
unfolding get
late_refresh_expires_example = late_refresh_expires 5 6 "f" "c" ann new_token idle a_given refl refl
