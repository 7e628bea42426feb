-- ===== src/Accounts/Refreshing.antt =====
-- The refresh of an account (refreshInflight, internal/auth/cache.go). EnsureValid reads the account
-- and frees the lock before it starts, so what it reads may be old.
use m365_copilot2api_docker.Base.{ℕ, String, Option, none, some, str_eq, if◌then◌else◌}
use m365_copilot2api_docker.Dict.{Dict, get, put, remove}
use m365_copilot2api_docker.Accounts.{
  Account, TokenSet, Store, update_first, has_id, or_else, upsert, first_non_empty,
}

-- The store, and the refreshes that are under way, by the ids of their accounts.
pub record State : Type 0 where
  pub store : Store
  pub inflight : Dict Account

-- The first half: a refresh with a token begins, or the caller waits for one that is under way.
pub data Begun : Type 0 where
  sends : String → Begun
  waits : Begun

unfoldable pub begin_refresh : Account → State → State × Begun
begin_refresh acc st = elim (get st.inflight acc.id) [
  | some other ↦ (st, waits)
  | none ↦ (record st { inflight = put st.inflight acc.id acc }, sends acc.refresh_token)
]

-- The token set with what the answer left out.
unfoldable pub filled : Account → TokenSet → TokenSet
filled acc tok = record tok {
  email = or_else tok.email acc.email;
  display_name = or_else tok.display_name acc.display_name;
  home_oid = or_else tok.home_oid (first_non_empty acc.oid acc.id);
  tenant_id = or_else tok.tenant_id acc.tid;
}

-- The second section: the answer of the token endpoint, none where it is an error. `client` is
-- ClientID, and `fresh` the name that Upsert may invent.
unfoldable pub apply_answer : ℕ → String → String → Account → Option TokenSet → State → State
apply_answer now fresh client acc none st = record st {
  store = record st.store {
    accounts =
        update_first (has_id acc.id) (λ a. record a { status = "expired" }) st.store.accounts;
  };
}
apply_answer now fresh client acc (some tok) st = record st {
  store = (upsert now fresh client (filled acc tok) st.store).0;
}

-- The third section: the refresh is not under way any more.
unfoldable pub forget_refresh : Account → State → State
forget_refresh acc st = record st { inflight = remove st.inflight acc.id }

-- The last two sections, without what others do in between.
unfoldable pub end_refresh : ℕ → String → String → Account → Option TokenSet → State → State
unfolding apply_answer forget_refresh
end_refresh now fresh client acc answer st =
    forget_refresh acc (apply_answer now fresh client acc answer st)

-- The endpoint of a refresh; `with_tenant` puts a tenant in the place of `common`.
unfoldable pub endpoint_of :
    (String → String → String) → String → String → String → Account → String
endpoint_of with_tenant browser device device_client acc =
    if str_eq acc.client_id device_client
    then device
    else if str_eq acc.tid ""
    then browser
    else with_tenant browser acc.tid
