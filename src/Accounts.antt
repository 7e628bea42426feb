-- ===== src/Accounts.antt =====
-- The store of Microsoft accounts (Store, internal/auth/cache.go).
pub mod Secrets
pub mod Refreshing
pub mod Turns
pub mod Merging
pub mod Expiry
mod Tests
use m365_copilot2api_docker.Text.{trim}
use m365_copilot2api_docker.Base.{
  ℕ, zero, suc, ◌+◌, ◌-◌, ◌/◌, ◌*◌, ◌%◌, String, Bool, true, false, Option, none, some, List, [],
  ◌∷◌, ◌++◌, ◌&&◌, ◌||◌, not, ltb, str_eq, if◌then◌else◌, length, get_elem?, second, min, ◌==◌,
}

-- AccountToken
pub record Account : Type 0 where
  pub id : String
  pub email : String
  pub display_name : String
  pub status : String
  pub schedule_disabled : Bool
  pub access_token : String
  pub refresh_token : String
  pub expires_at : ℕ
  pub updated_at : ℕ
  pub oid : String
  pub tid : String
  pub client_id : String
  pub bound_proxy : String

-- TokenSet
pub record TokenSet : Type 0 where
  pub access_token : String
  pub refresh_token : String
  pub expires_at : ℕ
  pub home_oid : String
  pub tenant_id : String
  pub email : String
  pub display_name : String

-- Store
pub record Store : Type 0 where
  pub accounts : List Account
  pub next_idx : ℕ

unfoldable pub first_match : (Account → Bool) → List Account → Option Account
first_match p [] = none
first_match p (a ∷ as_after) = let later = first_match p as_after in if p a then some a else later

-- The loops that change the first account of a test.
pub update_first : (Account → Bool) → (Account → Account) → List Account → List Account
update_first p f [] = []
update_first p f (a ∷ rest) =
    let later = update_first p f rest in if p a then f a ∷ rest else a ∷ later

abbrev pub has_id : String → Account → Bool
has_id id a = str_eq a.id id

-- a.ID == id || a.OID == id || a.Email == id
abbrev pub is_named : String → Account → Bool
is_named id a = str_eq a.id id || str_eq a.oid id || str_eq a.email id

abbrev pub found : Option Account → Bool
found none = false
found (some a) = true

-- SetScheduleEnabled, but for the writing; the answer is whether the account is there.
pub set_schedule_enabled : ℕ → String → Bool → Store → Store × Bool
set_schedule_enabled now id enabled s = (
  record s {
    accounts =
        update_first (has_id id)
          (λ a. record a { schedule_disabled = not enabled; updated_at = now }) s.accounts;
  },
  found (first_match (has_id id) s.accounts),
)

-- ScheduleEnabled
unfoldable pub schedule_enabled : String → Store → Bool
schedule_enabled id s = elim (first_match (has_id id) s.accounts) [
  | none ↦ false
  | some a ↦ not a.schedule_disabled
]

-- UpdateRefreshToken, for a token that is trimmed and not empty.
pub update_refresh_token : ℕ → String → String → Store → Store × Bool
update_refresh_token now id token s = (
  record s {
    accounts =
        update_first (has_id id) (λ a. record a { refresh_token = token; updated_at = now })
          s.accounts;
  },
  found (first_match (has_id id) s.accounts),
)

-- SetBoundProxy
pub set_bound_proxy : ℕ → String → String → Store → Store × Bool
set_bound_proxy now id proxy s = (
  record s {
    accounts =
        update_first (has_id id) (λ a. record a { bound_proxy = proxy; updated_at = now })
          s.accounts;
  },
  found (first_match (has_id id) s.accounts),
)

pub without : String → List Account → List Account
without id [] = []
without id (a ∷ rest) = let later = without id rest in if str_eq a.id id then later else a ∷ later

-- Delete
pub delete : String → Store → Store
delete id s = record s { accounts = without id s.accounts }

-- Get
unfoldable pub get_account : String → Store → Option Account
get_account id s = first_match (is_named id) s.accounts

-- First
pub first_account : Store → Option Account
first_account s = get_elem? s.accounts 0

-- Next
unfoldable pub next_account : Store → Store × Option Account
next_account s =
    let n = length s.accounts in
    if n == 0
    then (s, none)
    else (record s { next_idx = (s.next_idx + 1) % n }, get_elem? s.accounts (s.next_idx % n))

abbrev pub or_else : String → String → String
or_else a b = if str_eq a "" then b else a

unfoldable pub is_blank : String → Bool
is_blank s = elim (trim s) [ [] ↦ true | c ∷ rest ↦ false ]

-- firstNonEmpty of two texts, which passes over a text of spaces.
unfoldable pub first_non_empty : String → String → String
first_non_empty a b = if not (is_blank a) then a else if not (is_blank b) then b else ""

-- The account that Upsert makes of a token; `fresh` is the name that it invents and `client` is
-- ClientID.
pub made_of : ℕ → String → String → TokenSet → Account
made_of now fresh client tok =
    let id = or_else tok.home_oid (or_else tok.email fresh) in
    record {
      id = id;
      email = tok.email;
      display_name = tok.display_name;
      status = "online";
      schedule_disabled = false;
      access_token = tok.access_token;
      refresh_token = tok.refresh_token;
      expires_at = tok.expires_at;
      updated_at = now;
      oid = first_non_empty tok.home_oid id;
      tid = tok.tenant_id;
      client_id = client;
      bound_proxy = "";
    }

-- existing.ID == acc.ID || (acc.Email != "" && existing.Email == acc.Email)
abbrev pub is_same : Account → Account → Bool
is_same acc a = str_eq a.id acc.id || (not (str_eq acc.email "") && str_eq a.email acc.email)

-- What the new account takes over from the existing one.
pub merged : Account → Account → Account
merged acc a = record acc {
  refresh_token = or_else acc.refresh_token a.refresh_token;
  tid = or_else acc.tid a.tid;
  oid = or_else acc.oid a.oid;
  schedule_disabled = a.schedule_disabled;
  bound_proxy = or_else acc.bound_proxy a.bound_proxy;
}

-- Upsert, but for the writing.
pub upsert : ℕ → String → String → TokenSet → Store → Store × Account
upsert now fresh client tok s =
    let acc = made_of now fresh client tok in
    elim (first_match (is_same acc) s.accounts) [
      | none ↦ (record s { accounts = s.accounts ++ acc ∷ [] }, acc)
      | some a ↦
          (record s { accounts = update_first (is_same acc) (merged acc) s.accounts }, merged acc a)
    ]

-- 120 seconds, or a tenth of the lifetime if that is less.
unfoldable pub threshold : Account → ℕ
threshold a =
    let total = a.expires_at - a.updated_at in
    if total == 0 then 120 * second else min (total / 10) (120 * second)

-- What EnsureValid does with an account, before a refresh.
pub data Validity : Type 0 where
  unknown : Validity
  valid expired refreshing : Account → Validity

-- EnsureValid up to the refresh.
unfoldable pub ensure_valid : ℕ → String → Store → Store × Validity
ensure_valid now id s = elim (get_account id s) [
  | none ↦ (s, unknown)
  | some a ↦
      if ltb (now + threshold a) a.expires_at
      then (s, valid a)
      else if str_eq a.refresh_token ""
      then (
        record s {
          accounts = update_first (has_id a.id) (λ b. record b { status = "expired" }) s.accounts;
        },
        expired (record a { status = "expired" }),
      )
      else (s, refreshing a)
]

pub candidates : ℕ → List Account → List Account
candidates now [] = []
candidates now (a ∷ rest) =
    let later = candidates now rest in
    if ltb a.expires_at (now + threshold a) && not (str_eq a.refresh_token "")
    then a ∷ later
    else later
