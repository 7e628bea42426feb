-- ===== src/Keys.antt =====
-- The API keys (apiKeyStore, internal/web/keys.go) over a file that is written at once
-- (flushNowBlocking, internal/web/persist.go).
pub mod Validity
pub mod Rollback
pub mod Interleaving
mod Tests
use m365_copilot2api_docker.Base.{
  ℕ, zero, suc, String, Bool, true, false, Option, none, some, List, [], ◌∷◌, ◌++◌, ◌&&◌, not,
  str_eq, if◌then◌else◌, get_elem?, map, leb, length,
}

-- apiKeyRecord; LastUsedAt is none where it is nil.
pub record Key : Type 0 where
  pub id : String
  pub name : String
  pub prefix : String
  pub hash : String
  pub raw : String
  pub created_at : ℕ
  pub last_used_at : Option ℕ
  pub revoked : Bool

-- The keys, the mark of persistStore that a write is due, and the keys in the file.
pub record Store : Type 0 where
  pub keys : List Key
  pub dirty : Bool
  pub disk : List Key

-- flushNowBlocking; `ok` says that the file could be written.
pub flush_now : Bool → Store → Store
flush_now ok s = if ok then record s { dirty = false; disk = s.keys } else record s { dirty = true }

-- The index of the first key that passes a test.
pub find_index : (Key → Bool) → List Key → Option ℕ
find_index p [] = none
find_index p (k ∷ ks) =
    let later = find_index p ks in
    if p k then some 0 else elim later [ none ↦ none | some i ↦ some (suc i) ]

pub update_at : ℕ → (Key → Key) → List Key → List Key
update_at i f [] = []
update_at zero f (k ∷ ks) = f k ∷ ks
update_at (suc i) f (k ∷ ks) = k ∷ update_at i f ks

pub remove_at : ℕ → List Key → List Key
remove_at i [] = []
remove_at zero (k ∷ ks) = ks
remove_at (suc i) (k ∷ ks) = k ∷ remove_at i ks

pub insert_at : ℕ → Key → List Key → List Key
insert_at zero new ks = new ∷ ks
insert_at (suc i) new [] = new ∷ []
insert_at (suc i) new (k ∷ ks) = k ∷ insert_at i new ks

-- `s.Keys[:len(s.Keys)-1]`
pub drop_last : List Key → List Key
drop_last [] = []
drop_last (k ∷ []) = []
drop_last (k ∷ l ∷ ks) = k ∷ drop_last (l ∷ ks)

-- What a successful answer shows of a key, and an entry of list.
abbrev pub shown : Key → Key
shown k = record k { hash = ""; raw = "" }

-- list
pub list : Store → List Key
list s = map shown s.keys

-- The first half of create.
pub append_key : Store → Key → Store
append_key s r = record s { keys = s.keys ++ r ∷ [] }

-- The second half of create, once the file is written or not; a list that others have emptied
-- meanwhile, where the code panics, stays.
pub finish_create : Bool → Key → Store → Store × Option Key
finish_create true r s = (s, some (shown r))
finish_create false r s = (record s { keys = drop_last s.keys }, none)

-- create, without what others do meanwhile; `r` is the record that it makes.
pub create : Bool → Key → Store → Store × Option Key
create ok r s = finish_create ok r (flush_now ok (append_key s r))

abbrev pub revocable : String → Key → Bool
revocable id k = str_eq k.id id && not k.revoked

abbrev pub named : String → Key → Bool
named id k = str_eq k.id id

-- What an operation on one key answers: whether it changed the key, that the file failed, or that the
-- undoing of the change panics.
pub data Answer : Type 0 where
  changed unknown_key not_written out_of_range : Answer

-- The first half of revoke, which notes the index of the key.
pub begin_revoke : String → Store → Store × Option ℕ
begin_revoke id s = elim (find_index (revocable id) s.keys) [
  | none ↦ (s, none)
  | some i ↦ (record s { keys = update_at i (λ k. record k { revoked = true }) s.keys }, some i)
]

-- The second half of revoke, once the file is written or not.
pub finish_revoke : Bool → ℕ → Store → Store × Answer
finish_revoke true i s = (s, changed)
finish_revoke false i s = elim (get_elem? s.keys i) [
  | none ↦ (s, out_of_range)
  | some k ↦
      (record s { keys = update_at i (λ k. record k { revoked = false }) s.keys }, not_written)
]

pub go_on_revoke : Bool → Store × Option ℕ → Store × Answer
go_on_revoke ok (s, none) = (s, unknown_key)
go_on_revoke ok (s, some i) = finish_revoke ok i (flush_now ok s)

-- revoke, without what others do while the file is written.
pub revoke : Bool → String → Store → Store × Answer
revoke ok id s = go_on_revoke ok (begin_revoke id s)

-- The first half of delete, which notes the index of the key and the key.
pub begin_delete : String → Store → Store × Option (ℕ × Key)
begin_delete id s = elim (find_index (named id) s.keys) [
  | none ↦ (s, none)
  | some i ↦ elim (get_elem? s.keys i) [
    | none ↦ (s, none)
    | some removed ↦ (record s { keys = remove_at i s.keys }, some (i, removed))
  ]
]

-- The second half of delete.
pub finish_delete : Bool → ℕ → Key → Store → Store × Answer
finish_delete true i removed s = (s, changed)
finish_delete false i removed s =
    if leb i (length s.keys)
    then (record s { keys = insert_at i removed s.keys }, not_written)
    else (s, out_of_range)

pub go_on_delete : Bool → Store × Option (ℕ × Key) → Store × Answer
go_on_delete ok (s, none) = (s, unknown_key)
go_on_delete ok (s, some (i, removed)) = finish_delete ok i removed (flush_now ok s)

-- delete, without what others do while the file is written.
pub delete : Bool → String → Store → Store × Answer
delete ok id s = go_on_delete ok (begin_delete id s)

abbrev pub renamed : String → Option Bool → Key → Key
renamed name revoked k = record k {
  name = if str_eq name "" then k.name else name;
  revoked = elim revoked [ none ↦ k.revoked | some b ↦ b ];
}

-- The first half of update, which notes the name and the mark that the key had.
pub begin_update : String → String → Option Bool → Store → Store × Option (String × Bool)
begin_update id name revoked s = elim (find_index (named id) s.keys) [
  | none ↦ (s, none)
  | some i ↦ elim (get_elem? s.keys i) [
    | none ↦ (s, none)
    | some old ↦ (
      record s { keys = update_at i (renamed name revoked) s.keys },
      some (old.name, old.revoked),
    )
  ]
]

-- The second half of update, which looks for the key again.
pub finish_update : Bool → String → String → Bool → Store → Store × Answer
finish_update true id old_name old_revoked s = (s, changed)
finish_update false id old_name old_revoked s = elim (find_index (named id) s.keys) [
  | none ↦ (s, not_written)
  | some j ↦ (
    record s {
      keys = update_at j (λ k. record k { name = old_name; revoked = old_revoked }) s.keys;
    },
    not_written,
  )
]

pub go_on_update : Bool → String → Store × Option (String × Bool) → Store × Answer
go_on_update ok id (s, none) = (s, unknown_key)
go_on_update ok id (s, some (old_name, old_revoked)) =
    finish_update ok id old_name old_revoked (flush_now ok s)

-- update, without what others do while the file is written.
pub update : Bool → String → String → Option Bool → Store → Store × Answer
update ok id name revoked s = go_on_update ok id (begin_update id name revoked s)

abbrev pub has_plain_text : List Key → Bool
has_plain_text [] = false
has_plain_text (k ∷ ks) = if str_eq k.raw "" then has_plain_text ks else true

-- `key_hash` is keyHash, the hexadecimal SHA-256 of a key.
module _ (key_hash : String → String) where
  abbrev pub accepts : String → Key → Bool
  accepts raw k = str_eq k.hash (key_hash raw) && not k.revoked

  -- valid: whether a key is accepted, and the use that is noted.
  pub valid : String → ℕ → Store → Store × Bool
  valid raw now s = elim (find_index (accepts raw) s.keys) [
    | none ↦ (s, false)
    | some i ↦ (
      record s {
        keys = update_at i (λ k. record k { last_used_at = some now }) s.keys;
        dirty = true;
      },
      true,
    )
  ]

  -- The loop of openAPIKeys over the keys of the file, which drops the plain text of old ones.
  pub migrate : Key → Key
  migrate k =
      if str_eq k.raw ""
      then k
      else if str_eq k.hash ""
      then record k { hash = key_hash k.raw; raw = "" }
      else record k { raw = "" }

  -- openAPIKeys, for a file that can be read.
  pub open_api_keys : Bool → List Key → Store
  open_api_keys ok ks =
      let s : Store = record { keys = map migrate ks; dirty = false; disk = ks } in
      if has_plain_text ks then record s { disk = if ok then map migrate ks else ks } else s
