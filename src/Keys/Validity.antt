-- ===== src/Keys/Validity.antt =====
-- Which keys are accepted (valid, internal/web/keys.go).
use m365_copilot2api_docker.Base.{
  ℕ, zero, suc, ◌≡◌, ◌∙◌, refl, String, Bool, true, false, Option, some, List, [], ◌∷◌, ◌++◌, ◌&&◌,
  ◌||◌, not, str_eq, arith, Option-cases, Bool-cases, inl, inr, ap, eq_refl, if◌then◌else◌, is_some,
  map,
}
use m365_copilot2api_docker.Keys.{
  Key, Store, flush_now, find_index, update_at, remove_at, append_key, finish_create, create,
  revocable, named, changed, revoke, delete, accepts, valid, migrate, open_api_keys, has_plain_text,
  begin_revoke, finish_revoke, begin_delete, finish_delete, go_on_revoke, go_on_delete,
}
use m365_copilot2api_docker.Keys.Rollback.{find_index-some}

-- No key has a hash.
unfoldable pub lacks : String → List Key → Bool
lacks h [] = true
lacks h (k ∷ ks) = not (str_eq k.hash h) && lacks h ks

-- At most the first key named `id` has a hash.
unfoldable pub only : String → String → List Key → Bool
only id h [] = true
only id h (k ∷ ks) = if str_eq k.id id then lacks h ks else (not (str_eq k.hash h) && only id h ks)

lacks-update_at :
    (h : String) (f : Key → Key) (ks : List Key) (i : ℕ)
    → ((k : Key) → (f k).hash ≡ k.hash)
    → lacks h (update_at i f ks) ≡ lacks h ks
unfolding lacks update_at
lacks-update_at h f [] i e = refl
lacks-update_at h f (k ∷ ks) zero e = ground (arith, e k)
lacks-update_at h f (k ∷ ks) (suc i) e = ground (arith, lacks-update_at h f ks i e)

-- What a use of a key does not change.
abbrev pub essence : Key → String × String × String × Bool
essence k = (k.id, k.name, k.hash, k.revoked)

essence-update_at :
    (ks : List Key) (i : ℕ) (used : Option ℕ)
    → map essence (update_at i (λ k. record k { last_used_at = used }) ks) ≡ map essence ks
unfolding update_at
essence-update_at [] i used = refl
essence-update_at (k ∷ ks) zero used = refl
essence-update_at (k ∷ ks) (suc i) used = ap (◌∷◌ (essence k)) (essence-update_at ks i used)

module _ (key_hash : String → String) where
  -- Some key that is not revoked has the hash of `raw`.
  pub accepted : String → List Key → Bool
  accepted raw [] = false
  accepted raw (k ∷ ks) = accepts key_hash raw k || accepted raw ks

  found_iff :
      (raw : String) (ks : List Key)
      → is_some (find_index (accepts key_hash raw) ks) ≡ accepted raw ks
  unfolding accepted find_index
  found_iff raw [] = refl
  found_iff raw (k ∷ ks) = ground (arith, found_iff raw ks)

  accepted-lacks :
      (raw : String) (ks : List Key) → lacks (key_hash raw) ks ≡ true → accepted raw ks ≡ false
  unfolding accepted lacks
  accepted-lacks raw [] h = refl
  accepted-lacks raw (k ∷ ks) h = ground (arith, accepted-lacks raw ks)

  accepted-remove_at :
      (raw id : String) (ks : List Key) (i : ℕ)
      → only id (key_hash raw) ks ≡ true
      → find_index (named id) ks ≡ some i
      → accepted raw (remove_at i ks) ≡ false
  unfolding accepted only find_index remove_at
  accepted-remove_at raw id [] i o e = refl
  accepted-remove_at raw id (k ∷ ks) zero o e = ground (arith, accepted-lacks raw ks)
  accepted-remove_at raw id (k ∷ ks) (suc i) o e =
      ground (arith, accepted-remove_at raw id ks i, accepted-lacks raw ks)

  accepted-revoked :
      (raw id : String) (ks : List Key) (i : ℕ)
      → only id (key_hash raw) ks ≡ true
      → find_index (revocable id) ks ≡ some i
      → accepted raw (update_at i (λ k. record k { revoked = true }) ks) ≡ false
  unfolding accepted only find_index update_at
  accepted-revoked raw id [] i o e = cc
  accepted-revoked raw id (k ∷ ks) zero o e = ground (arith, accepted-lacks raw ks)
  accepted-revoked raw id (k ∷ ks) (suc i) o e = ground (
    arith,
    accepted-revoked raw id ks i,
    accepted-lacks raw (update_at i (λ k. record k { revoked = true }) ks),
    lacks-update_at (key_hash raw) (λ k. record k { revoked = true }) ks i (λ k. refl),
  )

  accepted-append :
      (raw : String) (ks : List Key) (r : Key)
      → accepted raw (ks ++ r ∷ []) ≡ (accepted raw ks || accepts key_hash raw r)
  unfolding accepted
  accepted-append raw [] r = ground arith
  accepted-append raw (k ∷ ks) r = ground (arith, accepted-append raw ks r)

  -- A key is accepted exactly if some key that is not revoked has its hash, and using it changes no
  -- name, hash or revocation.
  pub valid_iff :
      (raw : String) (now : ℕ) (s : Store)
      → ((valid key_hash raw now s).1 ≡ accepted raw s.keys)
        × (map essence (valid key_hash raw now s).0.keys ≡ map essence s.keys)
  unfolding valid
  valid_iff raw now s = elim (Option-cases (find_index (accepts key_hash raw) s.keys)) [
    | inl nothing ↦ ground (arith, nothing, found_iff raw s.keys)
    | inr (i, found) ↦
        ground (arith, found, found_iff raw s.keys, essence-update_at s.keys i (some now))
  ]

  valid-accepted :
      (raw : String) (now : ℕ) (s : Store) → (valid key_hash raw now s).1 ≡ accepted raw s.keys
  valid-accepted raw now s = (valid_iff raw now s).0

  -- Where the file can be written, a key that has just been made is accepted, and makes no other key accepted but one of its hash.
  pub create_accepted :
      (r : Key) (raw other : String) (now : ℕ) (s : Store)
      → r.hash ≡ key_hash raw
      → r.revoked ≡ false
      → ((valid key_hash raw now (create true r s).0).1 ≡ true)
        × ((valid key_hash other now (create true r s).0).1
            ≡ ((valid key_hash other now s).1 || str_eq (key_hash raw) (key_hash other)))
  unfolding create finish_create flush_now append_key
  create_accepted r raw other now s h n = ground (
    arith,
    valid-accepted raw now (create true r s).0,
    valid-accepted other now (create true r s).0,
    valid-accepted other now s,
    accepted-append raw s.keys r,
    accepted-append other s.keys r,
    eq_refl (key_hash raw),
    h,
    n,
  )

  -- A key is refused once the only record that can have its hash is revoked, where no other operation
  -- comes between the halves of the revocation.
  pub revoked_refused :
      (raw id : String) (now : ℕ) (s : Store)
      → only id (key_hash raw) s.keys ≡ true
      → (revoke true id s).1 ≡ changed
      → (valid key_hash raw now (revoke true id s).0).1 ≡ false
  unfolding revoke go_on_revoke begin_revoke finish_revoke flush_now
  revoked_refused raw id now s o r = elim (Option-cases (find_index (revocable id) s.keys)) [
    | inl nothing ↦ ground (arith, nothing)
    | inr (i, found) ↦
        valid-accepted raw now (revoke true id s).0
        ∙ rw (revoke, begin_revoke, found) (accepted-revoked raw id s.keys i o found)
  ]

  -- A key is refused once the only record that can have its hash is deleted, where no other operation
  -- comes between the halves of the deletion.
  pub deleted_refused :
      (raw id : String) (now : ℕ) (s : Store)
      → only id (key_hash raw) s.keys ≡ true
      → (delete true id s).1 ≡ changed
      → (valid key_hash raw now (delete true id s).0).1 ≡ false
  unfolding delete go_on_delete begin_delete finish_delete flush_now
  deleted_refused raw id now s o d = elim (Option-cases (find_index (named id) s.keys)) [
    | inl nothing ↦ ground (arith, nothing)
    | inr (i, found) ↦
        let (k, there, ok) = find_index-some (named id) s.keys i found in
        valid-accepted raw now (delete true id s).0
        ∙ rw (delete, begin_delete, found, there) (accepted-remove_at raw id s.keys i o found)
  ]

  migrate-raw : (k : Key) → str_eq (migrate key_hash k).raw "" ≡ true
  unfolding migrate
  migrate-raw k = elim (Bool-cases (str_eq k.raw "")) [
    | inl gone ↦ rw (migrate, gone) gone
    | inr plain ↦ elim (Bool-cases (str_eq k.hash "")) [
      | inl h ↦ rw (migrate, plain, h) refl
      | inr h ↦ rw (migrate, plain, h) refl
    ]
  ]

  migrated : (ks : List Key) → has_plain_text (map (migrate key_hash) ks) ≡ false
  migrated [] = refl
  migrated (k ∷ ks) = ground (arith, migrated ks, migrate-raw k)

  -- After the start no key keeps its plain text, whether or not the file can be written.
  pub open-plain_text :
      (ok : Bool) (ks : List Key) → has_plain_text (open_api_keys key_hash ok ks).keys ≡ false
  unfolding open_api_keys
  open-plain_text ok ks = ground (arith, migrated ks)
