-- ===== src/Keys/Rollback.antt =====
-- A file that cannot be written undoes the change of a key (internal/web/keys.go), where no other
-- operation comes in between.
use m365_copilot2api_docker.Base.{
  ℕ, zero, suc, ◌≡◌, ◌≢◌, ◌∙◌, refl, String, Bool, true, false, Option, none, some, List, [], ◌∷◌,
  ◌++◌, arith, get_elem?, Option-cases, Bool-cases, inl, inr, ◌⊎◌, ap, leb, length,
}
use m365_copilot2api_docker.Keys.{
  Key, Store, flush_now, find_index, update_at, remove_at, insert_at, drop_last, append_key,
  finish_create, create, revocable, named, changed, revoke, delete, renamed, update, begin_revoke,
  finish_revoke, begin_delete, finish_delete, begin_update, finish_update, go_on_revoke,
  go_on_delete, go_on_update,
}

pub drop_last-append : (ks : List Key) (r : Key) → drop_last (ks ++ r ∷ []) ≡ ks
unfolding drop_last
drop_last-append [] r = refl
drop_last-append (k ∷ []) r = refl
drop_last-append (k ∷ l ∷ ks) r = ap (◌∷◌ k) (drop_last-append (l ∷ ks) r)

insert_at-remove_at :
    (i : ℕ) (ks : List Key) (k : Key)
    → get_elem? ks i ≡ some k
    → insert_at i k (remove_at i ks) ≡ ks
unfolding insert_at remove_at
insert_at-remove_at i [] k e = cc
insert_at-remove_at zero (x ∷ ks) k e = ground arith
insert_at-remove_at (suc i) (x ∷ ks) k e = ap (◌∷◌ x) (insert_at-remove_at i ks k e)

-- What find_index finds passes the test, and what stands before it does not.
pub find_index-some :
    (p : Key → Bool) (ks : List Key) (i : ℕ)
    → find_index p ks ≡ some i
    → (k : Key) × (get_elem? ks i ≡ some k) × (p k ≡ true)
unfolding find_index
find_index-some p [] i e = cc
find_index-some p (k ∷ ks) i e = elim (Bool-cases (p k)) [
  | inl here ↦ let first : 0 ≡ i = ground arith in rw (← first) (k, refl, here)
  | inr other ↦ elim (Option-cases (find_index p ks)) [
    | inl nothing ↦ ground (arith, nothing)
    | inr (j, found) ↦
        let (x, there, ok) = find_index-some p ks j found in
        let next : suc j ≡ i = ground (arith, found) in rw (← next) (x, there, ok)
  ]
]

-- A change that the test does not see leaves the place that is found.
find_index-update_at :
    (p : Key → Bool) (f : Key → Key) (ks : List Key) (i : ℕ)
    → ((k : Key) → p (f k) ≡ p k)
    → find_index p (update_at i f ks) ≡ find_index p ks
unfolding find_index update_at
find_index-update_at p f [] i h = refl
find_index-update_at p f (k ∷ ks) zero h = ground (arith, h k)
find_index-update_at p f (k ∷ ks) (suc i) h = ground (arith, find_index-update_at p f ks i h)

update_at-undone :
    (f g : Key → Key) (ks : List Key) (i : ℕ) (k : Key)
    → get_elem? ks i ≡ some k
    → g (f k) ≡ k
    → update_at i g (update_at i f ks) ≡ ks
unfolding update_at
update_at-undone f g [] i k e h = refl
update_at-undone f g (x ∷ ks) zero k e h = ground (arith, h)
update_at-undone f g (x ∷ ks) (suc i) k e h = ap (◌∷◌ x) (update_at-undone f g ks i k e h)

get-update_at :
    (f : Key → Key) (ks : List Key) (i : ℕ) (k : Key)
    → get_elem? ks i ≡ some k
    → get_elem? (update_at i f ks) i ≡ some (f k)
unfolding update_at
get-update_at f [] i k e = cc
get-update_at f (x ∷ ks) zero k e = ground arith
get-update_at f (x ∷ ks) (suc i) k e = get-update_at f ks i k e

remove_at-room :
    (ks : List Key) (i : ℕ) (k : Key)
    → get_elem? ks i ≡ some k
    → leb i (length (remove_at i ks)) ≡ true
unfolding remove_at
remove_at-room [] i k e = cc
remove_at-room (x ∷ ks) zero k e = ground arith
remove_at-room (x ∷ ks) (suc i) k e = ground (arith, remove_at-room ks i k e)

revoke-restores : (id : String) (s : Store) → (revoke false id s).0.keys ≡ s.keys
unfolding revoke go_on_revoke begin_revoke finish_revoke flush_now
revoke-restores id s = elim (Option-cases (find_index (revocable id) s.keys)) [
  | inl nothing ↦ rw (revoke, begin_revoke, nothing) refl
  | inr (i, found) ↦
      let (k, there, ok) = find_index-some (revocable id) s.keys i found in
      let plain : Path Key (record k { revoked = false }) k = ground arith in
      let again : get_elem? (update_at i (λ k. record k { revoked = true }) s.keys) i
          ≡ some (record k { revoked = true }) =
        get-update_at _ s.keys i k there in
      rw (revoke, begin_revoke, found)
        (rw (go_on_revoke, finish_revoke, again) (update_at-undone _ _ s.keys i k there plain))
]

delete-restores : (id : String) (s : Store) → (delete false id s).0.keys ≡ s.keys
unfolding delete go_on_delete begin_delete finish_delete flush_now
delete-restores id s = elim (Option-cases (find_index (named id) s.keys)) [
  | inl nothing ↦ rw (delete, begin_delete, nothing) refl
  | inr (i, found) ↦
      let (k, there, ok) = find_index-some (named id) s.keys i found in
      rw (delete, begin_delete, found, there)
        (rw (remove_at-room s.keys i k there) (insert_at-remove_at i s.keys k there))
]

update-restores :
    (id name : String) (revoked : Option Bool) (s : Store)
    → (update false id name revoked s).0.keys ≡ s.keys
unfolding update go_on_update begin_update finish_update flush_now
update-restores id name revoked s = elim (Option-cases (find_index (named id) s.keys)) [
  | inl nothing ↦ rw (update, begin_update, nothing) refl
  | inr (i, found) ↦
      let (k, there, ok) = find_index-some (named id) s.keys i found in
      let again : find_index (named id) (update_at i (renamed name revoked) s.keys) ≡ some i =
        find_index-update_at (named id) (renamed name revoked) s.keys i (λ x. refl) ∙ found in
      rw (update, begin_update, found, there)
        (rw (go_on_update, finish_update, again) (update_at-undone _ _ s.keys i k there refl))
]

-- Where the file cannot be written and no other operation comes between the halves, creating,
-- revoking, deleting and changing a key leave the keys in memory as they were.
pub failed_write_restores :
    (r : Key) (id name : String) (revoked : Option Bool) (s : Store)
    → ((create false r s).0.keys ≡ s.keys)
      × ((revoke false id s).0.keys ≡ s.keys)
      × ((delete false id s).0.keys ≡ s.keys)
      × ((update false id name revoked s).0.keys ≡ s.keys)
unfolding create finish_create append_key flush_now
failed_write_restores r id name revoked s = (
  drop_last-append s.keys r,
  revoke-restores id s,
  delete-restores id s,
  update-restores id name revoked s,
)

revoke_written :
    (ok : Bool) (id : String) (s : Store)
    → ((revoke ok id s).1 ≢ changed) ⊎ ((revoke ok id s).0.disk ≡ (revoke ok id s).0.keys)
unfolding revoke go_on_revoke begin_revoke finish_revoke flush_now
revoke_written ok id s = ground arith

delete_written :
    (ok : Bool) (id : String) (s : Store)
    → ((delete ok id s).1 ≢ changed) ⊎ ((delete ok id s).0.disk ≡ (delete ok id s).0.keys)
unfolding delete go_on_delete begin_delete finish_delete flush_now
delete_written ok id s = ground arith

update_written :
    (ok : Bool) (id name : String) (revoked : Option Bool) (s : Store)
    → ((update ok id name revoked s).1 ≢ changed)
      ⊎ ((update ok id name revoked s).0.disk ≡ (update ok id name revoked s).0.keys)
unfolding update go_on_update begin_update finish_update flush_now
update_written ok id name revoked s = ground arith

-- An operation that reports its change has written it.
pub success_written :
    (ok : Bool) (r : Key) (id name : String) (revoked : Option Bool) (s : Store)
    → (((create ok r s).1 ≡ none) ⊎ ((create ok r s).0.disk ≡ (create ok r s).0.keys))
      × (((revoke ok id s).1 ≢ changed) ⊎ ((revoke ok id s).0.disk ≡ (revoke ok id s).0.keys))
      × (((delete ok id s).1 ≢ changed) ⊎ ((delete ok id s).0.disk ≡ (delete ok id s).0.keys))
      × (((update ok id name revoked s).1 ≢ changed)
          ⊎ ((update ok id name revoked s).0.disk ≡ (update ok id name revoked s).0.keys))
unfolding create finish_create append_key flush_now
success_written true r id name revoked s = (
  inr refl,
  revoke_written true id s,
  delete_written true id s,
  update_written true id name revoked s,
)
success_written false r id name revoked s = (
  inl refl,
  revoke_written false id s,
  delete_written false id s,
  update_written false id name revoked s,
)
