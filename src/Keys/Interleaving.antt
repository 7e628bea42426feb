-- ===== src/Keys/Interleaving.antt =====
-- Operations on the keys at the same time (create, revoke and delete, internal/web/keys.go): the lock
-- is free while the file is written.
use m365_copilot2api_docker.Base.{
  ◌≡◌, refl, true, false, Option, none, some, [], ◌∷◌, ◌++◌, List, ◌≢◌, str_eq, eq_iff, eq_refl,
  arith, ap, ◌∙◌,
}
use m365_copilot2api_docker.Keys.{
  Key, Store, flush_now, append_key, finish_create, shown, Answer, begin_revoke, finish_revoke,
  delete, begin_delete, go_on_delete, finish_delete, find_index, update_at, remove_at, changed,
  not_written, revocable, named,
}
use m365_copilot2api_docker.Keys.Rollback.{drop_last-append}

-- Both keys are added; then `b` is written and answered.
abbrev pub second_created : Key → Key → Store → Store × Option Key
second_created a b s = finish_create true b (flush_now true (append_key (append_key s a) b))

-- Then the file cannot be written for `a`.
abbrev pub first_refused : Key → Key → Store → Store × Option Key
first_refused a b s = finish_create false a (flush_now false (second_created a b s).0)

-- Where two keys are created at once and the write for the first one fails after that for the
-- second, the second, which was answered, is dropped and the first, which was refused, stays.
pub wrong_key_dropped :
    (a b : Key) (s : Store)
    → ((second_created a b s).1 ≡ some (shown b))
      × ((first_refused a b s).1 ≡ none)
      × ((first_refused a b s).0.keys ≡ s.keys ++ a ∷ [])
unfolding flush_now append_key finish_create
wrong_key_dropped a b s = (refl, refl, drop_last-append (s.keys ++ a ∷ []) b)

-- Of the keys `a`, `b`, `c` and others, the key `b` is marked as revoked; before that is written, `a`
-- is deleted.
abbrev pub between : Key → Key → Key → List Key → Store → Store × Answer
between a b c others s =
    delete true a.id (begin_revoke b.id (record s { keys = a ∷ b ∷ c ∷ others })).0

-- Then the file cannot be written for the revocation, which noted the index 1.
abbrev pub taken_back : Key → Key → Key → List Key → Store → Store × Answer
taken_back a b c others s = finish_revoke false 1 (flush_now false (between a b c others s).0)

revoke_begun :
    (a b c : Key) (others : List Key) (s : Store)
    → a.id ≢ b.id
    → b.revoked ≡ false
    → begin_revoke b.id (record s { keys = a ∷ b ∷ c ∷ others })
      ≡ (record s { keys = a ∷ record b { revoked = true } ∷ c ∷ others }, some 1)
unfolding begin_revoke find_index update_at
revoke_begun a b c others s other valid =
    let away : str_eq a.id b.id ≡ false = ground (arith, other, eq_iff a.id b.id) in
    let found : find_index (revocable b.id) (a ∷ b ∷ c ∷ others) ≡ some 1 =
      rw away (rw (eq_refl b.id) (rw valid refl)) in
    rw (begin_revoke, found) refl

delete_first :
    (a : Key) (others : List Key) (s : Store)
    → delete true a.id (record s { keys = a ∷ others })
      ≡ (flush_now true (record s { keys = others }), changed)
unfolding delete begin_delete go_on_delete finish_delete find_index remove_at
delete_first a others s =
    let found : find_index (named a.id) (a ∷ others) ≡ some 0 = rw (eq_refl a.id) refl in
    rw (delete, begin_delete, found) refl

-- Where the first key is deleted while the second one, of another id and not revoked before, is being
-- revoked, and the write for the revocation fails after that: the second key stays revoked although
-- this is reported as not done, and the third one is not revoked any more if it was.
pub wrong_key_revived :
    (a b c : Key) (others : List Key) (s : Store)
    → a.id ≢ b.id
    → b.revoked ≡ false
    → ((begin_revoke b.id (record s { keys = a ∷ b ∷ c ∷ others })).1 ≡ some 1)
      × ((between a b c others s).1 ≡ changed)
      × ((taken_back a b c others s).1 ≡ not_written)
      × ((taken_back a b c others s).0.keys
          ≡ record b { revoked = true } ∷ record c { revoked = false } ∷ others)
unfolding flush_now finish_revoke update_at
wrong_key_revived a b c others s other valid =
    let begun = revoke_begun a b c others s other valid in
    let done : between a b c others s
        ≡ (flush_now true (record s { keys = record b { revoked = true } ∷ c ∷ others }), changed) =
      ap (λ x. delete true a.id x.0) begun
      ∙ delete_first a (record b { revoked = true } ∷ c ∷ others) s in
    (
      ap (λ x. x.1) begun,
      ap (λ x. x.1) done,
      ap (λ x. (finish_revoke false 1 (flush_now false x.0)).1) done,
      ap (λ x. (finish_revoke false 1 (flush_now false x.0)).0.keys) done,
    )
