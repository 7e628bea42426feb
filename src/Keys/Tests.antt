-- ===== src/Keys/Tests.antt =====
-- Runs of the API keys, and instances of their theorems.
use m365_copilot2api_docker.Base.{
  ◌≡◌, refl, String, true, false, none, some, [], ◌∷◌, ◌++◌, ◌≢◌, eq_iff, arith,
}
use m365_copilot2api_docker.Keys.{
  Key, Store, create, revoke, delete, update, changed, valid, shown, find_index, begin_revoke,
  finish_revoke, go_on_revoke, not_written,
}
use m365_copilot2api_docker.Keys.Rollback.{failed_write_restores}
use m365_copilot2api_docker.Keys.Interleaving.{
  second_created, first_refused, wrong_key_dropped, between, taken_back, wrong_key_revived,
}
use m365_copilot2api_docker.Keys.Validity.{only, lacks, revoked_refused}

abbrev key : String → String → Key
key id hash = record {
  id = id;
  name = "laptop";
  prefix = "m365_0";
  hash = hash;
  raw = "";
  created_at = 3;
  last_used_at = none;
  revoked = false;
}

abbrev tagged : String → String
tagged raw = raw

abbrev one : Store
one = record { keys = key "1" "x" ∷ []; dirty = false; disk = key "1" "x" ∷ [] }

revokes : (revoke true "1" one).1 ≡ changed
unfolding revoke go_on_revoke begin_revoke find_index finish_revoke
revokes = refl

sole : only "1" "x" (key "1" "x" ∷ []) ≡ true
unfolding only lacks
sole = refl

failed_write_restores_example :
    ((create false (key "2" "y") one).0.keys ≡ one.keys)
    × ((revoke false "1" one).0.keys ≡ one.keys)
    × ((delete false "1" one).0.keys ≡ one.keys)
    × ((update false "1" "desk" (some true) one).0.keys ≡ one.keys)
failed_write_restores_example = failed_write_restores (key "2" "y") "1" "desk" (some true) one

wrong_key_dropped_example :
    ((second_created (key "2" "y") (key "3" "z") one).1 ≡ some (shown (key "3" "z")))
    × ((first_refused (key "2" "y") (key "3" "z") one).1 ≡ none)
    × ((first_refused (key "2" "y") (key "3" "z") one).0.keys ≡ one.keys ++ key "2" "y" ∷ [])
wrong_key_dropped_example = wrong_key_dropped (key "2" "y") (key "3" "z") one

abbrev third : Key
third = record (key "3" "z") { revoked = true }

apart : ◌≢◌ {A = String} "1" "2"
apart same = absurd (ground (arith, eq_iff "1" "2"))

wrong_key_revived_example :
    ((begin_revoke "2" (record one { keys = key "1" "x" ∷ key "2" "y" ∷ third ∷ [] })).1 ≡ some 1)
    × ((between (key "1" "x") (key "2" "y") third [] one).1 ≡ changed)
    × ((taken_back (key "1" "x") (key "2" "y") third [] one).1 ≡ not_written)
    × ((taken_back (key "1" "x") (key "2" "y") third [] one).0.keys
        ≡ record (key "2" "y") { revoked = true } ∷ key "3" "z" ∷ [])
wrong_key_revived_example = wrong_key_revived (key "1" "x") (key "2" "y") third [] one apart refl

revoked_refused_example : (valid tagged "x" 9 (revoke true "1" one).0).1 ≡ false
revoked_refused_example = revoked_refused tagged "x" "1" 9 one sole revokes
