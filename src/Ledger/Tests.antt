-- ===== src/Ledger/Tests.antt =====
-- Runs of the ledger, and instances of its theorems.
use m365_copilot2api_docker.Base.{
  ℕ, ◌≡◌, ◌≢◌, refl, String, Bool, true, false, none, some, List, [], ◌++◌, arith, eq_iff,
}
use m365_copilot2api_docker.Messages.{Message}
use m365_copilot2api_docker.Dict.{get, put, remove}
use m365_copilot2api_docker.Text.{trim, byte_len}
use m365_copilot2api_docker.Ledger.{
  build_ledger, can_continue, active_messages, results_pending, gather, add_calls, add_result,
  compact_tool_result, tally, note_call, note_result, count_up, signature, active_from,
}
use m365_copilot2api_docker.Ledger.Blank.{turn, blank_result_blocks}

abbrev fails : List ℕ → Bool
fails s = false

abbrev shape : List ℕ → String
shape s = ""

abbrev cut : List ℕ → List ℕ
cut s = s

abbrev twice : List Message
twice = turn "1" "ls" "a.txt" ++ turn "2" "ls" "a.txt"

repeats :
    ((build_ledger fails shape cut twice).repeated_call ≡ true)
    × (can_continue 2 (build_ledger fails shape cut (active_messages twice)) ≡ none)
unfolding build_ledger gather add_calls add_result compact_tool_result byte_len trim tally note_call
    note_result count_up signature active_messages active_from can_continue get put remove
repeats = (refl, refl)

no_text : trim " \n" ≡ []
unfolding trim
no_text = refl

named : let one : String = "1" in one ≢ ""
named same = absurd (ground (arith, eq_iff "1" ""))

blank_result_blocks_example :
    can_continue 32 (build_ledger fails shape cut (active_messages (turn "1" "mkdir" " \n")))
    ≡ some results_pending
blank_result_blocks_example =
    blank_result_blocks fails shape cut "1" "mkdir" " \n" 32 named no_text (omega arith)
