-- ===== src/ToolProtocol.antt =====
-- The tool protocol of a conversation (validateToolConversation, internal/web/tool_state.go). A Go
-- set `map[string]bool` is a list without repetition.
pub mod Answers
pub mod Tests
use m365_copilot2api_docker.Base.{
  String, Bool, true, false, List, [], ◌∷◌, ◌||◌, not, str_eq, if◌then◌else◌,
}
use m365_copilot2api_docker.Messages.{Message, Call}

pub data Error : Type 0 where
  bad_first_role : String → Error
  results_missing missing_call_id missing_result_id : Error
  duplicate_call unexpected_result unanswered : String → Error

-- A Go function that returns a value and an error.
pub data Checked (V : Type 0) : Type 0 where
  passed : V → Checked V
  broken : Error → Checked V

infixl 5 ◌>>=◌
-- The next check runs where this one passes.
abbrev pub ◌>>=◌ : {V W : Type 0} → Checked V → (V → Checked W) → Checked W
passed v >>= next = next v
broken why >>= next = broken why

abbrev pub member : String → List String → Bool
member x [] = false
member x (y ∷ ys) = str_eq y x || member x ys

-- delete(set, x)
unfoldable pub without : String → List String → List String
without x [] = []
without x (y ∷ ys) = let rest = without x ys in if str_eq y x then rest else y ∷ rest

pub record Progress : Type 0 where
  pub pending : List String
  pub completed : List String

-- The loop over the calls of an assistant message.
pub add_calls : List Call → Progress → Checked Progress
add_calls [] p = passed p
add_calls (c ∷ cs) p =
    let rest = add_calls cs (record p { pending = c.id ∷ p.pending }) in
    if str_eq c.id ""
    then broken missing_call_id
    else if member c.id p.pending || member c.id p.completed
    then broken (duplicate_call c.id)
    else rest

answer : String → Progress → Checked Progress
answer id p =
    if str_eq id ""
    then broken missing_result_id
    else if not (member id p.pending)
    then broken (unexpected_result id)
    else passed (record { pending = without id p.pending; completed = id ∷ without id p.completed })

abbrev pub is_empty {ℓ} : {A : Type ℓ} → List A → Bool
is_empty [] = true
is_empty (x ∷ xs) = false

-- One round of the loop over the messages.
pub advance : Message → Progress → Checked Progress
advance m p =
    if str_eq m.role "assistant"
    then (if is_empty p.pending then add_calls m.tool_calls p else broken results_missing)
    else if str_eq m.role "tool"
    then answer m.tool_call_id p
    else passed p

pub advance_all : List Message → Progress → Checked Progress
advance_all [] p = passed p
advance_all (m ∷ ms) p = do q ← advance m p; advance_all ms q

check_first : List Message → Checked (Unit {0})
check_first [] = passed tt
check_first (m ∷ ms) =
    if str_eq m.role "system"
      || str_eq m.role "developer"
      || str_eq m.role "user"
      || str_eq m.role "assistant"
    then passed tt
    else broken (bad_first_role m.role)

-- The loop over what is still pending, which returns in its first round.
all_answered : List String → Checked (Unit {0})
all_answered [] = passed tt
all_answered (id ∷ ids) = broken (unanswered id)

-- validateToolConversation
unfoldable pub validate : List Message → Checked (Unit {0})
unfolding check_first all_answered
validate ms = do
  first ← check_first ms
  p ← advance_all ms (record { pending = []; completed = [] })
  all_answered p.pending
