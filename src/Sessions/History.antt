-- ===== src/Sessions/History.antt =====
-- The part of a conversation that a session remembers (cloneMessages,
-- internal/web/session_resolver.go).
use m365_copilot2api_docker.Base.{
  ℕ, ◌+◌, ◌-◌, String, Bool, true, false, List, [], ◌∷◌, ltb, leb, ◌==◌, if◌then◌else◌, length,
  drop,
}
use m365_copilot2api_docker.Messages.{Message, Call}
use m365_copilot2api_docker.Budget.{Atom, build_atoms}

abbrev pub max_history : ℕ
max_history = 512

-- The loop from the last atom on: whether it has stopped, the messages counted and where they start.
pub record Cut : Type 0 where
  pub stopped : Bool
  pub count : ℕ
  pub start : ℕ

unfoldable pub cut_from : ℕ → List Atom → Cut
cut_from begin [] = record { stopped = false; count = 0; start = begin }
cut_from begin (a ∷ rest) =
    let later = cut_from (begin + length a.msgs) rest in
    if later.stopped
    then later
    else if ltb max_history (later.count + length a.msgs)
    then record later { stopped = true }
    else record { stopped = false; count = later.count + length a.msgs; start = begin }

-- atoms[len(atoms)-1].Start
unfoldable pub last_start : ℕ → List Atom → ℕ
last_start begin [] = begin
last_start begin (a ∷ []) = begin
last_start begin (a ∷ b ∷ rest) = last_start (begin + length a.msgs) (b ∷ rest)

-- The start of the messages that are kept; `size` is their number.
unfoldable pub start_of : ℕ → List Atom → ℕ
start_of size [] = size - max_history
start_of size (a ∷ rest) =
    let cut = cut_from 0 (a ∷ rest) in if cut.count == 0 then last_start 0 (a ∷ rest) else cut.start

module _ (content_text : Message → String) (call_text : Call → String) where
  -- cloneMessages
  unfoldable pub clone_messages : List Message → List Message
  clone_messages ms =
      if leb (length ms) max_history
      then ms
      else drop (start_of (length ms) (build_atoms content_text call_text ms)) ms
