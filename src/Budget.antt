-- ===== src/Budget.antt =====
-- The context budget (internal/web/context_budget.go): messages grouped into atoms, and the window
-- that fits a number of tokens. Token estimates are those of internal/web/codex_usage.go.
pub mod Grouping
pub mod Fit
pub mod Kept
mod Tests
use m365_copilot2api_docker.Base.{
  ℕ, zero, suc, ◌+◌, ◌-◌, ◌/◌, String, Bool, true, false, Option, none, some, List, [], ◌∷◌, ◌++◌,
  ◌&&◌, ◌||◌, not, ltb, leb, ◌==◌, length, str_eq, if◌then◌else◌,
}
use m365_copilot2api_docker.Text.{codes, is_space, is_word}
use m365_copilot2api_docker.Messages.{Message, Call}

-- The counts of heuristicTokenCount: ASCII characters and others, without spaces.
count_chars : List ℕ → ℕ × ℕ
count_chars [] = (0, 0)
count_chars (c ∷ s) =
    let (ascii, other) = count_chars s in
    if is_space c
    then (ascii, other)
    else if leb c 0x7f
    then (ascii + 1, other)
    else (ascii, other + 1)

-- heuristicTokenCount
unfoldable pub heuristic_token_count : String → ℕ
unfolding count_chars
heuristic_token_count text =
    let (ascii, other) = count_chars (codes text) in
    if ascii == 0 && other == 0 then 0 else (ascii + 3) / 4 + other

-- atomKind; an anchor is the first user atom.
pub data Kind : Type 0 where
  system user tool assist anchor : Kind

-- contextAtom, whose Start and End nothing reads.
pub record Atom : Type 0 where
  pub kind : Kind
  pub msgs : List Message
  pub tokens : ℕ

pub data Result : Type 0 where
  window : List Message → Bool → Result
  -- context_length_exceeded, with the pinned tokens
  exceeded : ℕ → Result

abbrev pub message_protocol_tokens : ℕ
message_protocol_tokens = 4

-- requestProtocolTokens + replyPrimingTokens
abbrev pub frame_tokens : ℕ
frame_tokens = 4 + 3

unfoldable pub is_system : Message → Bool
is_system m = is_word m.role "system" || is_word m.role "developer"

unfoldable pub is_tool : Message → Bool
is_tool m = is_word m.role "tool"

-- The messages up to the first that fails a test, and the rest.
unfoldable pub split_while : (Message → Bool) → List Message → List Message × List Message
split_while p [] = ([], [])
split_while p (m ∷ ms) =
    let (run, rest) = split_while p ms in if p m then (m ∷ run, rest) else ([], m ∷ ms)

abbrev pub has_calls : Message → Bool
has_calls m = not (length m.tool_calls == 0)

-- `content_text` and `call_text` are what `serializedTokenCount` hands to the counter: the text
-- itself, or the JSON of the value.
module _ (content_text : Message → String) (call_text : Call → String) where
  call_tokens : List Call → ℕ
  call_tokens [] = 0
  call_tokens (c ∷ cs) = heuristic_token_count (call_text c) + call_tokens cs

  -- estimateMessageTokens, with the heuristic counter
  unfoldable pub estimate : Message → ℕ
  unfolding call_tokens
  estimate m =
      let tokens =
        message_protocol_tokens
        + heuristic_token_count m.role
        + heuristic_token_count m.name
        + heuristic_token_count m.tool_call_id
        + heuristic_token_count (content_text m)
        + call_tokens m.tool_calls in
      if ltb tokens 1 then 1 else tokens

  pub total_of : List Message → ℕ
  total_of [] = 0
  total_of (m ∷ ms) = estimate m + total_of ms

  unfoldable pub atom : Kind → List Message → Atom
  atom k ms = record { kind = k; msgs = ms; tokens = total_of ms }

  -- The outer loop of buildAtomsWithCounter; the number bounds its rounds.
  unfoldable pub group : ℕ → List Message → List Atom
  group zero ms = []
  group (suc f) [] = []
  group (suc f) (m ∷ ms) =
      let run_system = split_while is_system ms in
      let run_tool = split_while is_tool ms in
      let after_system = group f run_system.1 in
      let after_tool = group f run_tool.1 in
      let after_one = group f ms in
      if is_system m
      then atom system (m ∷ run_system.0) ∷ after_system
      else if (is_word m.role "assistant" && has_calls m) || is_tool m
      then atom tool (m ∷ run_tool.0) ∷ after_tool
      else if is_word m.role "user"
      then atom user (m ∷ []) ∷ after_one
      else if is_word m.role "assistant"
      then atom assist (m ∷ []) ∷ after_one
      else atom user (m ∷ []) ∷ after_one

-- The last loop of buildAtomsWithCounter.
unfoldable pub mark_anchor : List Atom → List Atom
mark_anchor [] = []
mark_anchor (a ∷ rest) = elim a.kind [
  | user ↦ record a { kind = anchor } ∷ rest
  | _ ↦ a ∷ mark_anchor rest
]

abbrev pub kind_is_system : Kind → Bool
kind_is_system system = true
kind_is_system _ = false

abbrev pub kind_is_tool : Kind → Bool
kind_is_tool tool = true
kind_is_tool _ = false

abbrev pub kind_is_anchor : Kind → Bool
kind_is_anchor anchor = true
kind_is_anchor _ = false

-- An atom beside the answer whether it is pinned, later whether it is selected.
abbrev pub Marked : Type 0
Marked = Atom × Bool

-- p0Indices, p1Indices and anchorIdx: the system atoms, the tool atoms at the end, and the first
-- anchor. `seen` says that an anchor stands before; the second answer, that all atoms are tool atoms.
pub pin : Bool → List Atom → List Marked × Bool
pin seen [] = ([], true)
pin seen (a ∷ rest) =
    let is_anchor = kind_is_anchor a.kind && not seen in
    let (marked, tools) = pin (seen || is_anchor) rest in
    let tail = tools && kind_is_tool a.kind in
    ((a, kind_is_system a.kind || tail || is_anchor) ∷ marked, tail)

-- The tokens of the atoms that are marked.
pub marked_tokens : List Marked → ℕ
marked_tokens [] = 0
marked_tokens ((a, true) ∷ rest) = a.tokens + marked_tokens rest
marked_tokens ((a, false) ∷ rest) = marked_tokens rest

pub all_tokens : List Atom → ℕ
all_tokens [] = 0
all_tokens (a ∷ rest) = a.tokens + all_tokens rest

-- The loop that selects from the end what still fits.
pub fill : List Marked → ℕ → List Marked × ℕ
fill [] remaining = ([], remaining)
fill ((a, pinned) ∷ rest) remaining =
    let (chosen, left) = fill rest remaining in
    if pinned
    then ((a, true) ∷ chosen, left)
    else if leb a.tokens left
    then ((a, true) ∷ chosen, left - a.tokens)
    else ((a, false) ∷ chosen, left)

pub chosen_messages : List Marked → List Message
chosen_messages [] = []
chosen_messages ((a, true) ∷ rest) = a.msgs ++ chosen_messages rest
chosen_messages ((a, false) ∷ rest) = chosen_messages rest

all_chosen : List Marked → Bool
all_chosen [] = true
all_chosen ((a, b) ∷ rest) = b && all_chosen rest

pub last_messages : List Atom → List Message
last_messages [] = []
last_messages (a ∷ []) = a.msgs
last_messages (a ∷ b ∷ rest) = last_messages (b ∷ rest)

-- The end of slidingWindow: the messages of the selected atoms, or else of the last atom.
pub assemble : List Atom → List Marked → Result
assemble atoms chosen = elim (chosen_messages chosen) [
  | [] ↦ window (last_messages atoms) true
  | m ∷ ms ↦ window (m ∷ ms) (not (all_chosen chosen))
]

-- slidingWindow without the grouping: the pinned atoms must fit, and the rest is filled up.
pub choose : List Atom → ℕ → Result
choose atoms budget =
    let pinned = (pin false atoms).0 in
    let need = frame_tokens + marked_tokens pinned in
    if ltb budget need then exceeded need else assemble atoms (fill pinned (budget - need)).0

-- slidingWindow after the grouping: what fits as a whole is kept.
pub shorten : List Message → List Atom → ℕ → Result
shorten ms [] budget = window ms false
shorten ms (a ∷ rest) budget =
    if leb (all_tokens (a ∷ rest) + frame_tokens) budget
    then window ms false
    else choose (a ∷ rest) budget

module _ (content_text : Message → String) (call_text : Call → String) where
  -- buildAtomsFast; a round takes at least one message, so as many rounds as messages are enough.
  unfoldable pub build_atoms : List Message → List Atom
  build_atoms ms = mark_anchor (group content_text call_text (length ms) ms)

  -- slidingWindow; 0 stands for every budget that is not positive.
  unfoldable pub sliding_window : List Message → ℕ → Result
  sliding_window ms budget = shorten ms (build_atoms ms) (if budget == 0 then 1024 else budget)
