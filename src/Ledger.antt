-- ===== src/Ledger.antt =====
-- The ledger of tool calls that a conversation holds (internal/web/agent_ledger.go). Results are
-- lists of code points.
pub mod Counts
pub mod Blank
mod Tests
use Prim.Native.String.{◌++◌ as join}
use m365_copilot2api_docker.Base.{
  ℕ, zero, suc, ◌+◌, String, Bool, true, false, Option, none, some, List, [], ◌∷◌, ◌++◌, ◌||◌, not,
  ltb, leb, ◌==◌, str_eq, if◌then◌else◌, or_zero, length,
}
use m365_copilot2api_docker.Dict.{Dict, get, put}
use m365_copilot2api_docker.Messages.{Message, Call}
use m365_copilot2api_docker.Text.{trim, byte_len}

-- toolEvidence
pub record Evidence : Type 0 where
  pub id : String
  pub name : String
  pub arguments : String
  pub result : List ℕ
  pub failed : Bool

-- agentLedger, without the metering that is added to it later.
pub record Ledger : Type 0 where
  pub completed : List Evidence
  pub pending : List Evidence
  pub tool_rounds : ℕ
  pub repeated_call : Bool
  pub repeated_failure : Bool
  pub repetition_signature : String
  pub stuck_loop : Bool

abbrev pub blank : List ℕ → Bool
blank [] = true
blank (c ∷ s) = false

-- The calls by their ids, and the ids in the order of their appearance.
abbrev pub Gathered : Type 0
Gathered = Dict Evidence × List String

-- The loop over the calls of an assistant message.
pub add_calls : List Call → Gathered → Gathered
add_calls [] g = g
add_calls (c ∷ cs) (calls, order) =
    let e : Evidence = record {
      id = c.id;
      name = c.name;
      arguments = c.arguments;
      result = [];
      failed = false;
    } in
    add_calls cs (if str_eq c.id "" then (calls, order) else (put calls c.id e, order ++ c.id ∷ []))

-- e.Name + "\x00" + e.Arguments
pub signature : Evidence → String
signature e = join e.name (join "\0" e.arguments)

-- The second loop, with the counts of seenCall and seenFailure.
pub record Tally : Type 0 where
  pub ledger : Ledger
  pub seen_call : Dict ℕ
  pub seen_failure : Dict ℕ

abbrev pub empty_ledger : Ledger
empty_ledger = record {
  completed = [];
  pending = [];
  tool_rounds = 0;
  repeated_call = false;
  repeated_failure = false;
  repetition_signature = "";
  stuck_loop = false;
}

abbrev pub empty_tally : Tally
empty_tally = record { ledger = empty_ledger; seen_call = []; seen_failure = [] }

-- seen[sig]++
pub count_up : String → Dict ℕ → Dict ℕ × ℕ
count_up sig seen = let n = or_zero 0 (get seen sig) + 1 in (put seen sig n, n)

-- What each call adds.
pub note_call : Evidence → Tally → Tally
note_call e t =
    let sig = signature e in
    let (seen, n) = count_up sig t.seen_call in
    let l = t.ledger in
    record t {
      seen_call = seen;
      ledger = record l {
        tool_rounds = l.tool_rounds + 1;
        repeated_call = if leb 2 n then true else l.repeated_call;
        repetition_signature = if leb 2 n then sig else l.repetition_signature;
        stuck_loop = if leb 3 n then true else l.stuck_loop;
      };
    }

-- `failureSignal` and `normalizeFailure` are regular expressions; `truncate` is what
-- compactToolResult makes of a text of more than the limit of 4000 bytes, which it cuts between bytes.
module _ (is_failure : List ℕ → Bool) (normalize : List ℕ → String)
    (truncate : List ℕ → List ℕ) where
  -- compactToolResult
  pub compact_tool_result : String → List ℕ
  compact_tool_result text = let s = trim text in if leb (byte_len s) 4000 then s else truncate s

  -- A message of the role `tool`.
  pub add_result : Message → Gathered → Gathered
  add_result m (calls, order) = elim (get calls m.tool_call_id) [
    | none ↦ (calls, order)
    | some e ↦
        let result = compact_tool_result m.content in
        (put calls m.tool_call_id (record e { result = result; failed = is_failure result }), order)
  ]

  -- The first loop of buildAgentLedger.
  pub gather : List Message → Gathered → Gathered
  gather [] g = g
  gather (m ∷ ms) g =
      let g1 = if str_eq m.role "assistant" then add_calls m.tool_calls g else g in
      gather ms (if str_eq m.role "tool" then add_result m g1 else g1)

  -- What a call without a result, or with one, adds.
  pub note_result : Evidence → Tally → Tally
  note_result e t =
      let l = t.ledger in
      let kept : Tally = record t { ledger = record l { completed = l.completed ++ e ∷ [] } } in
      let fs = join (signature e) (join "\0" (normalize e.result)) in
      let (seen, n) = count_up fs t.seen_failure in
      if blank e.result
      then record t { ledger = record l { pending = l.pending ++ e ∷ [] } }
      else if e.failed
      then record kept {
        seen_failure = seen;
        ledger = record l {
          completed = l.completed ++ e ∷ [];
          repeated_failure = if leb 2 n then true else l.repeated_failure;
          repetition_signature = if leb 2 n then fs else l.repetition_signature;
          stuck_loop = if leb 3 n then true else l.stuck_loop;
        };
      }
      else kept

  -- calls[id], where the map has every id of the order.
  abbrev pub of_id : Dict Evidence → String → Evidence
  of_id calls id = elim (get calls id) [
    | none ↦ record { id = ""; name = ""; arguments = ""; result = []; failed = false }
    | some e ↦ e
  ]

  pub tally : Dict Evidence → List String → Tally → Tally
  tally calls [] t = t
  tally calls (id ∷ ids) t =
      let e = of_id calls id in tally calls ids (note_result e (note_call e t))

  -- buildAgentLedger
  pub build_ledger : List Message → Ledger
  build_ledger ms =
      let (calls, order) = gather ms ([], []) in (tally calls order empty_tally).ledger

-- What CanContinue reports.
pub data Stop : Type 0 where
  round_limit : ℕ → Stop
  stuck : Stop
  repeated : String → Stop
  results_pending : Stop

-- CanContinue; 0 stands for every limit that is not positive.
pub can_continue : ℕ → Ledger → Option Stop
can_continue max_rounds l =
    let limit = if max_rounds == 0 then 32 else max_rounds in
    if leb limit l.tool_rounds
    then some (round_limit limit)
    else if l.stuck_loop
    then some stuck
    else if l.repeated_failure
    then some (repeated l.repetition_signature)
    else if not (length l.pending == 0)
    then some results_pending
    else none

-- activeMessages: from the last message of the user on.
pub active_from : List Message → Option (List Message)
active_from [] = none
active_from (m ∷ ms) = elim (active_from ms) [
  | some rest ↦ some rest
  | none ↦ if str_eq m.role "user" then some (m ∷ ms) else none
]

pub active_messages : List Message → List Message
active_messages ms = elim (active_from ms) [ none ↦ ms | some rest ↦ rest ]
