-- ===== src/ToolProtocol/Answers.antt =====
-- What an accepted conversation looks like, counted without the sets of the code.
use m365_copilot2api_docker.Base.{
  ℕ, ◌+◌, ◌≤◌, ◌≡◌, refl, String, Bool, false, List, [], ◌∷◌, ◌++◌, arith, str_eq, eq_iff,
  if◌then◌else◌,
}
use m365_copilot2api_docker.Messages.{Message, Call}
use m365_copilot2api_docker.ToolProtocol.{
  Checked, passed, broken, member, without, Progress, add_calls, answer, advance, advance_all,
  validate, check_first, ◌>>=◌,
}

passed-after :
    {V W : Type 0} (x : Checked V) (next : V → Checked W) {w : W}
    → x >>= next ≡ passed w
    → (v : V) × (x ≡ passed v) × (next v ≡ passed w)
passed-after (passed v) next e = (v, refl, e)
passed-after (broken why) next e = cc

abbrev one : Bool → ℕ
one b = if b then 1 else 0

-- How often assistant messages make a call with this id.
abbrev pub calls_of : String → List Call → ℕ
calls_of id [] = 0
calls_of id (c ∷ cs) = one (str_eq c.id id) + calls_of id cs

abbrev pub calls_with : String → List Message → ℕ
calls_with id [] = 0
calls_with id (m ∷ ms) =
    (if str_eq m.role "assistant" then calls_of id m.tool_calls else 0) + calls_with id ms

-- How often tool messages answer this id.
abbrev pub results_with : String → List Message → ℕ
results_with id [] = 0
results_with id (m ∷ ms) =
    (if str_eq m.role "tool" then one (str_eq m.tool_call_id id) else 0) + results_with id ms

abbrev held : String → Progress → ℕ
held id p = one (member id p.pending)

abbrev seen : String → Progress → ℕ
seen id p = one (member id p.pending) + one (member id p.completed)

member-without :
    (x y : String) (l : List String)
    → member x (without y l) ≡ (if str_eq y x then false else member x l)
unfolding without
member-without x y [] = ground arith
member-without x y (z ∷ l) =
    ground (arith, member-without x y l, eq_iff z y, eq_iff z x, eq_iff y x)

-- What a round may do to one id: `c` calls and `r` results of it.
record Moves (id : String) (p q : Progress) (c r : ℕ) : Type 0 where
  balance : held id p + c ≡ held id q + r
  history : seen id q ≡ seen id p + c
  fresh : seen id q ≤ 1

add_calls-Moves :
    (id : String) (cs : List Call) (p q : Progress)
    → seen id p ≤ 1
    → add_calls cs p ≡ passed q
    → Moves id p q (calls_of id cs) 0
unfolding add_calls
add_calls-Moves id [] p q s e = ground arith
add_calls-Moves id (c ∷ cs) p q s e =
    ground
      (arith, add_calls-Moves id cs (record p { pending = c.id ∷ p.pending }) q, eq_iff c.id id)

answer-Moves :
    (id a : String) (p q : Progress)
    → seen id p ≤ 1
    → answer a p ≡ passed q
    → Moves id p q 0 (one (str_eq a id))
unfolding answer
answer-Moves id a p q s e =
    ground (arith, member-without id a p.pending, member-without id a p.completed, eq_iff a id)

advance-Moves :
    (id : String) (m : Message) (p q : Progress)
    → seen id p ≤ 1
    → advance m p ≡ passed q
    → Moves id p q
        (if str_eq m.role "assistant" then calls_of id m.tool_calls else 0)
        (if str_eq m.role "tool" then one (str_eq m.tool_call_id id) else 0)
unfolding advance
advance-Moves id m p q s e = ground (
  arith,
  add_calls-Moves id m.tool_calls p q s,
  answer-Moves id m.tool_call_id p q s,
  eq_iff m.role "assistant",
  eq_iff m.role "tool",
  eq_iff "assistant" "tool",
)

advance_all-Moves :
    (id : String) (ms : List Message) (p q : Progress)
    → seen id p ≤ 1
    → advance_all ms p ≡ passed q
    → Moves id p q (calls_with id ms) (results_with id ms)
unfolding advance_all
advance_all-Moves id [] p q s e = ground arith
advance_all-Moves id (m ∷ ms) p q s e =
    let (p', e1, e2) = passed-after (advance m p) (advance_all ms) e in
    let first = advance-Moves id m p p' s e1 in
    let rest = advance_all-Moves id ms p' q first.fresh e2 in ground (arith, first, rest)

abbrev start : Progress
start = record { pending = []; completed = [] }

-- The rounds of an accepted conversation end with nothing pending.
accepted-rounds :
    (ms : List Message)
    → validate ms ≡ passed tt
    → (q : Progress) × (advance_all ms start ≡ passed q) × (q.pending ≡ [])
unfolding validate
accepted-rounds ms e =
    let (u, _, e1) = passed-after (check_first ms) _ e in
    let (q, e2, e3) = passed-after (advance_all ms start) _ e1 in (q, e2, ground arith)

-- In an accepted conversation every tool call is answered: for each id there are as many results as
-- calls, and at most one of each.
pub calls_answered_once :
    (ms : List Message) (id : String)
    → validate ms ≡ passed tt
    → (results_with id ms ≡ calls_with id ms) × (calls_with id ms ≤ 1)
calls_answered_once ms id e =
    let (q, r, none_left) = accepted-rounds ms e in
    let moves = advance_all-Moves id ms start q (omega arith) r in ground (arith, moves, none_left)

advance_all-append :
    (ms ns : List Message) (p q : Progress)
    → advance_all (ms ++ ns) p ≡ passed q
    → (p' : Progress) × (advance_all ms p ≡ passed p')
unfolding advance_all
advance_all-append [] ns p q e = (p, refl)
advance_all-append (m ∷ ms) ns p q e =
    let (p1, e1, e2) = passed-after (advance m p) (advance_all (ms ++ ns)) e in
    let (p2, e3) = advance_all-append ms ns p1 q e2 in (p2, rw e1 e3)

-- No result of an accepted conversation stands before its call: no prefix has more results of an id
-- than calls.
pub results_follow_calls :
    (ms ns : List Message) (id : String)
    → validate (ms ++ ns) ≡ passed tt
    → results_with id ms ≤ calls_with id ms
results_follow_calls ms ns id e =
    let (q, r, _) = accepted-rounds (ms ++ ns) e in
    let (p, part) = advance_all-append ms ns start q r in
    let moves = advance_all-Moves id ms start p (omega arith) part in ground (arith, moves)
