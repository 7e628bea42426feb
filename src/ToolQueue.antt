-- ===== src/ToolQueue.antt =====
-- The queue of tool calls that wait for the client (ToolCallQueue, internal/mcp/queue.go). A call is
-- known by its number, and its two channels of one place are kept in a list.
pub mod Order
pub mod Results
mod Tests
use m365_copilot2api_docker.Base.{
  ℕ, zero, suc, ◌+◌, String, Bool, true, false, Option, none, some, List, [], ◌∷◌, ◌++◌, ◌==◌,
  if◌then◌else◌, length,
}

-- PendingToolCall: its ID is "mcp-tool-" and the number. `result` and `error` are what its channels
-- hold, and a call stays in the list of calls after it has left the queue.
pub record Call (R : Type 0) (E : Type 0) : Type 0 where
  pub number : ℕ
  pub name : String
  pub result : Option R
  pub error : Option E

-- ToolCallQueue, and the calls that it has made.
pub record Queue (R : Type 0) (E : Type 0) : Type 0 where
  pub pending : List ℕ
  pub next_id : ℕ
  pub calls : List (Call R E)

-- What a result brings: an answer or an error.
pub data Outcome (R : Type 0) (E : Type 0) : Type 0 where
  answered : R → Outcome R E
  refused : E → Outcome R E

-- A send that does not wait: a full channel keeps what it holds.
abbrev pub send : {A : Type 0} → Option A → A → Option A
send none a = some a
send (some held) a = some held

module _ {R E : Type 0} where
  -- Enqueue, and the number of the new call.
  pub enqueue : Queue R E → String → Queue R E × ℕ
  enqueue q name =
      let n = suc q.next_id in
      let call : Call R E = record { number = n; name = name; result = none; error = none } in
      (record q { next_id = n; pending = q.pending ++ n ∷ []; calls = q.calls ++ call ∷ [] }, n)

  -- DequeueNonBlocking, and one round of Dequeue.
  pub dequeue : Queue R E → Queue R E × Option ℕ
  dequeue q = elim q.pending [ [] ↦ (q, none) | n ∷ rest ↦ (record q { pending = rest }, some n) ]

  resolve_call : Outcome R E → Call R E → Call R E
  resolve_call (answered r) c = record c { result = send c.result r }
  resolve_call (refused e) c = record c { error = send c.error e }

  update_call : ℕ → (Call R E → Call R E) → List (Call R E) → List (Call R E)
  update_call n f [] = []
  update_call n f (c ∷ cs) =
      let rest = update_call n f cs in if c.number == n then f c ∷ cs else c ∷ rest

  -- Resolve
  pub resolve : Queue R E → ℕ → Outcome R E → Queue R E
  unfolding resolve_call update_call
  resolve q n out = record q { calls = update_call n (resolve_call out) q.calls }

  -- PendingCount
  pub pending_count : Queue R E → ℕ
  pending_count q = length q.pending

abbrev pub empty_queue : (R E : Type 0) → Queue R E
empty_queue R E = record { pending = []; next_id = 0; calls = [] }

-- What happens to a queue, in the order in which the lock is taken.
pub data Event (R : Type 0) (E : Type 0) : Type 0 where
  enqueues : String → Event R E
  dequeues : Event R E
  resolves : ℕ → Outcome R E → Event R E

abbrev pub as_list : Option ℕ → List ℕ
as_list none = []
as_list (some n) = n ∷ []

-- The queue after some events, and the calls that were taken from it, in order.
pub run : {R E : Type 0} → Queue R E → List (Event R E) → Queue R E × List ℕ
run q [] = (q, [])
run q (enqueues name ∷ es) = run (enqueue q name).0 es
run q (dequeues ∷ es) =
    let (last, taken) = run (dequeue q).0 es in (last, as_list (dequeue q).1 ++ taken)
run q (resolves n out ∷ es) = run (resolve q n out) es
