-- ===== src/ToolQueue/Tests.antt =====
-- Runs of the queue of tool calls, and instances of its theorems.
use m365_copilot2api_docker.Base.{ℕ, ◌≡◌, refl, String, none, some, List, [], ◌∷◌}
use m365_copilot2api_docker.ToolQueue.{
  Queue, Event, enqueues, dequeues, resolves, answered, empty_queue, run, resolve, enqueue, dequeue,
  resolve_call, update_call,
}
use m365_copilot2api_docker.ToolQueue.Order.{InOrder, run-InOrder}

abbrev events : List (Event ℕ String)
events =
    enqueues "ls"
    ∷ enqueues "cat"
    ∷ dequeues
    ∷ resolves 1 (answered 7)
    ∷ resolves 1 (answered 8)
    ∷ []

abbrev after : Queue ℕ String
after = (run (empty_queue ℕ String) events).0

runs : after ≡ record {
  pending = 2 ∷ [];
  next_id = 2;
  calls =
      record { number = 1; name = "ls"; result = some 7; error = none }
      ∷ record { number = 2; name = "cat"; result = none; error = none }
      ∷ [];
}
unfolding run enqueue dequeue resolve resolve_call update_call
runs = refl

run-InOrder_example : InOrder (run (empty_queue ℕ String) events).1 after
run-InOrder_example = run-InOrder events
