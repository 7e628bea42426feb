-- ===== src/Persistence/Tests.antt =====
-- A run of the delayed writing, and the instance of its theorem.
use m365_copilot2api_docker.Base.{ℕ, true, false}
use m365_copilot2api_docker.Persistence.{
  State, opened, change, begin_pending, begin_now, read_store, finish, mark_dirty,
}

-- The store becomes 4 while the flush that read 3 writes it; that flush fails, the next one does not.
abbrev marked : State ℕ
marked = mark_dirty 0 (change 4 (read_store 0 (begin_now 0 (change 3 (opened 2)))))

abbrev last : State ℕ
last = finish true 4 (read_store 0 (begin_pending (finish false 3 marked)))
