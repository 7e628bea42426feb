-- ===== src/Persistence.antt =====
-- The delayed writing of a store (persistStore, internal/web/persist.go): changes mark it dirty, and
-- any number of flushes write it. The steps are those that `dirtyMu`, `writeMu` and the store's own
-- lock make indivisible.
pub mod Written
mod Tests
use m365_copilot2api_docker.Base.{
  ℕ, zero, suc, ◌≡◌, Bool, true, false, Option, none, some, if◌then◌else◌,
}

-- `memory` is the store, `disk` the file, and `unmarked` counts the changes that are made and not yet
-- marked; `waiting` counts the flushes that have reset the mark and have not read the store yet, and
-- `writing` is what the flush that holds `writeMu` has read.
pub record State (A : Type 0) : Type 0 where
  pub memory : A
  pub disk : A
  pub unmarked : ℕ
  pub dirty : Bool
  pub waiting : ℕ
  pub writing : Option A

module _ {A : Type 0} where
  -- A change of the store, in a section of the store's lock. Its markDirty comes later, maybe after
  -- the lock is freed (record of internal/web/usage.go, valid of internal/web/keys.go).
  pub change : A → State A → State A
  change a s = record s { memory = a; unmarked = suc s.unmarked }

  -- markDirty, for one of the changes.
  pub mark_dirty : ℕ → State A → State A
  mark_dirty rest s = record s { dirty = true; unmarked = rest }

  -- The first section of flushPending: a store that is not dirty is not written.
  pub begin_pending : State A → State A
  begin_pending s = if s.dirty then record s { dirty = false; waiting = suc s.waiting } else s

  -- The first section of flushNowBlocking. Where it follows a change without a mark (create of
  -- internal/web/keys.go), it is called with the number of the other unmarked changes.
  pub begin_now : ℕ → State A → State A
  begin_now rest s = record s { dirty = false; waiting = suc s.waiting; unmarked = rest }

  -- What `flush` reads, for the flush that gets `writeMu`.
  pub read_store : ℕ → State A → State A
  read_store rest s = record s { waiting = rest; writing = some s.memory }

  -- The end of a flush: the file is replaced, or the mark is set again.
  pub finish : Bool → A → State A → State A
  finish ok a s =
      if ok
      then record s { disk = a; writing = none }
      else record s { dirty = true; writing = none }

  pub data Step : State A → State A → Type 0 where
    changes : {s : State A} (a : A) → Step s (change a s)
    marks : {s : State A} (rest : ℕ) → s.unmarked ≡ suc rest → Step s (mark_dirty rest s)
    begins_pending : {s : State A} → Step s (begin_pending s)
    begins_now : {s : State A} → Step s (begin_now s.unmarked s)
    begins_after : {s : State A} (rest : ℕ) → s.unmarked ≡ suc rest → Step s (begin_now rest s)
    reads :
        {s : State A} (rest : ℕ)
        → s.waiting ≡ suc rest
        → s.writing ≡ none
        → Step s (read_store rest s)
    finishes : {s : State A} (ok : Bool) (a : A) → s.writing ≡ some a → Step s (finish ok a s)

  -- A store that was read from its file.
  abbrev pub opened : A → State A
  opened a = record {
    memory = a;
    disk = a;
    unmarked = 0;
    dirty = false;
    waiting = 0;
    writing = none;
  }

  pub data Reachable (a : A) : State A → Type 0 where
    start : Reachable a (opened a)
    more : {s t : State A} → Reachable a s → Step s t → Reachable a t
