-- ===== src/Usage/Flushes.antt =====
-- No record of usage is lost while the file can be opened (internal/web/usage.go).
use m365_copilot2api_docker.Base.{
  ℕ, suc, ◌+◌, Bool, Option, none, some, List, [], ◌∷◌, ◌++◌, if◌then◌else◌, take,
}
use m365_copilot2api_docker.Usage.{
  Record, Log, Answer, not_opened, not_written, written, pick_batch, Event, adds, begins, ends,
  step,
}

-- The records of a list that pass a test.
unfoldable pub count : (Record → Bool) → List Record → ℕ
count p [] = 0
count p (r ∷ rs) = let n = count p rs in if p r then suc n else n

unfoldable pub count_all : (Record → Bool) → List (List Record) → ℕ
count_all p [] = 0
count_all p (b ∷ bs) = count p b + count_all p bs

-- The records that are added.
unfoldable pub added : List Event → List Record
added [] = []
added (adds r ∷ es) = r ∷ added es
added (begins ∷ es) = added es
added (ends n answer ∷ es) = added es

abbrev pub IsOpened : Event → Type 0
IsOpened (ends n not_opened) = ⊥
IsOpened e = Unit

-- In the file, in a flush that is under way, or waiting for one.
unfoldable pub held : (Record → Bool) → Log → ℕ
held p s = count p s.file + (count_all p s.writing + count p s.pending)

-- What a flush writes twice.
unfoldable pub repeated : Answer → List Record → List Record
repeated not_opened batch = []
repeated (not_written n) batch = take n batch
repeated written batch = []

-- The records that an event adds.
abbrev one : Event → List Record
one (adds r) = r ∷ []
one e = []

repeated_of : Answer → Option (List Record × List (List Record)) → List Record
repeated_of answer none = []
repeated_of answer (some (batch, others)) = repeated answer batch

-- The records that a run writes twice: what stood in the file of a write that then failed.
unfoldable pub repeats : List Event → Log → List Record
unfolding repeated_of
repeats [] s = []
repeats (adds r ∷ es) s = repeats es (step (adds r) s)
repeats (begins ∷ es) s = repeats es (step begins s)
repeats (ends n answer ∷ es) s =
    repeated_of answer (pick_batch n s.writing) ++ repeats es (step (ends n answer) s)
