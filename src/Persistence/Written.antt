-- ===== src/Persistence/Written.antt =====
-- No change of a store is lost (internal/web/persist.go).
use m365_copilot2api_docker.Base.{◌<◌, ◌≡◌, true, none, some, ◌⊎◌}
use m365_copilot2api_docker.Persistence.{State}

module _ {A : Type 0} where
  -- Where the file differs from the store, the mark is set or due, a flush has still to read the store, or
  -- one writes what the store holds.
  abbrev pub IsTracked : State A → Type 0
  IsTracked s =
      (s.dirty ≡ true)
      ⊎ ((0 < s.unmarked)
          ⊎ ((0 < s.waiting)
              ⊎ ((s.writing ≡ some s.memory) ⊎ ((s.writing ≡ none) × (s.disk ≡ s.memory)))))
