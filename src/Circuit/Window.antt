-- ===== src/Circuit/Window.antt =====
-- The counts of the global circuit, and when it opens (Record, internal/web/account_health.go).
use m365_copilot2api_docker.Base.{
  ℕ, ◌+◌, ◌*◌, ◌≤◌, ◌≡◌, ◌⊎◌, Option, none, some, arith, second, inl, inr, ◌<◌,
}
use m365_copilot2api_docker.Upstream.{Failure}
use m365_copilot2api_docker.Circuit.{
  Circuit, closed, is_open, classify, roll_window, record_success, record_transport, record_result,
}

pub record IsValid (c : Circuit) : Type 0 where
  pub counted : c.failures ≤ c.total
  pub limited : c.total ≤ 1000

pub closed-IsValid : IsValid closed
closed-IsValid = record { counted = omega arith; limited = omega arith }

pub is_open-IsValid : (now : ℕ) (c : Circuit) → IsValid c → IsValid (is_open now c).1
unfolding is_open
is_open-IsValid now c v = ground arith

pub classify-IsValid :
    (now : ℕ) (e : Failure) (c : Circuit) → IsValid c → IsValid (classify now e c).1
unfolding classify
classify-IsValid now e c v = ground (arith, is_open-IsValid now c v)

record_success-IsValid : (now : ℕ) (c : Circuit) → IsValid c → IsValid (record_success now c)
unfolding record_success
record_success-IsValid now c v = ground arith

record_transport-IsValid : (now : ℕ) (c : Circuit) → IsValid c → IsValid (record_transport now c)
unfolding record_transport
record_transport-IsValid now c v = ground arith

-- Recording any outcome keeps the counts: no more failures than results, and at most 1000 results.
pub record_result-IsValid :
    (now : ℕ) (r : Option Failure) (c : Circuit) → IsValid c → IsValid (record_result now r c)
unfolding record_result
record_result-IsValid now none c v = record_success-IsValid now c v
record_result-IsValid now (some e) c v =
    let (k, c') = classify now e c in
    ground (
      arith,
      classify-IsValid now e c v,
      record_transport-IsValid now (classify now e c).1 (classify-IsValid now e c v),
    )

-- The results of the window that a new one falls into: none where there is no window or it began more
-- than 30 seconds ago, and else those that are counted.
abbrev pub IsWindow : ℕ → Circuit → ℕ → ℕ → Type 0
IsWindow now c results failures =
    (((c.window_start ≡ 0) ⊎ (c.window_start + 30 * second < now)) × (results ≡ 0) × (failures ≡ 0))
    ⊎ ((0 < c.window_start)
        × (now ≤ c.window_start + 30 * second)
        × (results ≡ c.total)
        × (failures ≡ c.failures))

-- What may have become of the deadline: kept, forgotten since it has passed, or set 30 seconds ahead
-- when at least half of ten or more results of the window, the new one included, are failures.
abbrev pub Deadline : ℕ → ℕ → Circuit → Circuit → Type 0
Deadline now failed c d =
    (d.open_until ≡ c.open_until)
    ⊎ ((d.open_until ≡ 0) × (c.open_until ≤ now))
    ⊎ ((d.open_until ≡ now + 30 * second)
        × ((results failures : ℕ) × IsWindow now c results failures
            × (10 ≤ results + 1)
            × (results + 1 ≤ (failures + failed) * 2)))

-- The same with the counts that the code rolls.
abbrev Rolled : ℕ → ℕ → Circuit → Circuit → Type 0
Rolled now failed c d =
    (d.open_until ≡ c.open_until)
    ⊎ ((d.open_until ≡ 0) × (c.open_until ≤ now))
    ⊎ ((d.open_until ≡ now + 30 * second)
        × (10 ≤ (roll_window now c).total + 1)
        × ((roll_window now c).total + 1 ≤ ((roll_window now c).failures + failed) * 2))

roll_window-IsWindow :
    (now : ℕ) (c : Circuit) → IsWindow now c (roll_window now c).total (roll_window now c).failures
unfolding roll_window
roll_window-IsWindow now c = ground arith

Rolled-Deadline : (now failed : ℕ) (c d : Circuit) → Rolled now failed c d → Deadline now failed c d
Rolled-Deadline now failed c d (inl kept) = inl kept
Rolled-Deadline now failed c d (inr (inl gone)) = inr (inl gone)
Rolled-Deadline now failed c d (inr (inr (set, enough, half))) = inr (
    inr (
      set,
      (
        (roll_window now c).total,
        (roll_window now c).failures,
        roll_window-IsWindow now c,
        enough,
        half,
      ),
    ))

abbrev pub failed : Option Failure → ℕ
failed none = 0
failed (some e) = 1

success-Rolled : (now : ℕ) (c : Circuit) → Rolled now 0 c (record_success now c)
unfolding record_success
success-Rolled now c = ground arith

transport-Rolled :
    (now : ℕ) (c d : Circuit)
    → d.window_start ≡ c.window_start
    → d.total ≡ c.total
    → d.failures ≡ c.failures
    → (d.open_until ≡ c.open_until) ⊎ ((d.open_until ≡ 0) × (c.open_until ≤ now))
    → Rolled now 1 c (record_transport now d)
unfolding record_transport
transport-Rolled now c d w t f o = ground arith

-- Classifying changes at most the deadline, and only by forgetting one that has passed.
pub classify_frame :
    (now : ℕ) (e : Failure) (c : Circuit)
    → let d = (classify now e c).1 in
      (d.window_start ≡ c.window_start)
      × (d.total ≡ c.total)
      × (d.failures ≡ c.failures)
      × ((d.open_until ≡ c.open_until) ⊎ ((d.open_until ≡ 0) × (c.open_until ≤ now)))
unfolding classify is_open
classify_frame now e c = ground arith

record_result-Rolled :
    (now : ℕ) (r : Option Failure) (c : Circuit) → Rolled now (failed r) c (record_result now r c)
unfolding record_result
record_result-Rolled now none c = success-Rolled now c
record_result-Rolled now (some e) c =
    let d = (classify now e c).1 in
    let f = classify_frame now e c in ground (arith, f, transport-Rolled now c d f.0 f.1 f.2 f.3)

-- A recorded result opens the circuit only where at least half of ten or more results of its window,
-- the result included, are failures, and for 30 seconds; a window lasts 30 seconds.
pub record_result-Deadline :
    (now : ℕ) (r : Option Failure) (c : Circuit) → Deadline now (failed r) c (record_result now r c)
record_result-Deadline now r c =
    Rolled-Deadline now (failed r) c (record_result now r c) (record_result-Rolled now r c)
