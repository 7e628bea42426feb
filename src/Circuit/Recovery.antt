-- ===== src/Circuit/Recovery.antt =====
-- How the global circuit closes again, and what leaves it alone (internal/web/account_health.go).
use m365_copilot2api_docker.Base.{
  ℕ, ◌+◌, ◌*◌, ◌≤◌, ◌<◌, ◌≡◌, false, Option, none, some, List, [], ◌∷◌, All, arith, second,
}
use m365_copilot2api_docker.Upstream.{Failure, global_unavailable}
use m365_copilot2api_docker.Upstream.Classify.{typed_category}
use m365_copilot2api_docker.Circuit.{Circuit, is_open, classify, is_transport, record_result}
use m365_copilot2api_docker.Circuit.Window.{classify_frame, record_result-Deadline}

-- While the circuit is open, an error that only its text describes is GLOBAL_UNAVAILABLE, and
-- recording it leaves the circuit as it is: rejected traffic does not keep it open.
pub open_not_renewed :
    (now : ℕ) (e : Failure) (c : Circuit)
    → now < c.open_until
    → typed_category e ≡ none
    → ((classify now e c).0 ≡ global_unavailable) × (record_result now (some e) c ≡ c)
unfolding record_result classify is_open
open_not_renewed now e c h t = ground (arith)

-- An error outside the shared transport leaves the counts and the window alone, and neither opens
-- the circuit nor keeps it open longer.
pub account_error_ignored :
    (now : ℕ) (e : Failure) (c : Circuit)
    → is_transport (classify now e c).0 ≡ false
    → let d = record_result now (some e) c in
      (d.window_start ≡ c.window_start)
      × (d.total ≡ c.total)
      × (d.failures ≡ c.failures)
      × (d.open_until ≤ c.open_until)
unfolding record_result
account_error_ignored now e c h = rw h (omega (arith, classify_frame now e c))

-- A history of recorded results, each with its moment.
pub record_all : List (ℕ × Option Failure) → Circuit → Circuit
record_all [] c = c
record_all ((now, r) ∷ rest) c = record_all rest (record_result now r c)

record_all_deadline :
    (t : ℕ) (history : List (ℕ × Option Failure)) (c : Circuit)
    → All (λ (p : ℕ × Option Failure). p.0 ≤ t) history
    → c.open_until ≤ t + 30 * second
    → (record_all history c).open_until ≤ t + 30 * second
unfolding record_all
record_all_deadline t [] c h o = o
record_all_deadline t ((now, r) ∷ rest) c h o =
    record_all_deadline t rest (record_result now r c) h.1
      (omega (arith, record_result-Deadline now r c))

-- Whatever was recorded up to a moment, the circuit is closed 30 seconds after it.
pub record_all-closes :
    (t later : ℕ) (history : List (ℕ × Option Failure)) (c : Circuit)
    → All (λ (p : ℕ × Option Failure). p.0 ≤ t) history
    → c.open_until ≤ t + 30 * second
    → t + 30 * second ≤ later
    → (is_open later (record_all history c)).0 ≡ false
unfolding is_open
record_all-closes t later history c h o l = ground (arith, record_all_deadline t history c h o)
