-- ===== src/Circuit.antt =====
-- The global circuit and the classification of errors, which asks it (globalCircuitState,
-- ClassifyError; internal/web/account_health.go).
pub mod Tests
pub mod Window
pub mod Recovery
use m365_copilot2api_docker.Base.{
  ℕ, ◌+◌, ◌-◌, ◌*◌, Bool, true, false, Option, none, some, ◌&&◌, ◌||◌, ltb, leb, ◌==◌,
  if◌then◌else◌, second,
}
use m365_copilot2api_docker.Upstream.Classify.{typed_category, text_category}
use m365_copilot2api_docker.Upstream.{
  Failure, Category, global_unavailable, socks5, dns, tcp, tls, ws_handshake, ws_read_timeout,
}

pub record Circuit : Type 0 where
  pub window_start : ℕ
  pub total : ℕ
  pub failures : ℕ
  pub open_until : ℕ

-- ResetGlobalCircuit
abbrev pub closed : Circuit
closed = record { window_start = 0; total = 0; failures = 0; open_until = 0 }

-- IsOpen, which forgets a deadline that has passed.
unfoldable pub is_open : ℕ → Circuit → Bool × Circuit
is_open now c =
    if c.open_until == 0
    then (false, c)
    else if ltb now c.open_until
    then (true, c)
    else (false, record c { open_until = 0 })

-- ClassifyError of an error that is not nil.
unfoldable pub classify : ℕ → Failure → Circuit → Category × Circuit
classify now e c = elim (typed_category e) [
  | some k ↦ (k, c)
  | none ↦
      let (open_now, c') = is_open now c in
      (if open_now then global_unavailable else text_category e.text, c')
]

-- The failures that count: those of the shared transport.
abbrev pub is_transport : Category → Bool
is_transport socks5 = true
is_transport dns = true
is_transport tcp = true
is_transport tls = true
is_transport ws_handshake = true
is_transport ws_read_timeout = true
is_transport _ = false

-- A window of counts lasts 30 seconds.
pub roll_window : ℕ → Circuit → Circuit
roll_window now c =
    if c.window_start == 0 || ltb (30 * second) (now - c.window_start)
    then record c { window_start = now; total = 0; failures = 0 }
    else c

pub trip : ℕ → Circuit → Circuit
trip now c =
    if leb 10 c.total && leb c.total (c.failures * 2)
    then record c { open_until = now + 30 * second }
    else c

-- `Record(nil)`
pub record_success : ℕ → Circuit → Circuit
unfolding roll_window trip
record_success now c =
    let w = roll_window now c in
    let counted = record w { total = w.total + 1 } in
    trip now (
      if ltb 1000 counted.total
      then record counted { window_start = now; total = 1; failures = 0 }
      else counted)

-- The rest of `Record(err)` for a transport failure; the window is cut after the test.
pub record_transport : ℕ → Circuit → Circuit
unfolding roll_window trip
record_transport now c =
    let w = roll_window now c in
    let tripped = trip now (record w { total = w.total + 1; failures = w.failures + 1 }) in
    if ltb 1000 tripped.total
    then record tripped { window_start = now; total = 1; failures = 1 }
    else tripped

-- Record
unfoldable pub record_result : ℕ → Option Failure → Circuit → Circuit
record_result now none c = record_success now c
record_result now (some e) c =
    let (cat, c') = classify now e c in if is_transport cat then record_transport now c' else c'
