-- ===== src/Proxies/Replay.antt =====
-- A request through the pool, replayed on other proxies (RoundTrip, internal/outbound/pool.go).
use m365_copilot2api_docker.Base.{
  ℕ, zero, suc, ◌+◌, ◌<◌, ◌≤◌, ◌≡◌, refl, String, Bool, true, false, Option, none, some, str_eq,
  length, min, arith, Option-cases, inl, inr,
}
use m365_copilot2api_docker.Proxies.{Pool, pick}
use m365_copilot2api_docker.Proxies.Mark.{Error, mark}

-- The body of a request: none at all, one that can be read once, one that GetBody gives again, and
-- one for which GetBody reports an error.
pub data Body : Type 0 where
  absent stream replayable broken : Body

-- What a transport answers.
pub data Outcome (R : Type 0) : Type 0 where
  responded : R → Outcome R
  failed : Error → Outcome R

-- What RoundTrip comes to; where `r.Body` and `r.GetBody` are nil, the call of GetBody panics.
pub data Reply (R : Type 0) : Type 0 where
  response : R → Reply R
  gave_up : Error → Reply R
  panicked : Reply R

-- `send` is what the transport of a proxy does at an attempt.
module _ {R : Type 0} (send : ℕ → String → Outcome R) where
  abbrev error_of : Outcome R → Option Error
  error_of (responded r) = none
  error_of (failed err) = some err

  -- The rest of a round, once a proxy is picked: `same` says that it is the first one, `q` is the
  -- pool after the pick, `after` the pool with the outcome marked, and `later` the next rounds.
  unfoldable pub settle :
      Bool → Body → Outcome R → Error → Pool → Pool → Reply R × Pool → Reply R × Pool
  settle true body out err q after later = (gave_up err, q)
  settle false absent out err q after later = (panicked, q)
  settle false broken out err q after later = (gave_up err, q)
  settle false stream (responded r) err q after later = (response r, after)
  settle false stream (failed e) err q after later = later
  settle false replayable (responded r) err q after later = (response r, after)
  settle false replayable (failed e) err q after later = later

  -- The loop, with the number of rounds left, after a first failure `err` of the proxy `first`.
  unfoldable pub replay : ℕ → ℕ → Pool → ℕ → String → Body → Error → Reply R × Pool
  unfolding settle
  replay zero attempt p now first body err = (gave_up err, p)
  replay (suc left) attempt p now first body err = elim (pick p now) [
    | none ↦ (gave_up err, p)
    | some (next, q) ↦
        let out = send attempt next.raw in
        let after = mark q now next.raw (error_of out) in
        let later = replay left (attempt + 1) after now first body err in
        settle (str_eq next.raw first) body out err q after later
  ]

  -- After the first attempt: a body that can be read once is not sent again.
  unfoldable pub begin_replay : Outcome R → Body → Pool → ℕ → String → Reply R × Pool
  unfolding replay
  begin_replay (responded r) body q now first = (response r, q)
  begin_replay (failed err) stream q now first = (gave_up err, q)
  begin_replay (failed err) absent q now first =
      replay (min 3 (length q.entries + 1)) 1 q now first absent err
  begin_replay (failed err) replayable q now first =
      replay (min 3 (length q.entries + 1)) 1 q now first replayable err
  begin_replay (failed err) broken q now first =
      replay (min 3 (length q.entries + 1)) 1 q now first broken err

  -- RoundTrip, for a client that was made with the proxy `first`.
  unfoldable pub round_trip : Pool → ℕ → String → Body → Reply R × Pool
  unfolding begin_replay
  round_trip p now first body =
      let out = send 0 first in begin_replay out body (mark p now first (error_of out)) now first

  -- What a reply stands for: a response was sent by a proxy at one of the first attempts, the error
  -- is that of the first proxy, and only a request without a body panics.
  abbrev pub Honest : ℕ → String → Body → Reply R → Type 0
  Honest limit first body (response r) =
      (k : ℕ) × (raw : String) × (k < limit) × (send k raw ≡ responded r)
  Honest limit first body (gave_up err) = send 0 first ≡ failed err
  Honest limit first body panicked = body ≡ absent

  settle-Honest :
      (limit attempt : ℕ) (raw first : String) (same : Bool) (body : Body) (out : Outcome R)
      (err : Error) (q after : Pool) (later : Reply R × Pool)
      → send 0 first ≡ failed err
      → send attempt raw ≡ out
      → attempt < limit
      → Honest limit first body later.0
      → Honest limit first body (settle same body out err q after later).0
  unfolding settle
  settle-Honest limit attempt raw first true body out err q after later h s lt l = h
  settle-Honest limit attempt raw first false absent out err q after later h s lt l = refl
  settle-Honest limit attempt raw first false broken out err q after later h s lt l = h
  settle-Honest limit attempt raw first false stream (responded r) err q after later h s lt l =
      (attempt, raw, lt, s)
  settle-Honest limit attempt raw first false stream (failed e) err q after later h s lt l = l
  settle-Honest limit attempt raw first false replayable (responded r) err q after later h s lt l =
      (attempt, raw, lt, s)
  settle-Honest limit attempt raw first false replayable (failed e) err q after later h s lt l = l

  replay-Honest :
      (limit left attempt : ℕ) (p : Pool) (now : ℕ) (first : String) (body : Body) (err : Error)
      → attempt + left ≤ limit
      → send 0 first ≡ failed err
      → Honest limit first body (replay left attempt p now first body err).0
  unfolding replay
  replay-Honest limit zero attempt p now first body err le h = h
  replay-Honest limit (suc left) attempt p now first body err le h =
      elim (Option-cases (pick p now)) [
        | inl nothing ↦ rw (nothing, Honest) h
        | inr ((next, q), there) ↦
            let out = send attempt next.raw in
            let after = mark q now next.raw (error_of out) in
            let later =
              replay-Honest limit left (attempt + 1) after now first body err (omega arith) h in
            rw (there, Honest)
              (settle-Honest limit attempt next.raw first (str_eq next.raw first) body out err q
                after _ h refl (omega arith) later)
      ]

  begin_replay-Honest :
      (out : Outcome R) (body : Body) (q : Pool) (now : ℕ) (first : String)
      → send 0 first ≡ out
      → Honest 4 first body (begin_replay out body q now first).0
  unfolding begin_replay
  begin_replay-Honest (responded r) body q now first s = (0, first, omega arith, s)
  begin_replay-Honest (failed err) stream q now first s = s
  begin_replay-Honest (failed err) absent q now first s =
      replay-Honest 4 (min 3 (length q.entries + 1)) 1 q now first absent err (omega arith) s
  begin_replay-Honest (failed err) replayable q now first s =
      replay-Honest 4 (min 3 (length q.entries + 1)) 1 q now first replayable err (omega arith) s
  begin_replay-Honest (failed err) broken q now first s =
      replay-Honest 4 (min 3 (length q.entries + 1)) 1 q now first broken err (omega arith) s

  -- A response comes from a proxy at one of at most four attempts, the error is that of the first
  -- proxy, and only a request without a body panics.
  pub round_trip-Honest :
      (p : Pool) (now : ℕ) (first : String) (body : Body)
      → Honest 4 first body (round_trip p now first body).0
  unfolding round_trip
  round_trip-Honest p now first body =
      begin_replay-Honest (send 0 first) body (mark p now first (error_of (send 0 first))) now first
        refl
