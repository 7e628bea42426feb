-- ===== src/Usage.antt =====
-- The log of usage and its sums (internal/web/usage.go).
pub mod Flushes
pub mod Sums
mod Tests
use m365_copilot2api_docker.Base.{
  ℕ, zero, suc, ◌+◌, ◌-◌, ◌%◌, String, Bool, true, false, Option, none, some, List, [], ◌∷◌, ◌++◌,
  ltb, leb, if◌then◌else◌, length, drop, take,
}
use m365_copilot2api_docker.Dict.{Dict, get, put}

-- UsageRecord, but for the stream mark and the status, which the log only copies.
pub record Record : Type 0 where
  pub time : ℕ
  pub api_key_prefix : String
  pub account_email : String
  pub model : String
  pub endpoint : String
  pub input_tokens : ℕ
  pub output_tokens : ℕ
  pub cache_tokens : ℕ
  pub duration_ms : ℕ

-- usageLog with its file; `writing` are the batches of flushes that are under way.
pub record Log : Type 0 where
  pub records : List Record
  pub pending : List Record
  pub writing : List (List Record)
  pub file : List Record

abbrev pub max_usage_records : ℕ
max_usage_records = 50000

-- trim
unfoldable pub trim : ℕ → List Record → List Record
trim bound l = if ltb bound (length l) then drop (length l - bound) l else l

-- record, but for the mark of the persistStore
unfoldable pub add : Record → Log → Log
add r s = record s {
  records = trim max_usage_records (s.records ++ r ∷ []);
  pending = s.pending ++ r ∷ [];
}

-- What a flush takes out, unless it is empty.
unfoldable pub take_out : List Record → Log → Log
take_out [] s = s
take_out (r ∷ rs) s = record s { pending = []; writing = (r ∷ rs) ∷ s.writing }

-- The first half of flush.
unfoldable pub begin_flush : Log → Log
begin_flush s = take_out s.pending s

-- What the file says to a flush. A write that fails may have written a part; the number is that of
-- the whole records in it.
pub data Answer : Type 0 where
  not_opened : Answer
  not_written : ℕ → Answer
  written : Answer

-- A batch of a list, and the others.
unfoldable pub pick_batch : ℕ → List (List Record) → Option (List Record × List (List Record))
pick_batch n [] = none
pick_batch zero (b ∷ bs) = some (b, bs)
pick_batch (suc n) (b ∷ bs) = elim (pick_batch n bs) [
  | none ↦ none
  | some (c, cs) ↦ some (c, b ∷ cs)
]

-- The second half of flush, for one of the batches.
unfoldable pub end_flush : Answer → List Record → List (List Record) → Log → Log
end_flush not_opened batch others s = record s { writing = others }
end_flush (not_written n) batch others s = record s {
  writing = others;
  pending = batch ++ s.pending;
  file = s.file ++ take n batch;
}
end_flush written batch others s = record s { writing = others; file = s.file ++ batch }

unfoldable pub end_picked : Option (List Record × List (List Record)) → Answer → Log → Log
end_picked none answer s = s
end_picked (some (batch, others)) answer s = end_flush answer batch others s

pub data Event : Type 0 where
  adds : Record → Event
  begins : Event
  -- the flush at a place ends
  ends : ℕ → Answer → Event

unfoldable pub step : Event → Log → Log
step (adds r) s = add r s
step begins s = begin_flush s
step (ends n answer) s = end_picked (pick_batch n s.writing) answer s

unfoldable pub run : List Event → Log → Log
run [] s = s
run (e ∷ es) s = run es (step e s)

-- usageCountStat; tokens are int64 as unsigned words.
pub record Stat : Type 0 where
  pub requests : ℕ
  pub tokens : ℕ

abbrev pub plus64 : ℕ → ℕ → ℕ
plus64 a b = (a + b) % 18_446_744_073_709_551_616

-- reqTok
abbrev pub tokens_of : Record → ℕ
tokens_of r = plus64 (plus64 r.input_tokens r.output_tokens) r.cache_tokens

-- One record in the counts by `key`: API key, model, endpoint or date.
unfoldable pub count_in : (Record → String) → Record → Dict Stat → Dict Stat
count_in key r d = put d (key r) (elim (get d (key r)) [
  | none ↦ record { requests = 1; tokens = tokens_of r }
  | some s ↦ record { requests = suc s.requests; tokens = plus64 s.tokens (tokens_of r) }
])

-- The loop of snapshot, for one of its maps; `cutoff` is the beginning of the days.
unfoldable pub counts : (Record → String) → ℕ → List Record → Dict Stat → Dict Stat
counts key cutoff [] d = d
counts key cutoff (r ∷ rs) d =
    counts key cutoff rs (if ltb r.time cutoff then d else count_in key r d)

-- The sums of the same loop, each an int64.
pub record Summary : Type 0 where
  pub requests : ℕ
  pub input : ℕ
  pub output : ℕ
  pub cache : ℕ

-- The tokens of the summary.
abbrev pub summary_tokens : Summary → ℕ
summary_tokens t = plus64 (plus64 t.input t.output) t.cache

abbrev pub add_to : Record → Summary → Summary
add_to r t = record {
  requests = suc t.requests;
  input = plus64 t.input r.input_tokens;
  output = plus64 t.output r.output_tokens;
  cache = plus64 t.cache r.cache_tokens;
}

unfoldable pub total : ℕ → List Record → Summary → Summary
total cutoff [] t = t
total cutoff (r ∷ rs) t = total cutoff rs (if ltb r.time cutoff then t else add_to r t)
