-- ===== src/Usage/Tests.antt =====
-- Runs of the log of usage, and instances of its theorems.
use m365_copilot2api_docker.Base.{◌≡◌, refl, List, [], ◌∷◌}
use m365_copilot2api_docker.Usage.{
  Record, Log, add, take_out, begin_flush, not_written, written, pick_batch, end_flush, end_picked,
  Event, adds, begins, ends, step, run, counts, total, trim,
}
use m365_copilot2api_docker.Usage.Sums.{IsSum, nothing, counts_total}

abbrev one : Record
one = record {
  time = 5;
  api_key_prefix = "k";
  account_email = "ann@x";
  model = "m";
  endpoint = "chat";
  input_tokens = 2;
  output_tokens = 3;
  cache_tokens = 0;
  duration_ms = 9;
}

abbrev other : Record
other = record one { time = 7; api_key_prefix = "l"; input_tokens = 4 }

abbrev no_log : Log
no_log = record { records = []; pending = []; writing = []; file = [] }

-- The first flush fails once its record is written, after another record came in and a second flush began.
abbrev busy : List Event
busy =
    adds one
    ∷ begins
    ∷ adds other
    ∷ begins
    ∷ ends 1 (not_written 1)
    ∷ ends 0 written
    ∷ begins
    ∷ ends 0 written
    ∷ []

all_written : (run busy no_log).file ≡ one ∷ other ∷ one ∷ []
unfolding run step add take_out begin_flush pick_batch end_flush end_picked trim
all_written = refl

counts_total_example :
    IsSum (total 6 (one ∷ other ∷ []) nothing) (counts (λ r. r.model) 6 (one ∷ other ∷ []) [])
counts_total_example = counts_total (λ r. r.model) 6 (one ∷ other ∷ [])
