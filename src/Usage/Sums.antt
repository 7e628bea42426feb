-- ===== src/Usage/Sums.antt =====
-- The counts of a snapshot add up (internal/web/usage.go).
use m365_copilot2api_docker.Base.{
  ℕ, suc, ◌+◌, ◌%◌, ◌≡◌, refl, String, Bool, true, false, some, List, [], ◌∷◌, if◌then◌else◌, arith,
  ltb, Option-cases, inl, inr, eq_iff, str_eq, Bool-cases,
}
use m365_copilot2api_docker.Dict.{Dict, get, put, remove, IsDict, put-IsDict, remove_absent}
use m365_copilot2api_docker.Usage.{
  Record, Stat, plus64, tokens_of, count_in, counts, Summary, summary_tokens, add_to, total,
}

-- The sum of the entries of a map.
unfoldable pub sum_of : Dict Stat → Stat
sum_of [] = record { requests = 0; tokens = 0 }
sum_of ((k, s) ∷ d) = record {
  requests = s.requests + (sum_of d).requests;
  tokens = plus64 s.tokens (sum_of d).tokens;
}

sum_of-remove :
    (d : Dict Stat) (k : String) (s : Stat)
    → IsDict d
    → get d k ≡ some s
    → (s.requests + (sum_of (remove d k)).requests ≡ (sum_of d).requests)
      × (plus64 s.tokens (sum_of (remove d k)).tokens ≡ (sum_of d).tokens)
unfolding sum_of remove get
sum_of-remove [] k s h e = cc
sum_of-remove ((j, v) ∷ d) k s h e = elim (Bool-cases (str_eq j k)) [
  | inl here ↦ ground (arith, here, e, h.0, eq_iff j k, remove_absent d k)
  | inr there ↦ ground (arith, there, e, sum_of-remove d k s h.1)
]

-- What the entries add up to.
abbrev pub IsSum : Summary → Dict Stat → Type 0
IsSum t d =
    (t.requests ≡ (sum_of d).requests)
    × (summary_tokens t ≡ (sum_of d).tokens % 18_446_744_073_709_551_616)
    × IsDict d

count_in-IsSum :
    (key : Record → String) (r : Record) (t : Summary) (d : Dict Stat)
    → IsSum t d
    → IsSum (add_to r t) (count_in key r d)
unfolding count_in put sum_of
count_in-IsSum key r t d (req, tok, h) = elim (Option-cases (get d (key r))) [
  | inl new ↦
      let same = remove_absent d (key r) (ground (arith, new)) in
      rw new (
        rw same (omega (arith, req)),
        rw same (omega (arith, tok)),
        put-IsDict d (key r) (record { requests = 1; tokens = tokens_of r }) h,
      )
  | inr (s, old) ↦
      let (requests, tokens) = sum_of-remove d (key r) s h old in
      rw old (
        omega (arith, req, requests),
        omega (arith, tok, tokens),
        put-IsDict d (key r)
            (record { requests = suc s.requests; tokens = plus64 s.tokens (tokens_of r) }) h,
      )
]

either-IsSum :
    (b : Bool) (t u : Summary) (d e : Dict Stat)
    → IsSum t d
    → IsSum u e
    → IsSum (if b then t else u) (if b then d else e)
either-IsSum true t u d e h k = h
either-IsSum false t u d e h k = k

counts-IsSum :
    (key : Record → String) (cutoff : ℕ) (rs : List Record) (t : Summary) (d : Dict Stat)
    → IsSum t d
    → IsSum (total cutoff rs t) (counts key cutoff rs d)
unfolding counts total
counts-IsSum key cutoff [] t d h = h
counts-IsSum key cutoff (r ∷ rs) t d h =
    let t1 : Summary = add_to r t in
    let b = ltb r.time cutoff in
    counts-IsSum key cutoff rs (if b then t else t1) (if b then d else count_in key r d)
      (either-IsSum b t t1 d (count_in key r d) h (count_in-IsSum key r t d h))

abbrev pub nothing : Summary
nothing = record { requests = 0; input = 0; output = 0; cache = 0 }

-- Whatever the records are counted by, each name stands once, the requests of the names add up to the
-- requests of the summary, and their tokens to its tokens as 64-bit words.
pub counts_total :
    (key : Record → String) (cutoff : ℕ) (rs : List Record)
    → IsSum (total cutoff rs nothing) (counts key cutoff rs [])
unfolding sum_of
counts_total key cutoff rs = counts-IsSum key cutoff rs nothing [] (refl, refl, tt)
