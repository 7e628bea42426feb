-- ===== src/Ledger/Counts.antt =====
-- What the counters of the ledger mean (buildAgentLedger, internal/web/agent_ledger.go).
use m365_copilot2api_docker.Base.{
  ℕ, suc, ◌+◌, ◌≤◌, ◌≡◌, ◌↔◌, refl, String, Bool, true, List, [], ◌∷◌, ◌++◌, ◌∙◌, sym, leb, str_eq,
  if◌then◌else◌, or_zero, length, arith, eq_refl, eq_iff, Bool-cases, inl, inr, length-append,
  append_assoc, append-nil, subst,
}
use m365_copilot2api_docker.Dict.{Dict, get, get-put}
use m365_copilot2api_docker.Messages.{Message}
use m365_copilot2api_docker.Ledger.{
  Evidence, Tally, empty_tally, gather, note_call, note_result, tally, build_ledger, count_up,
  of_id, signature,
}

-- How often a text stands in a list.
unfoldable pub occurs : String → List String → ℕ
occurs s [] = 0
occurs s (x ∷ xs) = let rest = occurs s xs in if str_eq x s then suc rest else rest

occurs-append :
    (s x : String) (xs : List String)
    → occurs s (xs ++ x ∷ []) ≡ occurs s xs + (if str_eq x s then 1 else 0)
unfolding occurs
occurs-append s x [] = ground arith
occurs-append s x (y ∷ ys) = ground (arith, occurs-append s x ys)

-- The counts and the mark of repeated calls, once the calls of these signatures are noted.
abbrev Counted : List String → Tally → Type 0
Counted done t =
    ((s : String) → or_zero 0 (get t.seen_call s) ≡ occurs s done)
    × (t.ledger.repeated_call ≡ true → (s : String) × (2 ≤ occurs s done))
    × ((s : String) → 2 ≤ occurs s done → t.ledger.repeated_call ≡ true)
    × (t.ledger.tool_rounds ≡ length done)
    × (length t.ledger.completed + length t.ledger.pending ≡ length done)

-- The same before the call is put into one of the two lists.
abbrev Half : List String → Tally → Type 0
Half done t =
    ((s : String) → or_zero 0 (get t.seen_call s) ≡ occurs s done)
    × (t.ledger.repeated_call ≡ true → (s : String) × (2 ≤ occurs s done))
    × ((s : String) → 2 ≤ occurs s done → t.ledger.repeated_call ≡ true)
    × (t.ledger.tool_rounds ≡ length done)
    × (suc (length t.ledger.completed + length t.ledger.pending) ≡ length done)

note_call-Half :
    (e : Evidence) (done : List String) (t : Tally)
    → Counted done t
    → Half (done ++ signature e ∷ []) (note_call e t)
unfolding note_call count_up
note_call-Half e done t (seen, marked, marks, rounds, parts) = (
  λ s. ground (
    arith,
    get-put t.seen_call (signature e) (or_zero 0 (get t.seen_call (signature e)) + 1) s,
    occurs-append s (signature e) done,
    seen s,
    seen (signature e),
    eq_iff (signature e) s,
  ),
  λ h. elim (Bool-cases (leb 2 (or_zero 0 (get t.seen_call (signature e)) + 1))) [
    | inl again ↦ (
      signature e,
      ground (
        arith,
        occurs-append (signature e) (signature e) done,
        seen (signature e),
        eq_refl (signature e),
      ),
    )
    | inr new ↦
        let (s, old) = marked (ground arith) in
        (s, ground (arith, occurs-append s (signature e) done))
  ],
  λ s h.
      ground (arith, occurs-append s (signature e) done, marks s, seen s, eq_iff (signature e) s),
  ground (arith, length-append done (signature e ∷ [])),
  ground (arith, length-append done (signature e ∷ [])),
)

start : Counted [] empty_tally
unfolding occurs get
start = (λ s. refl, λ h. cc, λ s h. absurd (omega arith), refl, refl)

module _ (is_failure : List ℕ → Bool) (normalize : List ℕ → String)
    (truncate : List ℕ → List ℕ) where
  note_result-Counted :
      (e : Evidence) (done : List String) (t : Tally)
      → Half done t
      → Counted done (note_result is_failure normalize truncate e t)
  unfolding note_result count_up
  note_result-Counted e done t (seen, marked, marks, rounds, parts) = (
    λ s. ground (arith, seen s),
    λ h. marked (ground arith),
    λ s h. ground (arith, marks s),
    ground (arith, rounds),
    ground (
      arith,
      parts,
      length-append t.ledger.completed (e ∷ []),
      length-append t.ledger.pending (e ∷ []),
    ),
  )

  -- The signatures of some ids' calls.
  abbrev signatures_of : Dict Evidence → List String → List String
  signatures_of calls [] = []
  signatures_of calls (id ∷ ids) =
      signature (of_id is_failure normalize truncate calls id) ∷ signatures_of calls ids

  tally-Counted :
      (calls : Dict Evidence) (ids done : List String) (t : Tally)
      → Counted done t
      → Counted (done ++ signatures_of calls ids) (tally is_failure normalize truncate calls ids t)
  unfolding tally
  tally-Counted calls [] done t h = rw append-nil h
  tally-Counted calls (id ∷ ids) done t h =
      let e = of_id is_failure normalize truncate calls id in
      let more = done ++ signature e ∷ [] in
      subst (λ l. Counted l (tally is_failure normalize truncate calls (id ∷ ids) t))
        (append_assoc done (signature e ∷ []) (signatures_of calls ids))
        (tally-Counted calls ids more (note_result is_failure normalize truncate e (note_call e t))
          (note_result-Counted e more (note_call e t) (note_call-Half e done t h)))

  -- The signatures of the calls of a conversation, in order.
  abbrev pub signatures : List Message → List String
  signatures ms = let g = gather is_failure normalize truncate ms ([], []) in signatures_of g.0 g.1

  -- A conversation is marked for a repeated call exactly if two of its calls have the same name and
  -- arguments, each call counts as a round, and each is either completed or pending.
  pub repeated_call_iff :
      (ms : List Message)
      → let l = build_ledger is_failure normalize truncate ms in
        ((l.repeated_call ≡ true) ↔ ((s : String) × (2 ≤ occurs s (signatures ms))))
        × (l.tool_rounds ≡ length (signatures ms))
        × (length l.completed + length l.pending ≡ l.tool_rounds)
  unfolding build_ledger
  repeated_call_iff ms =
      let g = gather is_failure normalize truncate ms ([], []) in
      let (seen, marked, marks, rounds, parts) = tally-Counted g.0 g.1 [] empty_tally start in
      ((marked, λ h. marks h.0 h.1), rounds, parts ∙ sym rounds)
