-- ===== src/Ledger/Blank.antt =====
-- A tool that prints nothing (internal/web/agent_ledger.go).
use m365_copilot2api_docker.Base.{
  ℕ, ◌≡◌, ◌≢◌, ◌<◌, refl, String, Bool, false, some, List, [], ◌∷◌, str_eq, arith, eq_refl, eq_iff,
  ◌∙◌, ap, true,
}
use m365_copilot2api_docker.Dict.{Dict, get, put, get-put}
use m365_copilot2api_docker.Messages.{Message}
use m365_copilot2api_docker.Text.{trim, byte_len}
use m365_copilot2api_docker.Ledger.{
  Evidence, Ledger, empty_ledger, empty_tally, compact_tool_result, add_result, gather, note_call,
  note_result, tally, build_ledger, active_messages, active_from, can_continue, results_pending,
  count_up, add_calls, of_id,
}

-- A question, one call of the model without arguments, and the result that the client returns.
abbrev pub turn : String → String → String → List Message
turn id name result =
    record {
      role = "user";
      name = "";
      content = "go on";
      calls_given = false;
      tool_calls = [];
      tool_call_id = "";
    }
    ∷ record {
      role = "assistant";
      name = "";
      content = "";
      tool_call_id = "";
      calls_given = true;
      tool_calls = record { id = id; name = name; arguments = "{}"; argument_text = "{}" } ∷ [];
    }
    ∷ record {
      role = "tool";
      name = "";
      content = result;
      calls_given = false;
      tool_calls = [];
      tool_call_id = id;
    }
    ∷ []

found_put : (d : Dict Evidence) (id : String) (e : Evidence) → get (put d id e) id ≡ some e
found_put d id e = get-put d id e id ∙ rw (eq_refl id) refl

module _ (is_failure : List ℕ → Bool) (normalize : List ℕ → String)
    (truncate : List ℕ → List ℕ) where
  compact-blank :
      (text : String) → trim text ≡ [] → compact_tool_result is_failure normalize truncate text ≡ []
  unfolding compact_tool_result byte_len
  compact-blank text h = rw h refl

  abbrev asked : String → String → Evidence
  asked id name = record { id = id; name = name; arguments = "{}"; result = []; failed = false }

  called :
      (id name : String)
      → str_eq id "" ≡ false
      → add_calls
          (record { id = id; name = name; arguments = "{}"; argument_text = "{}" } ∷ [])
          ([], [])
        ≡ (put [] id (asked id name), id ∷ [])
  unfolding add_calls
  called id name h = rw h refl

  returned :
      (id name text : String)
      → trim text ≡ []
      → add_result is_failure normalize truncate
          (record {
            role = "tool";
            name = "";
            content = text;
            calls_given = false;
            tool_calls = [];
            tool_call_id = id;
          })
          (put [] id (asked id name), id ∷ [])
        ≡ (
          put (put [] id (asked id name)) id (record (asked id name) { failed = is_failure [] }),
          id ∷ [],
        )
  unfolding add_result
  returned id name text h =
      rw (add_result, found_put [] id (asked id name), compact-blank text h) refl

  gathered :
      (id name text : String)
      → str_eq id "" ≡ false
      → trim text ≡ []
      → gather is_failure normalize truncate (turn id name text) ([], []) ≡ (
        put (put [] id (asked id name)) id (record (asked id name) { failed = is_failure [] }),
        id ∷ [],
      )
  unfolding gather
  gathered id name text f h = rw (called id name f) (returned id name text h)

  abbrev after_turn : String → String → Ledger
  after_turn id name = record empty_ledger {
    pending = record (asked id name) { failed = is_failure [] } ∷ [];
    tool_rounds = 1;
  }

  noted :
      (e : Evidence)
      → e.result ≡ []
      → (note_result is_failure normalize truncate e (note_call e empty_tally)).ledger
        ≡ record empty_ledger { pending = e ∷ []; tool_rounds = 1 }
  unfolding note_call note_result count_up get
  noted e empty = rw empty refl

  tallied :
      (calls : Dict Evidence) (id : String) (e : Evidence)
      → get calls id ≡ some e
      → e.result ≡ []
      → (tally is_failure normalize truncate calls (id ∷ []) empty_tally).ledger
        ≡ record empty_ledger { pending = e ∷ []; tool_rounds = 1 }
  unfolding tally
  tallied calls id e found empty =
      let same : of_id is_failure normalize truncate calls id ≡ e = rw (of_id, found) refl in
      ap (λ x. (note_result is_failure normalize truncate x (note_call x empty_tally)).ledger) same
      ∙ noted e empty

  built :
      (id name text : String)
      → str_eq id "" ≡ false
      → trim text ≡ []
      → build_ledger is_failure normalize truncate (turn id name text) ≡ after_turn id name
  unfolding build_ledger
  built id name text f h =
      ap (λ g. (tally is_failure normalize truncate g.0 g.1 empty_tally).ledger)
        (gathered id name text f h)
      ∙ tallied _ id _ (found_put (put [] id (asked id name)) id _) refl

  -- In a conversation of a question, one call with an id, any name and no arguments, and its result
  -- without text, the call stays pending, so under a limit of more than one round the conversation is
  -- refused although the result was returned.
  pub blank_result_blocks :
      (id name text : String) (max_rounds : ℕ)
      → id ≢ ""
      → trim text ≡ []
      → 1 < max_rounds
      → can_continue max_rounds
          (build_ledger is_failure normalize truncate (active_messages (turn id name text)))
        ≡ some results_pending
  unfolding active_messages active_from can_continue
  blank_result_blocks id name text max_rounds n h lt =
      let fresh : str_eq id "" ≡ false = ground (arith, eq_iff id "") in
      ap (can_continue max_rounds) (built id name text fresh h) ∙ ground arith
