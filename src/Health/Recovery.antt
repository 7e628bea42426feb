-- ===== src/Health/Recovery.antt =====
-- Accounts recover: no mark outlives its cooldown (internal/web/account_health.go).
use m365_copilot2api_docker.Base.{
  ℕ, ◌+◌, ◌*◌, minute, add_duration, Bool-cases, inl, inr, if◌then◌else◌, ◌≤◌, ◌≡◌, String, true,
  false, List, [], ◌∷◌, eq_refl, is_some, arith, str_eq, eq_iff, or_zero, ◌<◌, ◌⊎◌,
}
use m365_copilot2api_docker.Dict.{get, remove, get-put, get-remove, dict_laws}
use m365_copilot2api_docker.Upstream.{
  Failure, Category, forbidden_403, quota_429, client_canceled, cooldown_for, retry_after_seconds,
}
use m365_copilot2api_docker.Circuit.{Circuit, is_open, classify}
use m365_copilot2api_docker.Health.{Health, fresh, holds, cleanup, mark_call, mark_image_limited}
use m365_copilot2api_docker.Health.Failures.{mark_failure, mark_success, fail, is_designer}
use m365_copilot2api_docker.Health.Queries.{available}

-- A mark is set only beside a cooldown, whose end clears it.
pub record IsCooling (h : Health) : Type 0 where
  pub auth : (id : String) → holds h.auth_fail id ≡ true → is_some (get h.cooldown id) ≡ true
  pub quota : (id : String) → holds h.limited id ≡ true → is_some (get h.cooldown id) ≡ true

cleanup-IsCooling :
    (id : String) (now : ℕ) (h : Health) → IsCooling h → IsCooling (cleanup id now h)
unfolding cleanup
cleanup-IsCooling id now h v = record {
  auth = λ j.
      ground
        (arith, get-remove h.cooldown id j, get-remove h.auth_fail id j, v.auth j, eq_iff id j);
  quota = λ j.
      ground (arith, get-remove h.cooldown id j, get-remove h.limited id j, v.quota j, eq_iff id j);
}

-- What the two branches of the quota case do to the marks.
module _ (id : String) (now : ℕ) (e : Failure) (window : ℕ) (h : Health) (j : String) where
  attempt : ℕ
  attempt = or_zero 0 (get h.quota_attempts id) + 1

  quota_marks :
      (holds (fail quota_429 id now e window h).auth_fail j
        ≡ (if str_eq id j then false else holds h.auth_fail j))
      × (holds (fail quota_429 id now e window h).limited j
          ≡ (if str_eq id j then true else holds h.limited j))
      × (is_some (get (fail quota_429 id now e window h).cooldown j)
          ≡ (if str_eq id j then true else is_some (get h.cooldown j)))
  unfolding fail attempt
  quota_marks = ground (
    arith,
    get-remove h.auth_fail id j,
    get-put h.limited id true j,
    get-put h.cooldown id (now + 15 * minute) j,
    get-put h.cooldown id
        (add_duration now (cooldown_for quota_429 (retry_after_seconds e) attempt)) j,
  )

fail-IsCooling :
    (cat : Category) (id : String) (now : ℕ) (e : Failure) (window : ℕ) (h : Health)
    → IsCooling h
    → IsCooling (fail cat id now e window h)
fail-IsCooling client_canceled id now e window h v = unfold fail in v
fail-IsCooling quota_429 id now e window h v = record {
  auth = λ j. ground (arith, quota_marks id now e window h j, v.auth j);
  quota = λ j. ground (arith, quota_marks id now e window h j, v.quota j);
}
fail-IsCooling forbidden_403 id now e window h v =
    elim (Bool-cases (is_designer e.as_http e.as_dial)) [
      | inl exempt ↦ unfold fail in rw exempt v
      | inr counted ↦
          unfold fail in
          rw counted (record {
            auth = λ j. simp dict_laws (ground (arith, v.auth j));
            quota = λ j. simp dict_laws (ground (arith, v.quota j));
          })
    ]
fail-IsCooling _ id now e window h v =
    unfold fail in
    record {
      auth = λ j. simp dict_laws (ground (arith, v.auth j));
      quota = λ j. simp dict_laws (ground (arith, v.quota j));
    }

mark_call-IsCooling :
    (id : String) (now : ℕ) (h : Health) → IsCooling h → IsCooling (mark_call id now h)
unfolding mark_call
mark_call-IsCooling id now h v = elim (Bool-cases (str_eq id "")) [
  | inl unnamed ↦ rw unnamed v
  | inr named ↦
      let w = cleanup-IsCooling id now h v in rw named (record { auth = w.auth; quota = w.quota })
]

mark_image_limited-IsCooling :
    (id : String) (now : ℕ) (h : Health) → IsCooling h → IsCooling (mark_image_limited id now h)
unfolding mark_image_limited
mark_image_limited-IsCooling id now h v = elim (Bool-cases (str_eq id "")) [
  | inl unnamed ↦ rw unnamed v
  | inr named ↦ rw named (record {
    auth = λ j. simp dict_laws (ground (arith, v.auth j));
    quota = λ j. simp dict_laws (ground (arith, v.quota j));
  })
]

mark_success-IsCooling :
    (id : String) (now : ℕ) (h : Health) (c : Circuit)
    → IsCooling h
    → IsCooling (mark_success id now (h, c)).0
unfolding mark_success
mark_success-IsCooling id now h c v = record {
  auth = λ j. ground (
    arith,
    v.auth j,
    get-remove h.auth_fail id j,
    get-remove h.cooldown id j,
    get-put (remove h.cooldown id) id (or_zero 0 (get h.image_limit_until id)) j,
  );
  quota = λ j. ground (
    arith,
    v.quota j,
    get-remove h.limited id j,
    get-remove h.cooldown id j,
    get-put (remove h.cooldown id) id (or_zero 0 (get h.image_limit_until id)) j,
  );
}

-- The calls that change the marks of an account.
pub data Event : Type 0 where
  called image_limit_hit succeeded asked : Event
  failed : Failure → ℕ → Event

pub step : ℕ → String → Event → Health × Circuit → Health × Circuit
step now id called (h, c) = (mark_call id now h, c)
step now id image_limit_hit (h, c) = (mark_image_limited id now h, c)
step now id succeeded s = mark_success id now s
step now id asked s = (available id now s).1
step now id (failed e window) s = mark_failure id now e window s

pub run : List (ℕ × String × Event) → Health × Circuit → Health × Circuit
run [] s = s
run ((now, id, event) ∷ rest) s = run rest (step now id event s)

step-IsCooling :
    (now : ℕ) (id : String) (event : Event) (h : Health) (c : Circuit)
    → IsCooling h
    → IsCooling (step now id event (h, c)).0
unfolding step
step-IsCooling now id called h c v = mark_call-IsCooling id now h v
step-IsCooling now id image_limit_hit h c v = mark_image_limited-IsCooling id now h v
step-IsCooling now id succeeded h c v = mark_success-IsCooling id now h c v
step-IsCooling now id asked h c v = unfold available in cleanup-IsCooling id now h v
step-IsCooling now id (failed e window) h c v =
    unfold mark_failure in fail-IsCooling (classify now e c).0 id now e window h v

run-IsCooling_from :
    (events : List (ℕ × String × Event)) (h : Health) (c : Circuit)
    → IsCooling h
    → IsCooling (run events (h, c)).0
unfolding run
run-IsCooling_from [] h c v = v
run-IsCooling_from ((now, id, event) ∷ rest) h c v =
    let s = step now id event (h, c) in
    run-IsCooling_from rest s.0 s.1 (step-IsCooling now id event h c v)

-- At a moment a cooldown still lasts, or what a question about the account makes of the marks is none.
abbrev pub IsClearing : String → ℕ → Health → Type 0
IsClearing id now h =
    (now < or_zero 0 (get h.cooldown id))
    ⊎ ((holds (cleanup id now h).auth_fail id ≡ false)
        × (holds (cleanup id now h).limited id ≡ false))

cooling-IsClearing : (id : String) (now : ℕ) (h : Health) → IsCooling h → IsClearing id now h
unfolding cleanup
cooling-IsClearing id now h v = ground (
  arith,
  v.auth id,
  v.quota id,
  get-remove h.auth_fail id id,
  get-remove h.limited id id,
  eq_refl id,
)

-- Where every account that is marked as refused or limited cools down, this holds after any history of
-- calls, failures and successes; and at any moment later, each account still cools down or the first
-- question about it leaves no mark.
pub run-IsCooling :
    (events : List (ℕ × String × Event)) (h : Health) (c : Circuit) (id : String) (later : ℕ)
    → IsCooling h
    → IsCooling (run events (h, c)).0 × IsClearing id later (run events (h, c)).0
run-IsCooling events h c id later v =
    let w = run-IsCooling_from events h c v in
    (w, cooling-IsClearing id later (run events (h, c)).0 w)

pub fresh-IsCooling : IsCooling fresh.0
unfolding get
fresh-IsCooling = record { auth = λ j p. cc; quota = λ j p. cc }

-- Where every account that is marked cools down, one is available once its cooldown has passed and
-- the circuit's deadline too.
pub available_again :
    (id : String) (now : ℕ) (h : Health) (c : Circuit)
    → IsCooling h
    → or_zero 0 (get h.cooldown id) ≤ now
    → c.open_until ≤ now
    → (available id now (h, c)).0 ≡ true
unfolding available cleanup is_open
available_again id now h c v over closed_by =
    ground (arith, v.auth id, get-remove h.auth_fail id id, get-remove h.cooldown id id, eq_refl id)
