-- ===== src/Proxies/Rotation.antt =====
-- The round robin of the proxy pool (pick, internal/outbound/pool.go).
use native.Mathlib.Nat.{mod-lt, mod-eq_of_lt, mod-add-mod, add-mod_right}
use m365_copilot2api_docker.Base.{
  ℕ, zero, suc, ◌+◌, ◌-◌, ◌%◌, ◌≤◌, ◌<◌, ◌≡◌, ◌≢◌, refl, Option, none, some, List, [], ◌∷◌, ltb,
  leb, ◌==◌, get_elem?, length, arith, Option-cases, Bool-cases, inl, inr, sym, ap, subst, ◌∙◌, ◌⊎◌,
}
use m365_copilot2api_docker.Proxies.{Entry, Pool, scan, fallback, choose, pick}

get_elem?-some : (es : List Entry) (i : ℕ) → i < length es → (e : Entry) × (get_elem? es i ≡ some e)
get_elem?-some [] i h = absurd (omega arith)
get_elem?-some (e ∷ es) zero h = (e, refl)
get_elem?-some (e ∷ es) (suc i) h = get_elem?-some es i (omega arith)

-- An entry, if there is one, that cools down.
abbrev pub Cooling : ℕ → Option Entry → Type 0
Cooling now none = Unit
Cooling now (some e) = now < e.cooldown

-- The entry `i` places after `next`.
abbrev pub at : List Entry → ℕ → ℕ → Option Entry
at es next i = get_elem? es ((next + i) % length es)

-- What `k` entries after `next` a scan answers.
abbrev pub Found : List Entry → ℕ → ℕ → Entry × ℕ → ℕ → Type 0
Found es next now (e, n) k =
    (at es next k ≡ some e) × (e.cooldown ≤ now) × (n ≡ (next + k + 1) % length es)

scan-some :
    (es : List Entry) (next now left i : ℕ) (r : Entry × ℕ)
    → scan es next now left i ≡ some r
    → (k : ℕ) × (i ≤ k)
      × (k < i + left)
      × Found es next now r k
      × ((j : ℕ) → i ≤ j → j < k → Cooling now (at es next j))
unfolding scan
scan-some es next now zero i r e = cc
scan-some es next now (suc left) i r e = elim (Option-cases (at es next i)) [
  | inl missing ↦ absurd (ground (arith, missing))
  | inr (x, there) ↦ elim (Bool-cases (ltb now x.cooldown)) [
    | inl cold ↦
        let later : scan es next now left (i + 1) ≡ some r = ground (arith, there) in
        let (k, low, high, found, before) = scan-some es next now left (i + 1) r later in
        (k, omega arith, omega arith, found, λ j a b. ground (arith, before j, there))
    | inr ready ↦
        (i, omega arith, omega arith, ground (arith, there), λ j a b. absurd (omega arith))
  ]
]

scan-none :
    (es : List Entry) (next now left i : ℕ)
    → 0 < length es
    → scan es next now left i ≡ none
    → (j : ℕ) → i ≤ j
    → j < i + left
    → Cooling now (at es next j)
unfolding scan
scan-none es next now zero i h e j a b = absurd (omega arith)
scan-none es next now (suc left) i h e j a b =
    let (x, there) = get_elem?-some es ((next + i) % length es) (mod-lt (next + i) h) in
    elim (Bool-cases (j == i)) [
      | inl here ↦ ground (arith, there)
      | inr other ↦
          scan-none es next now left (i + 1) h (ground (arith, there)) j (ground arith)
            (omega arith)
    ]

-- Every index is met within one round.
reach : (n next j : ℕ) → j < n → (k : ℕ) × (k < n) × ((next + k) % n ≡ j)
reach n next j h =
    let r = next % n in
    let small : r < n = mod-lt next (omega arith) in
    elim (Bool-cases (leb r j)) [
      | inl low ↦
          let sum : r + (j - r) ≡ j = ground arith in
          (
            j - r,
            ground arith,
            sym (mod-add-mod next n (j - r)) ∙ ap (λ m. m % n) sum ∙ mod-eq_of_lt h,
          )
      | inr high ↦
          let sum : r + (j + n - r) ≡ j + n = ground arith in
          (
            j + n - r,
            ground arith,
            sym (mod-add-mod next n (j + n - r))
                ∙ ap (λ m. m % n) sum
                ∙ add-mod_right j n
                ∙ mod-eq_of_lt h,
          )
    ]

get_elem?-bound : (es : List Entry) (i : ℕ) (e : Entry) → get_elem? es i ≡ some e → i < length es
get_elem?-bound [] i e h = cc
get_elem?-bound (x ∷ es) zero e h = omega arith
get_elem?-bound (x ∷ es) (suc i) e h = omega (arith, get_elem?-bound es i e h)

-- The place that is taken, and the ones before it, which all cool down. One that cools down is taken
-- only where all do, and then it is the first.
abbrev pub Turn : List Entry → ℕ → ℕ → Entry × ℕ → Type 0
Turn es next now (e, n) =
    (k : ℕ) × (k < length es)
    × (at es next k ≡ some e)
    × (n ≡ (next + k + 1) % length es)
    × ((j : ℕ) → j < k → Cooling now (at es next j))
    × ((e.cooldown ≤ now) ⊎ ((k ≡ 0) × ((j : ℕ) → j < length es → Cooling now (at es next j))))

choose-Turn :
    (es : List Entry) (next now : ℕ) (r : Entry × ℕ)
    → choose es next now ≡ some r
    → Turn es next now r
unfolding choose fallback
choose-Turn [] next now r e = cc
choose-Turn (x ∷ es) next now r e =
    elim (Option-cases (scan (x ∷ es) next now (length (x ∷ es)) 0)) [
      | inl nothing ↦
          let (y, there) =
            get_elem?-some (x ∷ es) (next % length (x ∷ es)) (mod-lt next (omega arith)) in
          let cold = scan-none (x ∷ es) next now (length (x ∷ es)) 0 (omega arith) nothing in
          (
            0,
            omega arith,
            ground (arith, there, nothing),
            ground (arith, there, nothing),
            λ j a. absurd (omega arith),
            inr (refl, λ j a. cold j (omega arith) (omega arith)),
          )
      | inr (f, found) ↦
          let (k, low, high, ok, before) =
            scan-some (x ∷ es) next now (length (x ∷ es)) 0 f found in
          let same : f ≡ r = ground (arith, found) in
          rw (← same) (k, omega arith, ok.0, ok.2, λ j a. before j (omega arith) a, inl ok.1)
    ]

-- Picking takes the first ready proxy after the last one taken, in cyclic order, and continues
-- behind it; it takes one that cools down only where all do, and then the next in order.
pub round_robin :
    (p : Pool) (now : ℕ) (e : Entry) (q : Pool)
    → pick p now ≡ some (e, q)
    → (q.entries ≡ p.entries) × Turn p.entries p.next now (e, q.next)
unfolding pick
round_robin p now e q h = elim (Option-cases (choose p.entries p.next now)) [
  | inl nothing ↦ ground (arith, nothing)
  | inr (r, found) ↦
      let same : Path (Entry × Pool) (r.0, record p { next = r.1 }) (e, q) =
        ground (arith, found) in
      let turn = choose-Turn p.entries p.next now r found in
      (
        sym (ap (λ x. x.1.entries) same),
        subst (Turn p.entries p.next now) (ap (λ x. (x.0, x.1.next)) same) turn,
      )
]

choose-some :
    (es : List Entry) (next now : ℕ) → es ≢ [] → (r : Entry × ℕ) × (choose es next now ≡ some r)
unfolding choose fallback
choose-some [] next now n = absurd (n refl)
choose-some (x ∷ es) next now n =
    let (y, there) = get_elem?-some (x ∷ es) (next % length (x ∷ es)) (mod-lt next (omega arith)) in
    elim (Option-cases (scan (x ∷ es) next now (length (x ∷ es)) 0)) [
      | inl nothing ↦ ((y, (next + 1) % length (x ∷ es)), ground (arith, nothing, there))
      | inr (f, found) ↦ (f, ground (arith, found))
    ]

-- While one proxy is ready, picking succeeds and answers a ready one.
pub ready_picked :
    (p : Pool) (now i : ℕ) (e : Entry)
    → get_elem? p.entries i ≡ some e
    → e.cooldown ≤ now
    → (f : Entry) × (q : Pool) × (pick p now ≡ some (f, q)) × (f.cooldown ≤ now)
unfolding pick
ready_picked p now i e there ready =
    let full : p.entries ≢ [] = λ empty. ground (arith, empty, there) in
    let ((f, n), found) = choose-some p.entries p.next now full in
    let (_, _, _, _, _, fit) = choose-Turn p.entries p.next now (f, n) found in
    let (k, low, place) = reach (length p.entries) p.next i (get_elem?-bound p.entries i e there) in
    let met : Cooling now (at p.entries p.next k) → e.cooldown ≤ now → f.cooldown ≤ now =
      rw (place, there) (λ cold warm. absurd (omega arith)) in
    (
      f,
      record p { next = n },
      ground (arith, found),
      elim fit [ inl warm ↦ warm | inr (first, cold) ↦ met (cold k low) ready ],
    )
