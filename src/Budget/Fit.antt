-- ===== src/Budget/Fit.antt =====
-- What slidingWindow returns fits the budget (internal/web/context_budget.go).
use m365_copilot2api_docker.Base.{
  ℕ, ◌+◌, ◌-◌, ◌≤◌, ◌<◌, ◌≡◌, refl, ◌⊎◌, String, Bool, true, false, List, [], ◌∷◌, ◌++◌, ◌&&◌, ◌||◌,
  arith, ◌==◌, Bool-cases, inl, inr, if◌then◌else◌, ap, ltb, leb, All, not,
}
use m365_copilot2api_docker.Messages.{Message, Call}
use m365_copilot2api_docker.Budget.{
  Atom, kind_is_anchor, Marked, window, frame_tokens, pin, fill, marked_tokens, all_tokens,
  chosen_messages, assemble, choose, shorten, total_of, build_atoms, sliding_window,
}
use m365_copilot2api_docker.Budget.Grouping.{
  messages_of, IsWeighed, Nonempty, build_atoms-Nonempty, build_atoms_partition, total_of-append,
}

-- What is selected takes from the tokens that remain.
marked_tokens-fill :
    (l : List Marked) (r : ℕ) → marked_tokens (fill l r).0 + (fill l r).1 ≡ marked_tokens l + r
unfolding marked_tokens fill
marked_tokens-fill [] r = refl
marked_tokens-fill ((a, true) ∷ l) r = omega (arith, marked_tokens-fill l r)
marked_tokens-fill ((a, false) ∷ l) r = ground (arith, marked_tokens-fill l r)

abbrev pub atoms_of : List Marked → List Atom
atoms_of [] = []
atoms_of ((a, b) ∷ l) = a ∷ atoms_of l

pub atoms_of-fill : (l : List Marked) (r : ℕ) → atoms_of (fill l r).0 ≡ atoms_of l
unfolding fill
atoms_of-fill [] r = refl
atoms_of-fill ((a, true) ∷ l) r = ap (◌∷◌ a) (atoms_of-fill l r)
atoms_of-fill ((a, false) ∷ l) r = ground (arith, atoms_of-fill l r)

pub atoms_of-pin : (seen : Bool) (l : List Atom) → atoms_of (pin seen l).0 ≡ l
unfolding pin
atoms_of-pin seen [] = refl
atoms_of-pin seen (a ∷ l) = ap (◌∷◌ a) (atoms_of-pin (seen || kind_is_anchor a.kind && not seen) l)

-- Where nothing is selected, nothing was pinned, and each atom needs more than remains.
abbrev pub Unfit : ℕ → List Marked → Type 0
Unfit r [] = Unit
Unfit r ((a, b) ∷ l) = (b ≡ false) × (r < a.tokens) × Unfit r l

nil_of_append : (xs ys : List Message) → xs ++ ys ≡ [] → xs ≡ []
nil_of_append [] ys e = refl
nil_of_append (x ∷ xs) ys e = cc

pub fill-Unfit :
    (l : List Marked) (r : ℕ)
    → All Nonempty (atoms_of l)
    → chosen_messages (fill l r).0 ≡ []
    → Unfit r l × ((fill l r).1 ≡ r)
unfolding fill chosen_messages
fill-Unfit [] r n e = (tt, refl)
fill-Unfit ((a, true) ∷ l) r n e = absurd (n.0 (nil_of_append a.msgs _ e))
fill-Unfit ((a, false) ∷ l) r n e =
    ground (arith, n.0, fill-Unfit l r n.1, nil_of_append a.msgs (chosen_messages (fill l r).0))

-- Each atom alone needs more than the budget.
abbrev pub TooHeavy : ℕ → List Atom → Type 0
TooHeavy budget = All (λ a. budget < a.tokens + frame_tokens)

Unfit-TooHeavy :
    (r budget : ℕ) (l : List Marked)
    → budget ≤ r + frame_tokens
    → Unfit r l
    → TooHeavy budget (atoms_of l)
Unfit-TooHeavy r budget [] h u = tt
Unfit-TooHeavy r budget ((a, b) ∷ l) h u = (omega arith, Unfit-TooHeavy r budget l h u.2)

Unfit-tokens : (r : ℕ) (l : List Marked) → Unfit r l → marked_tokens l ≡ 0
unfolding marked_tokens
Unfit-tokens r [] u = refl
Unfit-tokens r ((a, true) ∷ l) u = cc
Unfit-tokens r ((a, false) ∷ l) u = Unfit-tokens r l u.2

module _ (content_text : Message → String) (call_text : Call → String) where
  chosen_tokens :
      (l : List Marked)
      → IsWeighed content_text call_text (atoms_of l)
      → total_of content_text call_text (chosen_messages l) ≡ marked_tokens l
  unfolding chosen_messages marked_tokens total_of
  chosen_tokens [] w = refl
  chosen_tokens ((a, true) ∷ l) w = omega (
    arith,
    w.0,
    chosen_tokens l w.1,
    total_of-append content_text call_text a.msgs (chosen_messages l),
  )
  chosen_tokens ((a, false) ∷ l) w = chosen_tokens l w.1

  all_tokens_of :
      (l : List Atom)
      → IsWeighed content_text call_text l
      → total_of content_text call_text (messages_of l) ≡ all_tokens l
  unfolding messages_of all_tokens total_of
  all_tokens_of [] w = refl
  all_tokens_of (a ∷ l) w = omega (
    arith,
    w.0,
    all_tokens_of l w.1,
    total_of-append content_text call_text a.msgs (messages_of l),
  )

  -- Either the messages fit, or each atom alone is too heavy.
  abbrev Fits : ℕ → List Atom → List Message → Type 0
  Fits budget atoms out =
      (total_of content_text call_text out + frame_tokens ≤ budget) ⊎ TooHeavy budget atoms

  assemble-Fits :
      (cs : List Message) (l : List Marked) (budget r : ℕ) (out : List Message) (t : Bool)
      → chosen_messages (fill l r).0 ≡ cs
      → IsWeighed content_text call_text (atoms_of l)
      → All Nonempty (atoms_of l)
      → frame_tokens + marked_tokens l + r ≡ budget
      → assemble (atoms_of l) (fill l r).0 ≡ window out t
      → Fits budget (atoms_of l) out
  unfolding assemble
  assemble-Fits [] l budget r out t c w n b e =
      let (u, _) = fill-Unfit l r n c in
      inr (Unfit-TooHeavy r budget l (omega (arith, Unfit-tokens r l u)) u)
  assemble-Fits (m ∷ ms) l budget r out t c w n b e =
      let same : chosen_messages (fill l r).0 ≡ out = ground (arith, c) in
      let weighed : IsWeighed content_text call_text (atoms_of (fill l r).0) = rw atoms_of-fill w in
      inl (rw (← same) (omega (arith, chosen_tokens (fill l r).0 weighed, marked_tokens-fill l r)))

  choose-Fits :
      (atoms : List Atom) (budget : ℕ) (out : List Message) (t : Bool)
      → IsWeighed content_text call_text atoms
      → All Nonempty atoms
      → choose atoms budget ≡ window out t
      → Fits budget atoms out
  unfolding choose
  choose-Fits atoms budget out t w n e =
      let marked = (pin false atoms).0 in
      let need = frame_tokens + marked_tokens marked in
      let same : atoms_of marked ≡ atoms = atoms_of-pin false atoms in
      elim (Bool-cases (ltb budget need)) [
        | inl h ↦ ground arith
        | inr h ↦
            let chosen : assemble atoms (fill marked (budget - need)).0 ≡ window out t =
              ground arith in
            let enough : need + (budget - need) ≡ budget = ground arith in
            rw (← same) (
              assemble-Fits _ marked budget (budget - need) out t refl (rw same w) (rw same n)
                enough (rw same chosen))
      ]

  shorten-Fits :
      (atoms : List Atom) (budget : ℕ) (out : List Message) (t : Bool)
      → IsWeighed content_text call_text atoms
      → All Nonempty atoms
      → shorten (messages_of atoms) atoms budget ≡ window out t
      → Fits budget atoms out
  unfolding shorten
  shorten-Fits [] budget out t w n e = inr tt
  shorten-Fits (a ∷ rest) budget out t w n e =
      elim (Bool-cases (leb (all_tokens (a ∷ rest) + frame_tokens) budget)) [
        | inl h ↦
            let whole : messages_of (a ∷ rest) ≡ out = ground arith in
            inl (rw (← whole) (ground (arith, all_tokens_of (a ∷ rest) w)))
        | inr h ↦ choose-Fits (a ∷ rest) budget out t w n (ground arith)
      ]

  -- What slidingWindow returns fits the budget, with 1024 for no budget, unless every atom alone
  -- is too heavy for it.
  pub window-Fits :
      (ms : List Message) (budget : ℕ) (out : List Message) (t : Bool)
      → sliding_window content_text call_text ms budget ≡ window out t
      → Fits (if budget == 0 then 1024 else budget) (build_atoms content_text call_text ms) out
  unfolding sliding_window
  window-Fits ms budget out t e =
      let (whole, weighed) = build_atoms_partition content_text call_text ms in
      shorten-Fits _ _ out t weighed (build_atoms-Nonempty content_text call_text ms) (rw whole e)
