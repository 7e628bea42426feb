-- ===== src/Sessions/Kept.antt =====
-- How much of a conversation a session remembers (cloneMessages,
-- internal/web/session_resolver.go).
use m365_copilot2api_docker.Base.{
  ℕ, ◌+◌, ◌≤◌, ◌≡◌, ◌≢◌, refl, true, List, [], ◌∷◌, ◌++◌, arith, length, drop, length-append, ◌==◌,
  ltb, leb, ◌∙◌, ap, sym, Bool-cases, inl, inr, ◌⊎◌, String, leb→le, All, subst,
}
use m365_copilot2api_docker.Messages.{Message, Call}
use m365_copilot2api_docker.Budget.{Atom, build_atoms}
use m365_copilot2api_docker.Budget.Grouping.{
  messages_of, Nonempty, build_atoms-Nonempty, build_atoms_partition,
}
use m365_copilot2api_docker.Sessions.History.{
  Cut, cut_from, last_start, start_of, clone_messages, max_history,
}
use m365_copilot2api_docker.Sessions.Boundary.{IsEnd-messages}

-- Where the loop over the atoms has come to: the atoms behind the start, counted.
abbrev IsCut : ℕ → List Atom → Cut → Type 0
IsCut begin atoms c =
    (front back : List Atom) × (atoms ≡ front ++ back)
    × (c.start ≡ begin + length (messages_of front))
    × (c.count ≡ length (messages_of back))
    × (c.count ≤ max_history)
    × ((c.stopped ≡ true) ⊎ (front ≡ []))

cut_from-IsCut : (begin : ℕ) (atoms : List Atom) → IsCut begin atoms (cut_from begin atoms)
unfolding cut_from messages_of
cut_from-IsCut begin [] = ([], [], refl, omega arith, refl, omega arith, inr refl)
cut_from-IsCut begin (a ∷ rest) =
    let later = cut_from (begin + length a.msgs) rest in
    let (front, back, same, start, count, small, why) =
      cut_from-IsCut (begin + length a.msgs) rest in
    elim (Bool-cases later.stopped) [
      | inl stopped ↦ rw stopped (
        a ∷ front,
        back,
        ap (λ xs. a ∷ xs) same,
        omega (arith, start, length-append a.msgs (messages_of front)),
        count,
        small,
        inl refl,
      )
      | inr going ↦ elim why [
        | inl stopped ↦ ground (arith, going, stopped)
        | inr none_left ↦
            let whole : rest ≡ back = same ∙ ap (λ xs. xs ++ back) none_left in
            let at : later.start ≡ begin + length a.msgs = start ∙ rw none_left (omega arith) in
            elim (Bool-cases (ltb max_history (later.count + length a.msgs))) [
              | inl full ↦
                  rw (going, full)
                    (
                      a ∷ [],
                      back,
                      ap (λ xs. a ∷ xs) whole,
                      omega (arith, at, length-append a.msgs []),
                      count,
                      small,
                      inl refl,
                    )
              | inr fits ↦
                  rw (going, fits)
                    (
                      [],
                      a ∷ back,
                      ap (λ xs. a ∷ xs) whole,
                      omega arith,
                      omega (arith, count, length-append a.msgs (messages_of back)),
                      ground (arith, fits),
                      inr refl,
                    )
            ]
      ]
    ]

last_start-lem :
    (begin : ℕ) (a : Atom) (atoms : List Atom)
    → (front : List Atom) × (z : Atom) × (a ∷ atoms ≡ front ++ z ∷ [])
      × (last_start begin (a ∷ atoms) ≡ begin + length (messages_of front))
unfolding last_start messages_of
last_start-lem begin a [] = ([], a, refl, omega arith)
last_start-lem begin a (b ∷ rest) =
    let (front, z, same, start) = last_start-lem (begin + length a.msgs) b rest in
    (
      a ∷ front,
      z,
      ap (λ xs. a ∷ xs) same,
      omega (arith, start, length-append a.msgs (messages_of front)),
    )

-- The start that is chosen is an end of atoms: what follows is small, or the last atom alone.
start_of-IsEnd :
    (size : ℕ) (a : Atom) (atoms : List Atom)
    → (front back : List Atom) × (a ∷ atoms ≡ front ++ back)
      × (start_of size (a ∷ atoms) ≡ length (messages_of front))
      × (((1 ≤ length (messages_of back)) × (length (messages_of back) ≤ max_history))
          ⊎ ((z : Atom) × (back ≡ z ∷ [])))
unfolding start_of
start_of-IsEnd size a atoms =
    let (front, back, same, start, count, small, why) = cut_from-IsCut 0 (a ∷ atoms) in
    elim (Bool-cases ((cut_from 0 (a ∷ atoms)).count == 0)) [
      | inl nothing ↦
          let (before, z, split, last) = last_start-lem 0 a atoms in
          (before, z ∷ [], split, rw nothing (omega (arith, last)), inr (z, refl))
      | inr something ↦ (
        front,
        back,
        same,
        rw something (omega (arith, start)),
        inl (ground (arith, something, count), omega (arith, count, small)),
      )
    ]

All-last : (front : List Atom) (z : Atom) → All Nonempty (front ++ z ∷ []) → Nonempty z
All-last [] z h = h.0
All-last (a ∷ front) z h = All-last front z h.1

length-nonempty : (ms : List Message) → ms ≢ [] → 1 ≤ length ms
length-nonempty [] h = absurd (h refl)
length-nonempty (m ∷ ms) h = omega arith

module _ (content_text : Message → String) (call_text : Call → String) where
  abbrev pub Remembers : List Message → List Message → Type 0
  Remembers ms out =
      (front back : List Atom) × (build_atoms content_text call_text ms ≡ front ++ back)
      × (out ≡ messages_of back)
      × (1 ≤ length out)
      × ((length out ≤ max_history) ⊎ ((z : Atom) × (back ≡ z ∷ [])))

  remembered :
      (ms : List Message) (atoms : List Atom)
      → build_atoms content_text call_text ms ≡ atoms
      → 1 ≤ length ms
      → Remembers ms (drop (start_of (length ms) atoms) ms)
  unfolding messages_of
  remembered ms [] e long =
      let none_left : ms ≡ [] =
        sym (build_atoms_partition content_text call_text ms).0 ∙ ap messages_of e in
      absurd (omega (arith, ap length none_left))
  remembered ms (a ∷ atoms) e long =
      let (front, back, split, start, why) = start_of-IsEnd (length ms) a atoms in
      let (_, rest) = IsEnd-messages content_text call_text ms front back (e ∙ split) in
      let out : drop (start_of (length ms) (a ∷ atoms)) ms ≡ messages_of back =
        ap (λ n. drop n ms) start ∙ sym rest in
      let nonempty =
        subst (All Nonempty) (e ∙ split) (build_atoms-Nonempty content_text call_text ms) in
      elim why [
        | inl (some_left, small) ↦
            (front, back, e ∙ split, out, rw out some_left, inl (rw out small))
        | inr (z, last) ↦
            let held = All-last front z (subst (λ b. All Nonempty (front ++ b)) last nonempty) in
            let size : 1 ≤ length (messages_of back) =
              rw last (omega (arith, length-append z.msgs [], length-nonempty z.msgs held)) in
            (front, back, e ∙ split, out, rw out size, inr (z, last))
      ]

  -- A conversation of at most 512 messages is remembered as it is. Of a longer one the last atoms
  -- are remembered, at least one message and at most 512, or else the last atom alone: what is
  -- remembered never begins inside an atom.
  pub clone_messages_lem :
      (ms : List Message)
      → ((clone_messages content_text call_text ms ≡ ms) × (length ms ≤ max_history))
        ⊎ Remembers ms (clone_messages content_text call_text ms)
  unfolding clone_messages
  clone_messages_lem ms = elim (Bool-cases (leb (length ms) max_history)) [
    | inl few ↦ inl (rw few refl, leb→le (length ms) max_history few)
    | inr many ↦ inr (
        rw many (remembered ms (build_atoms content_text call_text ms) refl (ground (arith, many))))
  ]
