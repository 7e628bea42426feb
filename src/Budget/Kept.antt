-- ===== src/Budget/Kept.antt =====
-- What slidingWindow keeps: every system message (internal/web/context_budget.go).
use m365_copilot2api_docker.Base.{
  if◌then◌else◌, ◌==◌, ℕ, zero, suc, ◌+◌, ◌-◌, ◌≡◌, refl, String, Bool, true, false, List, [], ◌∷◌,
  ◌++◌, ◌&&◌, ◌||◌, arith, Bool-cases, inl, inr, ap, sym, ◌∙◌, ltb, leb, All, length, select, not,
}
use m365_copilot2api_docker.Messages.{Message, Call}
use m365_copilot2api_docker.Text.{is_word_unique}
use m365_copilot2api_docker.Budget.{
  Atom, kind_is_system, kind_is_anchor, Marked, window, frame_tokens, pin, fill, marked_tokens,
  all_tokens, chosen_messages, last_messages, assemble, choose, is_system, is_tool, split_while,
  build_atoms, sliding_window, shorten, group, atom, mark_anchor,
}
use m365_copilot2api_docker.Budget.Grouping.{messages_of, build_atoms_partition}
use m365_copilot2api_docker.Budget.Fit.{atoms_of, atoms_of-pin, atoms_of-fill}

abbrev pub systems : List Message → List Message
systems = select is_system

systems-append : (ms ns : List Message) → systems (ms ++ ns) ≡ systems ms ++ systems ns
systems-append [] ns = refl
systems-append (m ∷ ms) ns = ground (arith, systems-append ms ns)

-- An atom of another kind holds no system message.
abbrev Sorted : List Atom → Type 0
Sorted = All (λ a. kind_is_system a.kind ≡ false → systems a.msgs ≡ [])

-- An atom that is not marked is no system atom.
abbrev Pinned : List Marked → Type 0
Pinned [] = Unit
Pinned ((a, b) ∷ l) = (b ≡ false → kind_is_system a.kind ≡ false) × Pinned l

pin-Pinned : (seen : Bool) (l : List Atom) → Pinned (pin seen l).0
unfolding pin
pin-Pinned seen [] = tt
pin-Pinned seen (a ∷ l) = (ground arith, pin-Pinned (seen || kind_is_anchor a.kind && not seen) l)

fill-Pinned : (l : List Marked) (r : ℕ) → Pinned l → Pinned (fill l r).0
unfolding fill
fill-Pinned [] r p = tt
fill-Pinned ((a, true) ∷ l) r p = (p.0, fill-Pinned l r p.1)
fill-Pinned ((a, false) ∷ l) r p = ground (arith, p.0, fill-Pinned l r p.1)

chosen_systems :
    (l : List Marked)
    → Pinned l
    → Sorted (atoms_of l)
    → systems (chosen_messages l) ≡ systems (messages_of (atoms_of l))
unfolding chosen_messages messages_of
chosen_systems [] p s = refl
chosen_systems ((a, true) ∷ l) p s = ground (
  arith,
  systems-append a.msgs (chosen_messages l),
  systems-append a.msgs (messages_of (atoms_of l)),
  chosen_systems l p.1 s.1,
)
chosen_systems ((a, false) ∷ l) p s =
    ground
      (arith, systems-append a.msgs (messages_of (atoms_of l)), chosen_systems l p.1 s.1, s.0, p.0)

nil_of_append : (xs ys : List Message) → xs ++ ys ≡ [] → (xs ≡ []) × (ys ≡ [])
nil_of_append [] ys e = (refl, e)
nil_of_append (x ∷ xs) ys e = cc

last_systems : (l : List Atom) → systems (messages_of l) ≡ [] → systems (last_messages l) ≡ []
unfolding messages_of last_messages
last_systems [] e = refl
last_systems (a ∷ []) e = (nil_of_append (systems a.msgs) _ (sym (systems-append a.msgs []) ∙ e)).0
last_systems (a ∷ b ∷ l) e =
    last_systems (b ∷ l)
      (nil_of_append (systems a.msgs) _ (sym (systems-append a.msgs (messages_of (b ∷ l))) ∙ e)).1

is_tool_excludes_system : (m : Message) → is_tool m ≡ true → is_system m ≡ false
unfolding is_tool is_system
is_tool_excludes_system m h =
    ground
      (arith, is_word_unique m.role "tool" "system" h, is_word_unique m.role "tool" "developer" h)

tool_run : (ms : List Message) → systems (split_while is_tool ms).0 ≡ []
unfolding split_while
tool_run [] = refl
tool_run (m ∷ ms) = ground (arith, tool_run ms, is_tool_excludes_system m)

mark_anchor-Sorted : (atoms : List Atom) → Sorted atoms → Sorted (mark_anchor atoms)
unfolding mark_anchor
mark_anchor-Sorted [] s = s
mark_anchor-Sorted (a ∷ rest) s = ground (arith, s.0, mark_anchor-Sorted rest s.1)

module _ (content_text : Message → String) (call_text : Call → String) where
  group-Sorted : (f : ℕ) (ms : List Message) → Sorted (group content_text call_text f ms)
  unfolding group atom
  group-Sorted zero ms = tt
  group-Sorted (suc f) [] = tt
  group-Sorted (suc f) (m ∷ ms) = ground (
    arith,
    group-Sorted f ms,
    group-Sorted f (split_while is_system ms).1,
    group-Sorted f (split_while is_tool ms).1,
    tool_run ms,
  )

  build_atoms-Sorted : (ms : List Message) → Sorted (build_atoms content_text call_text ms)
  unfolding build_atoms
  build_atoms-Sorted ms = mark_anchor-Sorted _ (group-Sorted (length ms) ms)

assemble-systems :
    (cs : List Message) (atoms : List Atom) (chosen : List Marked) (out : List Message) (t : Bool)
    → chosen_messages chosen ≡ cs
    → systems cs ≡ systems (messages_of atoms)
    → assemble atoms chosen ≡ window out t
    → systems out ≡ systems (messages_of atoms)
unfolding assemble
assemble-systems [] atoms chosen out t c s e =
    let last : last_messages atoms ≡ out = ground (arith, c) in
    rw (← last) (last_systems atoms (sym s) ∙ s)
assemble-systems (m ∷ ms) atoms chosen out t c s e =
    let same : m ∷ ms ≡ out = ground (arith, c) in rw (← same) s

choose-systems :
    (atoms : List Atom) (budget : ℕ) (out : List Message) (t : Bool)
    → Sorted atoms
    → choose atoms budget ≡ window out t
    → systems out ≡ systems (messages_of atoms)
unfolding choose
choose-systems atoms budget out t s e =
    let marked = (pin false atoms).0 in
    let need = frame_tokens + marked_tokens marked in
    let chosen = (fill marked (budget - need)).0 in
    let same : atoms_of chosen ≡ atoms =
      atoms_of-fill marked (budget - need) ∙ atoms_of-pin false atoms in
    let kept : systems (chosen_messages chosen) ≡ systems (messages_of (atoms_of chosen)) =
      chosen_systems chosen (fill-Pinned marked _ (pin-Pinned false atoms)) (rw same s) in
    elim (Bool-cases (ltb budget need)) [
      | inl h ↦ ground arith
      | inr h ↦
          let done : assemble atoms chosen ≡ window out t = ground arith in
          assemble-systems _ atoms chosen out t refl (kept ∙ ap (λ l. systems (messages_of l)) same)
            done
    ]

shorten-systems :
    (atoms : List Atom) (budget : ℕ) (out : List Message) (t : Bool)
    → Sorted atoms
    → shorten (messages_of atoms) atoms budget ≡ window out t
    → systems out ≡ systems (messages_of atoms)
unfolding shorten
shorten-systems [] budget out t s e = ground arith
shorten-systems (a ∷ rest) budget out t s e =
    elim (Bool-cases (leb (all_tokens (a ∷ rest) + frame_tokens) budget)) [
      | inl h ↦ ground arith
      | inr h ↦ choose-systems (a ∷ rest) budget out t s (ground arith)
    ]

module _ (content_text : Message → String) (call_text : Call → String) where
  -- Shortening keeps every system and developer message, in order and once.
  pub system_kept :
      (ms : List Message) (budget : ℕ) (out : List Message) (t : Bool)
      → sliding_window content_text call_text ms budget ≡ window out t
      → systems out ≡ systems ms
  unfolding sliding_window
  system_kept ms budget out t e =
      let atoms = build_atoms content_text call_text ms in
      let (whole, _) = build_atoms_partition content_text call_text ms in
      shorten-systems atoms (if budget == 0 then 1024 else budget) out t
        (build_atoms-Sorted content_text call_text ms) (rw whole e)
      ∙ ap systems whole
