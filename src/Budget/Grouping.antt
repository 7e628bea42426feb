-- ===== src/Budget/Grouping.antt =====
-- Grouping loses nothing: the atoms hold all messages in order, with their tokens.
use m365_copilot2api_docker.Base.{
  ℕ, zero, suc, ◌+◌, ◌≤◌, ◌≡◌, ◌≢◌, refl, String, Bool, List, [], ◌∷◌, ◌++◌, arith, length, All,
  ◌∙◌,
}
use m365_copilot2api_docker.Messages.{Message, Call}
use m365_copilot2api_docker.Budget.{
  Atom, is_system, is_tool, split_while, total_of, atom, group, mark_anchor, build_atoms,
}

unfoldable pub messages_of : List Atom → List Message
messages_of [] = []
messages_of (a ∷ rest) = a.msgs ++ messages_of rest

split_while-append :
    (p : Message → Bool) (ms : List Message) → (split_while p ms).0 ++ (split_while p ms).1 ≡ ms
unfolding split_while
split_while-append p [] = refl
split_while-append p (m ∷ ms) = ground (arith, split_while-append p ms)

length-split_while :
    (p : Message → Bool) (ms : List Message) → length (split_while p ms).1 ≤ length ms
unfolding split_while
length-split_while p [] = omega arith
length-split_while p (m ∷ ms) = ground (arith, length-split_while p ms)

module _ (content_text : Message → String) (call_text : Call → String) where
  messages_of-group :
      (f : ℕ) (ms : List Message)
      → length ms ≤ f
      → messages_of (group content_text call_text f ms) ≡ ms
  unfolding group messages_of atom
  messages_of-group zero [] h = refl
  messages_of-group zero (m ∷ ms) h = absurd (omega arith)
  messages_of-group (suc f) [] h = refl
  messages_of-group (suc f) (m ∷ ms) h = ground (
    arith,
    messages_of-group f ms,
    messages_of-group f (split_while is_system ms).1,
    messages_of-group f (split_while is_tool ms).1,
    length-split_while is_system ms,
    length-split_while is_tool ms,
    split_while-append is_system ms,
    split_while-append is_tool ms,
  )

messages_of-mark_anchor : (atoms : List Atom) → messages_of (mark_anchor atoms) ≡ messages_of atoms
unfolding messages_of mark_anchor
messages_of-mark_anchor [] = refl
messages_of-mark_anchor (a ∷ rest) = ground (arith, messages_of-mark_anchor rest)

-- Each atom has the tokens of its messages.
abbrev pub IsWeighed : (Message → String) → (Call → String) → List Atom → Type 0
IsWeighed content_text call_text = All (λ a. a.tokens ≡ total_of content_text call_text a.msgs)

mark_anchor-IsWeighed :
    (content_text : Message → String) (call_text : Call → String) (atoms : List Atom)
    → IsWeighed content_text call_text atoms
    → IsWeighed content_text call_text (mark_anchor atoms)
unfolding mark_anchor
mark_anchor-IsWeighed content_text call_text [] w = w
mark_anchor-IsWeighed content_text call_text (a ∷ rest) w =
    ground (arith, mark_anchor-IsWeighed content_text call_text rest w.1)

-- An atom that holds a message.
abbrev pub Nonempty : Atom → Type 0
Nonempty a = a.msgs ≢ []

mark_anchor-Nonempty : (atoms : List Atom) → All Nonempty atoms → All Nonempty (mark_anchor atoms)
unfolding mark_anchor
mark_anchor-Nonempty [] n = n
mark_anchor-Nonempty (a ∷ rest) n = ground (arith, n.0, mark_anchor-Nonempty rest n.1)

module _ (content_text : Message → String) (call_text : Call → String) where
  group-IsWeighed :
      (f : ℕ) (ms : List Message)
      → IsWeighed content_text call_text (group content_text call_text f ms)
  unfolding group atom
  group-IsWeighed zero ms = tt
  group-IsWeighed (suc f) [] = tt
  group-IsWeighed (suc f) (m ∷ ms) = ground (
    arith,
    group-IsWeighed f ms,
    group-IsWeighed f (split_while is_system ms).1,
    group-IsWeighed f (split_while is_tool ms).1,
  )

  -- Grouping loses, repeats and reorders no message, and each atom has the tokens of its messages.
  pub build_atoms_partition :
      (ms : List Message)
      → (messages_of (build_atoms content_text call_text ms) ≡ ms)
        × IsWeighed content_text call_text (build_atoms content_text call_text ms)
  unfolding build_atoms
  build_atoms_partition ms = (
    messages_of-mark_anchor (group content_text call_text (length ms) ms)
        ∙ messages_of-group content_text call_text (length ms) ms (omega arith),
    mark_anchor-IsWeighed content_text call_text _ (group-IsWeighed (length ms) ms),
  )

  pub total_of-append :
      (ms ns : List Message)
      → total_of content_text call_text (ms ++ ns)
        ≡ total_of content_text call_text ms + total_of content_text call_text ns
  unfolding total_of
  total_of-append [] ns = omega arith
  total_of-append (m ∷ ms) ns = omega (arith, total_of-append ms ns)

  group-Nonempty : (f : ℕ) (ms : List Message) → All Nonempty (group content_text call_text f ms)
  unfolding group atom
  group-Nonempty zero ms = tt
  group-Nonempty (suc f) [] = tt
  group-Nonempty (suc f) (m ∷ ms) = ground (
    arith,
    group-Nonempty f ms,
    group-Nonempty f (split_while is_system ms).1,
    group-Nonempty f (split_while is_tool ms).1,
  )

  pub build_atoms-Nonempty :
      (ms : List Message) → All Nonempty (build_atoms content_text call_text ms)
  unfolding build_atoms
  build_atoms-Nonempty ms = mark_anchor-Nonempty _ (group-Nonempty (length ms) ms)
