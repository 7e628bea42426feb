-- ===== src/Sessions/Boundary.antt =====
-- Positions in a conversation at which an atom ends (contextPrefixLen,
-- internal/web/session_resolver.go).
use m365_copilot2api_docker.Base.{
  ℕ, ◌+◌, ◌≡◌, refl, true, List, [], ◌∷◌, ◌++◌, arith, length, take, drop, length-append, ◌==◌, ◌∙◌,
  ap, sym, Bool-cases, inl, inr, append_assoc, String, ==_iff, ◌<◌,
}
use m365_copilot2api_docker.Messages.{Message, Call}
use m365_copilot2api_docker.Budget.{Atom, build_atoms}
use m365_copilot2api_docker.Budget.Grouping.{messages_of, build_atoms_partition}
use m365_copilot2api_docker.Sessions.Matching.{ends_at}

-- Some of the first atoms hold a number of messages.
abbrev pub IsEnd : ℕ → ℕ → List Atom → Type 0
IsEnd n begin atoms =
    (front back : List Atom) × (atoms ≡ front ++ back) × (begin + length (messages_of front) ≡ n)

pub ends_at-IsEnd :
    (n begin : ℕ) (atoms : List Atom) → ends_at n begin atoms ≡ true → IsEnd n begin atoms
unfolding ends_at messages_of
ends_at-IsEnd n begin [] h = cc
ends_at-IsEnd n begin (a ∷ rest) h = elim (Bool-cases (begin + length a.msgs == n)) [
  | inl here ↦ (
    a ∷ [],
    rest,
    refl,
    omega (arith, length-append a.msgs [], (==_iff (begin + length a.msgs) n).0 here),
  )
  | inr other ↦
      let later : ends_at n (begin + length a.msgs) rest ≡ true = ground (arith, other) in
      let (front, back, same, size) = ends_at-IsEnd n (begin + length a.msgs) rest later in
      (
        a ∷ front,
        back,
        ap (λ xs. a ∷ xs) same,
        omega (arith, size, length-append a.msgs (messages_of front)),
      )
]

-- An end that is not where the atoms begin is found.
pub IsEnd-ends_at :
    (n begin : ℕ) (front back : List Atom)
    → begin + length (messages_of front) ≡ n
    → begin < n
    → ends_at n begin (front ++ back) ≡ true
unfolding ends_at messages_of
IsEnd-ends_at n begin [] back e lt = absurd (omega arith)
IsEnd-ends_at n begin (a ∷ front) back e lt = ground (
  arith,
  e,
  length-append a.msgs (messages_of front),
  IsEnd-ends_at n (begin + length a.msgs) front back,
)

messages_of-append :
    (front back : List Atom) → messages_of (front ++ back) ≡ messages_of front ++ messages_of back
unfolding messages_of
messages_of-append [] back = refl
messages_of-append (a ∷ front) back =
    ap (λ ms. a.msgs ++ ms) (messages_of-append front back)
    ∙ sym (append_assoc a.msgs (messages_of front) (messages_of back))

take-append {ℓ} : {A : Type ℓ} (xs ys : List A) → take (length xs) (xs ++ ys) ≡ xs
take-append [] ys = refl
take-append (x ∷ xs) ys = ap (λ zs. x ∷ zs) (take-append xs ys)

pub drop-append {ℓ} : {A : Type ℓ} (xs ys : List A) → drop (length xs) (xs ++ ys) ≡ ys
drop-append [] ys = refl
drop-append (x ∷ xs) ys = drop-append xs ys

-- The atoms in front of an end hold the messages in front of it, and the others the rest.
pub IsEnd-messages :
    (content_text : Message → String) (call_text : Call → String) (ms : List Message)
    (front back : List Atom)
    → build_atoms content_text call_text ms ≡ front ++ back
    → (messages_of front ≡ take (length (messages_of front)) ms)
      × (messages_of back ≡ drop (length (messages_of front)) ms)
IsEnd-messages content_text call_text ms front back e =
    let all =
      sym (build_atoms_partition content_text call_text ms).0
      ∙ ap messages_of e
      ∙ messages_of-append front back in
    (
      sym (
          ap (take (length (messages_of front))) all
          ∙ take-append (messages_of front) (messages_of back)),
      sym (
          ap (drop (length (messages_of front))) all
          ∙ drop-append (messages_of front) (messages_of back)),
    )
