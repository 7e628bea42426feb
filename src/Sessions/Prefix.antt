-- ===== src/Sessions/Prefix.antt =====
-- What a match by prefix says of the conversation (internal/web/session_resolver.go).
use m365_copilot2api_docker.Base.{
  ℕ, ◌≤◌, ◌≡◌, refl, String, true, some, List, [], ◌∷◌, ◌++◌, arith, eq_iff, eq_refl, length, inl,
  inr, take, drop, length-append,
}
use m365_copilot2api_docker.Dict.{get, IsDict}
use m365_copilot2api_docker.Messages.{Message, Call}
use m365_copilot2api_docker.Budget.{Atom, build_atoms}
use m365_copilot2api_docker.Budget.Grouping.{messages_of}
use m365_copilot2api_docker.Sessions.{Binding, Resolver, Request, evict}
use m365_copilot2api_docker.Sessions.Matching.{
  calls_equal, messages_equal, starts_with, context_prefix_len,
}
use m365_copilot2api_docker.Sessions.Boundary.{IsEnd, ends_at-IsEnd, IsEnd-ends_at, IsEnd-messages}
use m365_copilot2api_docker.Sessions.Eviction.{evict-IsDict}
use m365_copilot2api_docker.Sessions.Resolving.{
  explicit, context_prefix, context_suffix, Resumed, resume, resolve,
}
use m365_copilot2api_docker.Sessions.Outcomes.{kept_outcome}

-- The same calls, but for their ids.
abbrev pub SameCalls : List Call → List Call → Type 0
SameCalls [] [] = Unit
SameCalls [] (y ∷ ys) = ⊥
SameCalls (x ∷ xs) [] = ⊥
SameCalls (x ∷ xs) (y ∷ ys) =
    (x.name ≡ y.name) × (x.argument_text ≡ y.argument_text) × SameCalls xs ys

-- The same message, but for its name and the ids.
abbrev pub SameMessage : Message → Message → Type 0
SameMessage a b =
    (a.role ≡ b.role)
    × (a.content ≡ b.content)
    × (a.calls_given ≡ b.calls_given)
    × SameCalls a.tool_calls b.tool_calls

-- The first messages are the same one by one.
abbrev pub IsPrefix : List Message → List Message → Type 0
IsPrefix [] ms = Unit
IsPrefix (h ∷ hs) [] = ⊥
IsPrefix (h ∷ hs) (m ∷ ms) = SameMessage h m × IsPrefix hs ms

calls_equal-SameCalls : (xs ys : List Call) → calls_equal xs ys ≡ true → SameCalls xs ys
unfolding calls_equal
calls_equal-SameCalls [] [] h = tt
calls_equal-SameCalls [] (y ∷ ys) h = cc
calls_equal-SameCalls (x ∷ xs) [] h = cc
calls_equal-SameCalls (x ∷ xs) (y ∷ ys) h = ground (
  arith,
  calls_equal-SameCalls xs ys,
  eq_iff x.name y.name,
  eq_iff x.argument_text y.argument_text,
)

calls_equal_refl : (xs : List Call) → calls_equal xs xs ≡ true
unfolding calls_equal
calls_equal_refl [] = refl
calls_equal_refl (x ∷ xs) =
    ground (arith, calls_equal_refl xs, eq_refl x.name, eq_refl x.argument_text)

messages_equal-SameMessage : (a b : Message) → messages_equal a b ≡ true → SameMessage a b
unfolding messages_equal
messages_equal-SameMessage a b h = ground (
  arith,
  calls_equal-SameCalls a.tool_calls b.tool_calls,
  eq_iff a.role b.role,
  eq_iff a.content b.content,
)

messages_equal_refl : (m : Message) → messages_equal m m ≡ true
unfolding messages_equal
messages_equal_refl m =
    ground (arith, calls_equal_refl m.tool_calls, eq_refl m.role, eq_refl m.content)

starts_with-IsPrefix : (hist ms : List Message) → starts_with hist ms ≡ true → IsPrefix hist ms
unfolding starts_with
starts_with-IsPrefix [] ms h = tt
starts_with-IsPrefix (x ∷ hist) [] h = cc
starts_with-IsPrefix (x ∷ hist) (m ∷ ms) h =
    ground (arith, messages_equal-SameMessage x m, starts_with-IsPrefix hist ms)

starts_with-append : (hist more : List Message) → starts_with hist (hist ++ more) ≡ true
unfolding starts_with
starts_with-append [] more = refl
starts_with-append (x ∷ hist) more =
    ground (arith, messages_equal_refl x, starts_with-append hist more)

module _ (content_text : Message → String) (call_text : Call → String) where
  -- The history stands at the front of the conversation, and an atom ends where it ends.
  pub context_prefix_len-lem :
      (hist ms : List Message)
      → 1 ≤ context_prefix_len content_text call_text hist ms
      → (context_prefix_len content_text call_text hist ms ≡ length hist)
        × IsPrefix hist ms
        × IsEnd (length hist) 0 (build_atoms content_text call_text ms)
  unfolding context_prefix_len
  context_prefix_len-lem hist ms h = ground (
    arith,
    starts_with-IsPrefix hist ms,
    ends_at-IsEnd (length hist) 0 (build_atoms content_text call_text ms),
  )

  pub context_prefix_len-append :
      (hist more : List Message) (front back : List Atom)
      → 1 ≤ length hist
      → build_atoms content_text call_text (hist ++ more) ≡ front ++ back
      → length (messages_of front) ≡ length hist
      → context_prefix_len content_text call_text hist (hist ++ more) ≡ length hist
  unfolding context_prefix_len
  context_prefix_len-append hist more front back long split size = rw split (
      ground (
        arith,
        length-append hist more,
        starts_with-append hist more,
        IsEnd-ends_at (length hist) 0 front back,
        size,
      ))

module _ (content_text : Message → String) (call_text : Call → String)
    (key_hash digest : String → String) where
  -- Where each session stands once in the map and Resolve answers a match by prefix, the history
  -- of the session whose conversation it answers stands message for message at the front of the
  -- request, HistoryLen is its length, and the cut there separates no atom.
  pub resolved_prefix :
      (now : ℕ) (q : Request) (ms : List Message) (r : Resolver) (a : Resumed) (n : ℕ)
      → IsDict r.sessions
      → (resolve content_text call_text key_hash digest now q ms r).1 ≡ some a
      → a.matched_by ≡ context_prefix n
      → (k : String) × (s : Binding) × (get (evict now r).sessions k ≡ some s)
        × (a.conversation_id ≡ s.conversation_id)
        × (a.history_len ≡ length s.context_history)
        × IsPrefix s.context_history ms
        × ((front back : List Atom) × (build_atoms content_text call_text ms ≡ front ++ back)
            × (messages_of front ≡ take a.history_len ms)
            × (messages_of back ≡ drop a.history_len ms))
  unfolding resolve resume
  resolved_prefix now q ms r a n h e by =
      elim (kept_outcome content_text call_text key_hash digest now q ms (evict now r)
        (evict-IsDict now r h)) [
          | inl nothing ↦ ground (arith, nothing)
          | inr (k, s, explicit, m, out, found, mine, why) ↦ ground (arith, out)
          | inr (k, s, context_suffix l, m, out, found, mine, why) ↦ ground (arith, out)
          | inr (k, s, context_prefix l, m, out, found, mine, why) ↦
              let long : 1 ≤ context_prefix_len content_text call_text s.context_history ms =
                omega (arith, why.1, why.2) in
              let (size, same, end) =
                context_prefix_len-lem content_text call_text s.context_history ms long in
              let (front, back, split, place) = end in
              let number : a.history_len ≡ m = ground (arith, out) in
              let all : a.history_len ≡ length s.context_history =
                omega (arith, number, why.1, size) in
              let len : a.history_len ≡ length (messages_of front) = omega (arith, all, place) in
              let (first, last) = IsEnd-messages content_text call_text ms front back split in
              (
                k,
                s,
                found,
                ground (arith, out),
                all,
                same,
                (front, back, split, rw len first, rw len last),
              )
        ]
