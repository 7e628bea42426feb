-- ===== src/Sessions/Best.antt =====
-- What the search for the best match finds (internal/web/session_resolver.go).
use m365_copilot2api_docker.Base.{
  ℕ, ◌≤◌, ◌≡◌, refl, String, Bool, true, false, some, [], ◌∷◌, arith, str_eq, eq_iff, eq_refl,
  if◌then◌else◌, is_some, ◌∙◌, Bool-cases, inl, inr, ◌⊎◌, ltb, leb, ◌==◌, ◌&&◌, ◌||◌,
}
use m365_copilot2api_docker.Dict.{Dict, get, IsDict}
use m365_copilot2api_docker.Sessions.{Binding}
use m365_copilot2api_docker.Sessions.Matching.{Match, best_match}

-- A session of the map that passes the test and has the score.
abbrev pub IsMatch : (Binding → Bool) → (Binding → ℕ) → ℕ → Dict Binding → Match → Type 0
IsMatch eligible score least d m =
    (s : Binding) × (get d m.id ≡ some s) × (eligible s ≡ true) × (m.n ≡ score s) × (least ≤ m.n)

module _ (eligible : Binding → Bool) (score : Binding → ℕ) (least : ℕ) where
  abbrev better : Binding → Match → Bool
  better s best =
      eligible s
      && leb least (score s)
      && (ltb best.n (score s) || (score s == best.n && ltb best.recent s.last_used_at))

  next : String → Binding → Match → Match
  next k s best =
      if better s best then record { id = k; n = score s; recent = s.last_used_at } else best

  best_match-next :
      (k : String) (s : Binding) (d : Dict Binding) (best : Match)
      → best_match eligible score least ((k, s) ∷ d) best
        ≡ best_match eligible score least d (next k s best)
  unfolding best_match next
  best_match-next k s d best = refl

  widen :
      (k : String) (s : Binding) (d : Dict Binding) (m : Match)
      → is_some (get d k) ≡ false
      → IsMatch eligible score least d m
      → IsMatch eligible score least ((k, s) ∷ d) m
  unfolding get
  widen k s d m absent (t, found, e, n, l) =
      (t, ground (arith, found, absent, eq_iff k m.id), e, n, l)

  next-IsMatch :
      (k : String) (s : Binding) (d : Dict Binding) (best : Match)
      → (next k s best ≡ best) ⊎ IsMatch eligible score least ((k, s) ∷ d) (next k s best)
  unfolding next get
  next-IsMatch k s d best = elim (Bool-cases (better s best)) [
    | inl h ↦ inr (rw h (s, rw (eq_refl k) refl, ground (arith, h), refl, ground (arith, h)))
    | inr h ↦ inl (rw h refl)
  ]

  pub best_match-IsMatch :
      (d : Dict Binding) (best : Match)
      → IsDict d
      → (best_match eligible score least d best ≡ best)
        ⊎ IsMatch eligible score least d (best_match eligible score least d best)
  unfolding best_match
  best_match-IsMatch [] best h = inl refl
  best_match-IsMatch ((k, s) ∷ d) best h = elim (best_match-IsMatch d (next k s best) h.1) [
    | inr m ↦ inr (
        rw (best_match-next k s d best)
          (widen k s d (best_match eligible score least d (next k s best)) h.0 m))
    | inl e ↦ elim (next-IsMatch k s d best) [
      | inl same ↦ inl (best_match-next k s d best ∙ e ∙ same)
      | inr m ↦ inr (rw (best_match-next k s d best) (rw e m))
    ]
  ]

  next-n : (k : String) (s : Binding) (best : Match) → best.n ≤ (next k s best).n
  unfolding next
  next-n k s best = ground arith

  best_match-n :
      (d : Dict Binding) (best : Match) → best.n ≤ (best_match eligible score least d best).n
  unfolding best_match
  best_match-n [] best = omega arith
  best_match-n ((k, s) ∷ d) best =
      rw (best_match-next k s d best)
        (omega (arith, best_match-n d (next k s best), next-n k s best))

  next-taken :
      (k : String) (s : Binding) (best : Match)
      → eligible s ≡ true
      → least ≤ score s
      → score s ≤ (next k s best).n
  unfolding next
  next-taken k s best e l = ground (arith, e, l)

  -- No session that passes the test has a higher score.
  pub best_match-longest :
      (d : Dict Binding) (best : Match) (k : String) (s : Binding)
      → get d k ≡ some s
      → eligible s ≡ true
      → least ≤ score s
      → score s ≤ (best_match eligible score least d best).n
  unfolding get
  best_match-longest [] best k s found e l = cc
  best_match-longest ((j, t) ∷ d) best k s found e l =
      rw (best_match-next j t d best) (elim (Bool-cases (str_eq j k)) [
        | inl here ↦
            let same : t ≡ s = ground (arith, here) in
            rw (← same) (
              omega (
                arith,
                next-taken j t best (rw same e) (rw same l),
                best_match-n d (next j t best),
              ))
        | inr other ↦ best_match-longest d (next j t best) k s (ground (arith, other)) e l
      ])
