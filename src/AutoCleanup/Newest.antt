-- ===== src/AutoCleanup/Newest.antt =====
-- Which conversations go where more than the allowed number are left (internal/web/auto_cleanup.go).
use m365_copilot2api_docker.Base.{
  ℕ, zero, suc, ◌+◌, ◌≤◌, ◌≡◌, refl, List, [], ◌∷◌, drop, take, arith, All, length, ◌∙◌, ap,
}
use m365_copilot2api_docker.AutoCleanup.{Candidate, insert_created, by_creation, beyond}

abbrev Ascending : List Candidate → Type 0
Ascending [] = Unit
Ascending (x ∷ xs) = All (λ y. x.created ≤ y.created) xs × Ascending xs

insert_created-above :
    (bound : ℕ) (x : Candidate) (xs : List Candidate)
    → bound ≤ x.created
    → All (λ y. bound ≤ y.created) xs
    → All (λ y. bound ≤ y.created) (insert_created x xs)
unfolding insert_created
insert_created-above bound x [] h a = (h, tt)
insert_created-above bound x (y ∷ ys) h a = ground (arith, insert_created-above bound x ys h a.1, a)

lower_bound :
    (a b : ℕ) (xs : List Candidate)
    → a ≤ b
    → All (λ y. b ≤ y.created) xs
    → All (λ y. a ≤ y.created) xs
lower_bound a b [] le h = tt
lower_bound a b (x ∷ xs) le h = (omega arith, lower_bound a b xs le h.1)

insert_created-Ascending :
    (x : Candidate) (xs : List Candidate) → Ascending xs → Ascending (insert_created x xs)
unfolding insert_created
insert_created-Ascending x [] d = (tt, tt)
insert_created-Ascending x (y ∷ ys) d = ground (
  arith,
  insert_created-Ascending x ys d.1,
  insert_created-above y.created x ys,
  lower_bound x.created y.created ys,
  d,
)

by_creation-Ascending : (xs : List Candidate) → Ascending (by_creation xs)
unfolding by_creation
by_creation-Ascending [] = tt
by_creation-Ascending (x ∷ xs) =
    insert_created-Ascending x (by_creation xs) (by_creation-Ascending xs)

length-insert_created :
    (x : Candidate) (xs : List Candidate) → length (insert_created x xs) ≡ suc (length xs)
unfolding insert_created
length-insert_created x [] = refl
length-insert_created x (y ∷ ys) = ground (arith, length-insert_created x ys)

length-by_creation : (xs : List Candidate) → length (by_creation xs) ≡ length xs
unfolding by_creation
length-by_creation [] = refl
length-by_creation (x ∷ xs) =
    length-insert_created x (by_creation xs) ∙ ap suc (length-by_creation xs)

All-drop :
    (bound n : ℕ) (xs : List Candidate)
    → All (λ y. bound ≤ y.created) xs
    → All (λ y. bound ≤ y.created) (drop n xs)
All-drop bound zero xs a = a
All-drop bound (suc n) [] a = a
All-drop bound (suc n) (x ∷ xs) a = All-drop bound n xs a.1

split_older :
    (n : ℕ) (xs : List Candidate)
    → Ascending xs
    → All (λ x. All (λ y. x.created ≤ y.created) (drop n xs)) (take n xs)
split_older zero xs a = tt
split_older (suc n) [] a = tt
split_older (suc n) (x ∷ xs) a = (All-drop x.created n xs a.0, split_older n xs a.1)

length-take-drop :
    (n : ℕ) (xs : List Candidate) → length (take n xs) + length (drop n xs) ≡ length xs
length-take-drop zero xs = omega arith
length-take-drop (suc n) [] = omega arith
length-take-drop (suc n) (x ∷ xs) = omega (arith, length-take-drop n xs)

length-take_most : (n : ℕ) (xs : List Candidate) → length (take n xs) ≤ n
length-take_most zero xs = omega arith
length-take_most (suc n) [] = omega arith
length-take_most (suc n) (x ∷ xs) = omega (arith, length-take_most n xs)

-- Of the candidates that are not stale, at most the allowed number are kept, and each of them was made
-- no later than each that is deleted: where there are too many, the newest ones go.
pub newest_deleted :
    (keep : ℕ) (rest : List Candidate)
    → (length (take keep (by_creation rest)) + length (beyond keep rest) ≡ length rest)
      × (length (take keep (by_creation rest)) ≤ keep)
      × All
          (λ x. All (λ y. x.created ≤ y.created) (beyond keep rest))
          (take keep (by_creation rest))
unfolding beyond
newest_deleted keep rest = (
  length-take-drop keep (by_creation rest) ∙ length-by_creation rest,
  length-take_most keep (by_creation rest),
  split_older keep (by_creation rest) (by_creation-Ascending rest),
)
