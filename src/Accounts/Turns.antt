-- ===== src/Accounts/Turns.antt =====
-- The accounts take turns (Next, internal/auth/cache.go).
use native.Mathlib.Nat.{mod-add-mod, mod-lt}
use m365_copilot2api_docker.Base.{
  ℕ, zero, suc, ◌+◌, ◌%◌, ◌<◌, ◌≡◌, ◌≢◌, refl, String, true, Option, List, [], ◌∷◌, length,
  get_elem?, arith, ◌∙◌, ap, ==_iff, is_some, Bool-cases, inl, inr, some, none, ◌==◌,
}
use m365_copilot2api_docker.Accounts.{
  Account, Store, schedule_enabled, next_account, get_account, ensure_valid,
}

-- What Next does where there are accounts.
pub next_account-some :
    (s : Store)
    → length s.accounts ≢ 0
    → next_account s ≡ (
      record s { next_idx = (s.next_idx + 1) % length s.accounts },
      get_elem? s.accounts (s.next_idx % length s.accounts),
    )
unfolding next_account
next_account-some s h = ground (arith, h, ==_iff (length s.accounts) 0)

pub schedule_enabled-next_account :
    (id : String) (s : Store) → schedule_enabled id (next_account s).0 ≡ schedule_enabled id s
unfolding schedule_enabled next_account
schedule_enabled-next_account id s = ground arith

-- The account in turn after a number of others.
abbrev pub in_turn : ℕ → Store → Option Account
in_turn k s = get_elem? s.accounts ((s.next_idx + k) % length s.accounts)

pub in_turn-next_account :
    (k : ℕ) (s : Store) → length s.accounts ≢ 0 → in_turn k (next_account s).0 ≡ in_turn (suc k) s
in_turn-next_account k s h =
    let sum : s.next_idx + 1 + k ≡ s.next_idx + suc k = omega arith in
    rw (next_account-some s h) (
      ap (λ i. get_elem? s.accounts i)
        (mod-add-mod (s.next_idx + 1) (length s.accounts) k ∙ ap (λ i. i % length s.accounts) sum))

pub length-next_account :
    (s : Store) → length s.accounts ≢ 0 → length (next_account s).0.accounts ≢ 0
length-next_account s h = rw (next_account-some s h) h

pub next_account-in_turn : (s : Store) → length s.accounts ≢ 0 → (next_account s).1 ≡ in_turn 0 s
next_account-in_turn s h =
    let here : s.next_idx ≡ s.next_idx + 0 = omega arith in
    ap (λ x. x.1) (next_account-some s h)
    ∙ ap (λ i. get_elem? s.accounts (i % length s.accounts)) here

get_elem?-some : (l : List Account) (i : ℕ) → i < length l → is_some (get_elem? l i) ≡ true
get_elem?-some [] i h = absurd (omega (arith, h))
get_elem?-some (a ∷ l) zero h = refl
get_elem?-some (a ∷ l) (suc i) h = get_elem?-some l i (omega (arith, h))

pub next_account-is_some : (s : Store) → length s.accounts ≢ 0 → is_some (next_account s).1 ≡ true
next_account-is_some s h = rw (next_account-some s h) (
    get_elem?-some s.accounts (s.next_idx % length s.accounts)
      (mod-lt s.next_idx (omega (arith, h))))

pub ensure_valid-next_account :
    (now : ℕ) (id : String) (s : Store)
    → (ensure_valid now id (next_account s).0).1 ≡ (ensure_valid now id s).1
unfolding ensure_valid next_account get_account
ensure_valid-next_account now id s = ground arith

pub next_account-none : (s : Store) → (next_account s).1 ≡ none → length s.accounts ≡ 0
next_account-none s e = elim (Bool-cases (length s.accounts == 0)) [
  | inl empty ↦ ground (arith, empty, ==_iff (length s.accounts) 0)
  | inr full ↦
      absurd (ground (arith, e, full, ==_iff (length s.accounts) 0, next_account-is_some s))
]

pub next_account-full :
    (s : Store) (a : Account) → (next_account s).1 ≡ some a → length s.accounts ≢ 0
unfolding next_account
next_account-full s a e = λ empty. ground (arith, e, empty, ==_iff (length s.accounts) 0)
