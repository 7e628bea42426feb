-- ===== src/Accounts/Secrets.antt =====
-- How refresh tokens are kept in the file (internal/auth/cache.go).
use Prim.Native.String.{◌++◌ as join, slice, len}
use text.Mathlib.Text.{starts_with}
use text.Mathlib.TextPositions.{slice-append_right, len-append, starts_with-append}
use m365_copilot2api_docker.Base.{
  ℕ, suc, String, Bool, false, Option, none, some, List, [], ◌∷◌, str_eq, if◌then◌else◌, ◌≡◌, ◌≢◌,
  refl, arith, eq_iff, All, ◌∙◌, ap, sym, Bool-cases, inl, inr, ◌⊎◌,
}
use m365_copilot2api_docker.Accounts.{Account}

abbrev pub enc_prefix : String
enc_prefix = "enc:v1:"

-- isEncrypted
abbrev pub is_encrypted : String → Bool
is_encrypted s = starts_with s enc_prefix

-- strings.TrimPrefix, for a text that begins with the prefix
abbrev trimmed : String → String
trimmed s = slice s (len enc_prefix) (len s)

-- `seal` is AES-GCM with a nonce and the master key, in base64, and `unseal` undoes it.
module _ (seal : String → String → String) (unseal : String → Option String) where
  -- encryptRefreshToken, where there is a nonce.
  pub encrypt : String → String → String
  encrypt nonce plain =
      if str_eq plain ""
      then ""
      else if is_encrypted plain
      then plain
      else join enc_prefix (seal nonce plain)

  -- decryptRefreshToken
  pub decrypt : String → Option String
  decrypt enc =
      if str_eq enc "" then some "" else if is_encrypted enc then unseal (trimmed enc) else some enc

  -- What saveLocked writes; `nonce` gives a nonce for each account.
  pub sealed : (ℕ → String) → ℕ → List Account → List Account
  sealed nonce i [] = []
  sealed nonce i (a ∷ rest) =
      record a { refresh_token = encrypt (nonce i) a.refresh_token } ∷ sealed nonce (suc i) rest

  -- The loop of OpenStore.
  pub opened : Account → Account
  opened a =
      let token : String = elim (decrypt a.refresh_token) [ none ↦ a.refresh_token | some t ↦ t ] in
      let oid = if str_eq a.oid "" then a.id else a.oid in
      record a { refresh_token = token; oid = oid; id = if str_eq a.id "" then oid else a.id }

  pub reopen : List Account → List Account
  reopen [] = []
  reopen (a ∷ rest) = opened a ∷ reopen rest

  -- An account with its ids, whose token does not look like an encrypted one.
  abbrev pub IsWhole : Account → Type 0
  IsWhole a = (a.id ≢ "") × (a.oid ≢ "") × (is_encrypted a.refresh_token ≡ false)

  -- The account in the file that stands for one of the store: its refresh token is the mark and what
  -- the cipher makes of the token, or there is none, and all else is as it is in the store.
  abbrev pub IsSealed : Account → Account → Type 0
  IsSealed a b =
      (b ≡ record a { refresh_token = b.refresh_token })
      × (((a.refresh_token ≡ "") × (b.refresh_token ≡ ""))
          ⊎ ((nonce : String) × (b.refresh_token ≡ join enc_prefix (seal nonce a.refresh_token))))

  abbrev pub AllSealed : List Account → List Account → Type 0
  AllSealed [] [] = Unit
  AllSealed (a ∷ rest) (b ∷ written) = IsSealed a b × AllSealed rest written
  AllSealed accounts written = ⊥

  trimmed-join : (s : String) → trimmed (join enc_prefix s) ≡ s
  trimmed-join s =
      ap (λ n. slice (join enc_prefix s) (len enc_prefix) n) (len-append enc_prefix s)
      ∙ slice-append_right enc_prefix s

  sealed_text : (s : String) → str_eq (join enc_prefix s) "" ≡ false
  sealed_text s = elim (Bool-cases (str_eq (join enc_prefix s) "")) [
    | inr other ↦ other
    | inl empty ↦
        let nothing : join enc_prefix s ≡ "" =
          ground (arith, empty, eq_iff (join enc_prefix s) "") in
        let wrong = sym (starts_with-append enc_prefix s) ∙ ap is_encrypted nothing in cc
  ]

  decrypt-encrypt :
      (nonce plain : String)
      → unseal (seal nonce plain) ≡ some plain
      → is_encrypted plain ≡ false
      → decrypt (encrypt nonce plain) ≡ some plain
  unfolding decrypt encrypt
  decrypt-encrypt nonce plain back free = elim (Bool-cases (str_eq plain "")) [
    | inl empty ↦ rw empty (ground (arith, empty, eq_iff plain ""))
    | inr given ↦
        rw
          (
            given,
            free,
            sealed_text (seal nonce plain),
            starts_with-append enc_prefix (seal nonce plain),
          )
          (ap unseal (trimmed-join (seal nonce plain)) ∙ back)
  ]

  opened-sealed :
      (nonce : String) (a : Account)
      → unseal (seal nonce a.refresh_token) ≡ some a.refresh_token
      → IsWhole a
      → opened (record a { refresh_token = encrypt nonce a.refresh_token }) ≡ a
  unfolding opened
  opened-sealed nonce a back (id, oid, free) =
      let has_id : str_eq a.id "" ≡ false = ground (arith, id, eq_iff a.id "") in
      let has_oid : str_eq a.oid "" ≡ false = ground (arith, oid, eq_iff a.oid "") in
      rw (has_id, has_oid, decrypt-encrypt nonce a.refresh_token back free) refl

  encrypt-IsSealed :
      (nonce : String) (a : Account)
      → IsWhole a
      → IsSealed a (record a { refresh_token = encrypt nonce a.refresh_token })
  unfolding encrypt
  encrypt-IsSealed nonce a (id, oid, free) = elim (Bool-cases (str_eq a.refresh_token "")) [
    | inl empty ↦ (refl, inl (ground (arith, empty, eq_iff a.refresh_token ""), rw empty refl))
    | inr given ↦ (refl, inr (nonce, rw (given, free) refl))
  ]

  -- Where unsealing undoes sealing, and each account has both ids and a token that does not begin like
  -- an encrypted one: opening the file that was saved gives the accounts back, and in the file each
  -- refresh token that is there is the mark and what the cipher makes of it. All else, access tokens
  -- too, is in the file as it is.
  pub reopen-sealed :
      (nonce : ℕ → String) (i : ℕ) (accounts : List Account)
      → ((n t : String) → unseal (seal n t) ≡ some t)
      → All IsWhole accounts
      → (reopen (sealed nonce i accounts) ≡ accounts) × AllSealed accounts (sealed nonce i accounts)
  unfolding reopen sealed
  reopen-sealed nonce i [] back w = (refl, tt)
  reopen-sealed nonce i (a ∷ rest) back w =
      let (same, hidden) = reopen-sealed nonce (suc i) rest back w.1 in
      let one = opened-sealed (nonce i) a (back (nonce i) a.refresh_token) w.0 in
      (
        ap (λ b. b ∷ reopen (sealed nonce (suc i) rest)) one ∙ ap (λ bs. a ∷ bs) same,
        (encrypt-IsSealed (nonce i) a w.0, hidden),
      )
