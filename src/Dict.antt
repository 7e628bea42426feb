-- ===== src/Dict.antt =====
-- Go's `map[string]V` as an association list. `get-put`, `get-remove` and `get-retain` are all that
-- the proofs of the components use; the order in which Go iterates over a map is not observed.
use m365_copilot2api_docker.Base.{
  String, ◌≡◌, refl, Bool, true, false, Option, none, some, List, [], ◌∷◌, arith, str_eq, eq_iff,
  eq_refl, if◌then◌else◌, ℕ, suc, length, is_some,
}

abbrev pub Dict {ℓ} : Type ℓ → Type ℓ
Dict V = List (String × V)

module _ {ℓ} {V : Type ℓ} where
  -- v, ok := m[k]
  unfoldable pub get : Dict V → String → Option V
  get [] k = none
  get ((j, v) ∷ d) k = if str_eq j k then some v else get d k

  -- delete(m, k)
  unfoldable pub remove : Dict V → String → Dict V
  remove [] k = []
  remove ((j, v) ∷ d) k = let rest = remove d k in if str_eq j k then rest else (j, v) ∷ rest

  -- m[k] = v
  unfoldable pub put : Dict V → String → V → Dict V
  unfolding remove
  put d k v = (k, v) ∷ remove d k

  -- for k, v := range m { if !p(k, v) { delete(m, k) } }
  unfoldable pub retain : (String → V → Bool) → Dict V → Dict V
  unfolding remove
  retain p [] = []
  retain p ((k, v) ∷ d) = let rest = remove (retain p d) k in if p k v then (k, v) ∷ rest else rest

  pub get-remove :
      (d : Dict V) (k j : String) → get (remove d k) j ≡ (if str_eq k j then none else get d j)
  unfolding get remove
  get-remove [] k j = ground arith
  get-remove ((i, v) ∷ d) k j = ground (arith, get-remove d k j, eq_iff i k, eq_iff i j, eq_iff k j)

  pub get-put :
      (d : Dict V) (k : String) (v : V) (j : String)
      → get (put d k v) j ≡ (if str_eq k j then some v else get d j)
  unfolding get put
  get-put d k v j = ground (arith, get-remove d k j)

  abbrev pub passing : (String → V → Bool) → String → Option V → Option V
  passing p k none = none
  passing p k (some v) = if p k v then some v else none

  pub get-retain :
      (p : String → V → Bool) (d : Dict V) (j : String) → get (retain p d) j ≡ passing p j (get d j)
  unfolding get retain
  get-retain p [] j = refl
  get-retain p ((k, v) ∷ d) j =
      ground (arith, get-remove (retain p d) k j, get-retain p d j, eq_iff k j)

  -- Each key stands once.
  abbrev pub IsDict : Dict V → Type 0
  IsDict [] = Unit
  IsDict ((k, v) ∷ d) = (is_some (get d k) ≡ false) × IsDict d

  pub remove-IsDict : (d : Dict V) (k : String) → IsDict d → IsDict (remove d k)
  unfolding remove
  remove-IsDict [] k h = h
  remove-IsDict ((j, v) ∷ d) k h = ground (arith, remove-IsDict d k h.1, get-remove d k j, h.0)

  pub put-IsDict : (d : Dict V) (k : String) (v : V) → IsDict d → IsDict (put d k v)
  unfolding put
  put-IsDict d k v h = (ground (arith, get-remove d k k, eq_refl k), remove-IsDict d k h)

  pub remove_absent : (d : Dict V) (k : String) → is_some (get d k) ≡ false → remove d k ≡ d
  unfolding remove get
  remove_absent [] k h = refl
  remove_absent ((j, v) ∷ d) k h = ground (arith, remove_absent d k)

  pub length-remove :
      (d : Dict V) (k : String)
      → IsDict d
      → is_some (get d k) ≡ true
      → suc (length (remove d k)) ≡ length d
  unfolding remove get
  length-remove [] k h e = cc
  length-remove ((j, v) ∷ d) k h e =
      ground (arith, length-remove d k h.1, remove_absent d k, h.0, eq_iff j k)

pub ruleset dict_laws = (get-put, get-remove, get-retain, eq_refl)
