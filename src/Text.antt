-- ===== src/Text.antt =====
-- Texts as code points: `strings.TrimSpace` and `strings.ToLower` as far as a comparison with an
-- ASCII word sees them.
use Prim.Native.Char.{code}
use m365_copilot2api_docker.Base.{
  ℕ, ◌+◌, ◌≡◌, refl, String, Bool, true, false, List, [], ◌∷◌, ◌&&◌, ◌||◌, ◌==◌, ==_iff, arith, leb,
  ltb, if◌then◌else◌,
}

abbrev pub codes : String → List ℕ
codes String.[] = []
codes (String.◌∷◌ c s) = code c ∷ codes s

-- `unicode.IsSpace`
unfoldable pub is_space : ℕ → Bool
is_space c =
    (leb 9 c && leb c 13)
    || c == 32
    || c == 0x85
    || c == 0xa0
    || c == 0x1680
    || (leb 0x2000 c && leb c 0x200a)
    || c == 0x2028
    || c == 0x2029
    || c == 0x202f
    || c == 0x205f
    || c == 0x3000

trim_start : List ℕ → List ℕ
trim_start [] = []
trim_start (c ∷ s) = let rest = trim_start s in if is_space c then rest else c ∷ s

abbrev is_empty : List ℕ → Bool
is_empty [] = true
is_empty (c ∷ s) = false

trim_end : List ℕ → List ℕ
trim_end [] = []
trim_end (c ∷ s) = let rest = trim_end s in if is_space c && is_empty rest then [] else c ∷ rest

-- `strings.TrimSpace`
unfoldable pub trim : String → List ℕ
unfolding is_space trim_start trim_end
trim text = trim_end (trim_start (codes text))

-- `len(s)`: the bytes of the UTF-8 form.
unfoldable pub byte_len : List ℕ → ℕ
byte_len [] = 0
byte_len (c ∷ s) =
    (if ltb c 0x80 then 1 else if ltb c 0x800 then 2 else if ltb c 0x10000 then 3 else 4)
    + byte_len s

-- The lower case of a code point, where that is an ASCII letter; İ and the Kelvin sign are the two
-- letters outside ASCII that become one.
to_lower : ℕ → ℕ
to_lower c =
    if leb b'A' c && leb c b'Z'
    then c + 32
    else if c == 0x130
    then b'i'
    else if c == 0x212a
    then b'k'
    else c

lower : List ℕ → List ℕ
lower [] = []
lower (c ∷ s) = to_lower c ∷ lower s

same : List ℕ → List ℕ → Bool
same [] [] = true
same (a ∷ s) (b ∷ t) = a == b && same s t
same _ _ = false

-- strings.ToLower(strings.TrimSpace(text)) == word, for a word of lower case ASCII letters
unfoldable pub is_word : String → String → Bool
unfolding is_space trim_start trim_end to_lower lower same
is_word text word = same (lower (trim_end (trim_start (codes text)))) (codes word)

same_unique : (s t u : List ℕ) → same s t ≡ true → same s u ≡ true → t ≡ u
unfolding same
same_unique [] [] [] e f = refl
same_unique [] [] (b ∷ u) e f = cc
same_unique [] (b ∷ t) u e f = cc
same_unique (a ∷ s) [] u e f = cc
same_unique (a ∷ s) (b ∷ t) [] e f = cc
same_unique (a ∷ s) (b ∷ t) (c ∷ u) e f = ground (arith, same_unique s t u, ==_iff a b, ==_iff a c)

-- A text is one word at most.
pub is_word_unique :
    (text v w : String) → is_word text v ≡ true → is_word text w ≡ true → codes v ≡ codes w
unfolding is_word
is_word_unique text v w = same_unique _ (codes v) (codes w)

padded : is_word "  System\n" "system" ≡ true
unfolding is_word
padded = refl
