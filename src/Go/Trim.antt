-- ===== src/Go/Trim.antt =====
-- `strings.TrimSpace` and `strings.Fields`: the white space of Unicode, as the bytes of UTF-8.
use nomad_csi_driver.Base.{
  ℕ, zero, suc, Text, Bool, ◌&&◌, ◌||◌, List, [], ◌∷◌, Option, none, some, reverse, length, eqb,
  leb, if◌then◌else◌,
}

-- '\t', '\n', '\v', '\f', '\r' and ' '
abbrev is_ascii_space : ℕ → Bool
is_ascii_space c = leb 9 c && leb c 13 || eqb c 32

-- U+0085 and U+00A0
abbrev is_space_2 : ℕ → ℕ → Bool
is_space_2 a b = eqb a 194 && (eqb b 133 || eqb b 160)

-- U+1680, U+2000 to U+200A, U+2028, U+2029, U+202F, U+205F and U+3000
abbrev is_space_3 : ℕ → ℕ → ℕ → Bool
is_space_3 a b c =
    eqb a 225 && eqb b 154 && eqb c 128
    || eqb a 226 && eqb b 128 && (leb 128 c && leb c 138 || eqb c 168 || eqb c 169 || eqb c 175)
    || eqb a 226 && eqb b 129 && eqb c 159
    || eqb a 227 && eqb b 128 && eqb c 128

-- What follows a space in front.
after_space : Text → Option Text
after_space [] = none
after_space (a ∷ []) = if is_ascii_space a then some [] else none
after_space (a ∷ b ∷ []) =
    if is_ascii_space a then some (b ∷ []) else if is_space_2 a b then some [] else none
after_space (a ∷ b ∷ c ∷ s) =
    if is_ascii_space a
    then some (b ∷ c ∷ s)
    else if is_space_2 a b
    then some (c ∷ s)
    else if is_space_3 a b c
    then some s
    else none

-- The same from the end, for a text in reverse.
after_space_rev : Text → Option Text
after_space_rev [] = none
after_space_rev (a ∷ []) = if is_ascii_space a then some [] else none
after_space_rev (a ∷ b ∷ []) =
    if is_ascii_space a then some (b ∷ []) else if is_space_2 b a then some [] else none
after_space_rev (a ∷ b ∷ c ∷ s) =
    if is_ascii_space a
    then some (b ∷ c ∷ s)
    else if is_space_2 b a
    then some (c ∷ s)
    else if is_space_3 c b a
    then some s
    else none

-- Each step takes a byte at least, so the length is fuel enough.
drop_while : (Text → Option Text) → ℕ → Text → Text
drop_while f zero s = s
drop_while f (suc n) s = elim (f s) [ none ↦ s | some t ↦ drop_while f n t ]

-- TrimSpace(s)
unfoldable pub trim_space : Text → Text
unfolding drop_while after_space after_space_rev
trim_space s =
    let t = drop_while after_space (length s) s in
    reverse (drop_while after_space_rev (length t) (reverse t))

-- The words so far, the latest one in front and in reverse.
push_word : Text → List Text → List Text
push_word [] ws = ws
push_word (c ∷ w) ws = reverse (c ∷ w) ∷ ws

words : ℕ → Text → Text → List Text → List Text
unfolding push_word after_space
words zero s w ws = reverse (push_word w ws)
words (suc n) [] w ws = reverse (push_word w ws)
words (suc n) (c ∷ s) w ws = elim (after_space (c ∷ s)) [
  | none ↦ words n s (c ∷ w) ws
  | some t ↦ words n t [] (push_word w ws)
]

-- Fields(s)
unfoldable pub fields : Text → List Text
unfolding words
fields s = words (length s) s [] []
