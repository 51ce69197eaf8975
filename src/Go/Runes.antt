-- ===== src/Go/Runes.antt =====
-- `for _, r := range s` over the UTF-8 bytes of a string, as far as a mapping of ASCII runes sees
-- it: how many bytes each rune takes. A byte that begins no valid sequence is a rune of its own.
use nomad_csi_driver.Base.{
  ℕ, zero, suc, Text, ◌≡◌, ◌<◌, ◌⊎◌, inl, inr, ap, refl, Bool, true, ◌&&◌, [], ◌∷◌, All, arith, leb,
  ltb, eqb, if◌then◌else◌, Bool-cases,
}

abbrev within : ℕ → ℕ → ℕ → Bool
within lo hi b = leb lo b && leb b hi

abbrev tail_byte : ℕ → Bool
tail_byte = within 0x80 0xbf

-- Whether `x` may follow the first byte `b` of a sequence of three or of four bytes: this leaves out
-- overlong forms, surrogates and what lies above U+10FFFF.
second_of_three : ℕ → ℕ → Bool
second_of_three b x =
    if eqb b 0xe0
    then within 0xa0 0xbf x
    else if eqb b 0xed
    then within 0x80 0x9f x
    else within 0xe1 0xef b && tail_byte x

second_of_four : ℕ → ℕ → Bool
second_of_four b x =
    if eqb b 0xf0
    then within 0x90 0xbf x
    else if eqb b 0xf4
    then within 0x80 0x8f x
    else within 0xf1 0xf3 b && tail_byte x

three_bytes : ℕ → ℕ → Text → ℕ
unfolding second_of_three
three_bytes b x [] = 0
three_bytes b x (y ∷ s) = if second_of_three b x && tail_byte y then 2 else 0

four_bytes : ℕ → ℕ → Text → ℕ
unfolding second_of_four
four_bytes b x (y ∷ z ∷ s) = if second_of_four b x && (tail_byte y && tail_byte z) then 3 else 0
four_bytes b x _ = 0

-- How many bytes of `s` belong to the rune that begins with the byte `b` before it.
rune_rest : ℕ → Text → ℕ
unfolding three_bytes four_bytes
rune_rest b [] = 0
rune_rest b (x ∷ s) =
    if within 0xc2 0xdf b && tail_byte x
    then 1
    else if within 0xe0 0xef b
    then three_bytes b x s
    else four_bytes b x s

-- Each ASCII rune that is kept stands for itself, and every other rune for `other`; `skip` bytes
-- belong to the rune before.
map_runes_from : (ℕ → Bool) → ℕ → ℕ → Text → Text
map_runes_from keep other skip [] = []
map_runes_from keep other (suc skip) (b ∷ s) = map_runes_from keep other skip s
map_runes_from keep other zero (b ∷ s) =
    let kept = b ∷ map_runes_from keep other 0 s in
    let mapped = other ∷ map_runes_from keep other (rune_rest b s) s in
    if ltb b 0x80 && keep b then kept else mapped

unfoldable pub map_runes : (ℕ → Bool) → ℕ → Text → Text
unfolding map_runes_from rune_rest
map_runes keep other = map_runes_from keep other 0

module _ (keep : ℕ → Bool) (other : ℕ) where
  -- What a rune may become.
  abbrev pub IsMapped : ℕ → Type 0
  IsMapped c = (c ≡ other) ⊎ ((c < 0x80) × (keep c ≡ true))

  map_runes_from-IsMapped : (skip : ℕ) (s : Text) → All IsMapped (map_runes_from keep other skip s)
  unfolding map_runes_from
  map_runes_from-IsMapped skip [] = tt
  map_runes_from-IsMapped (suc skip) (b ∷ s) = map_runes_from-IsMapped skip s
  map_runes_from-IsMapped zero (b ∷ s) = elim (Bool-cases (ltb b 0x80 && keep b)) [
    | inl e ↦ rw e (inr (ground arith), map_runes_from-IsMapped 0 s)
    | inr e ↦ rw e (inl refl, map_runes_from-IsMapped (rune_rest b s) s)
  ]

  pub map_runes-IsMapped : (s : Text) → All IsMapped (map_runes keep other s)
  unfolding map_runes
  map_runes-IsMapped s = map_runes_from-IsMapped 0 s

  -- A text of kept runes does not change.
  map_runes_from_kept :
      (s : Text) → All (λ c. (c < 0x80) × (keep c ≡ true)) s → map_runes_from keep other 0 s ≡ s
  unfolding map_runes_from
  map_runes_from_kept [] h = refl
  map_runes_from_kept (b ∷ s) h =
      let e : (ltb b 0x80 && keep b) ≡ true = ground arith in
      rw e (ap (λ t. b ∷ t) (map_runes_from_kept s h.1))

  pub map_runes_kept :
      (s : Text) → All (λ c. (c < 0x80) × (keep c ≡ true)) s → map_runes keep other s ≡ s
  unfolding map_runes
  map_runes_kept s h = map_runes_from_kept s h
