-- ===== src/Go/Strings.antt =====
-- `strings.Split`, `SplitN`, `IndexByte`, `LastIndexByte` and `Contains`, for the
-- one-byte separators that the source uses.
use nomad_csi_driver.Base.{
  ℕ, zero, suc, Text, ◌≡◌, ◌≢◌, ◌∙◌, ap, refl, Bool, true, false, List, [], ◌∷◌, ◌++◌, arith, All,
  Option, none, some, ◌&&◌, ◌||◌, eqb, if◌then◌else◌,
}

abbrev pub glue : ℕ → List Text → List Text
glue c [] = (c ∷ []) ∷ []
glue c (p ∷ ps) = (c ∷ p) ∷ ps

-- Split(s, string(sep))
unfoldable pub split : ℕ → Text → List Text
split sep [] = [] ∷ []
split sep (c ∷ s) = let rest = split sep s in if eqb c sep then [] ∷ rest else glue c rest

-- SplitN(s, string(sep), n + 1): at most `n` cuts.
unfoldable pub split_n : ℕ → ℕ → Text → List Text
split_n sep zero s = s ∷ []
split_n sep (suc n) [] = [] ∷ []
split_n sep (suc n) (c ∷ s) =
    let cut = split_n sep n s in
    let rest = split_n sep (suc n) s in if eqb c sep then [] ∷ cut else glue c rest

split_cons : (sep : ℕ) (s : Text) → (p : Text) × (ps : List Text) × (split sep s ≡ p ∷ ps)
unfolding split
split_cons sep [] = ([], [], refl)
split_cons sep (c ∷ s) =
    let (p, ps, e) = split_cons sep s in if_glue (eqb c sep) p ps (split sep s) e
  where
    if_glue :
        (b : Bool) (p : Text) (ps qs : List Text)
        → qs ≡ p ∷ ps
        → (q : Text) × (rs : List Text) × ((if b then [] ∷ qs else glue c qs) ≡ q ∷ rs)
    if_glue true p ps qs e = ([], qs, refl)
    if_glue false p ps qs e = (c ∷ p, ps, rw e)

-- A piece without the separator is cut off whole.
pub split-append :
    (sep : ℕ) (p s : Text) → All (λ c. c ≢ sep) p → split sep (p ++ sep ∷ s) ≡ p ∷ split sep s
unfolding split
split-append sep [] s h = ground arith
split-append sep (c ∷ p) s h = rw (split-append sep p s h.1) (ground arith)

pub split_single : (sep : ℕ) (p : Text) → All (λ c. c ≢ sep) p → split sep p ≡ p ∷ []
unfolding split
split_single sep [] h = refl
split_single sep (c ∷ p) h = rw (split_single sep p h.1) (ground arith)

pub split_n-append :
    (sep n : ℕ) (p s : Text)
    → All (λ c. c ≢ sep) p
    → split_n sep (suc n) (p ++ sep ∷ s) ≡ p ∷ split_n sep n s
unfolding split_n
split_n-append sep n [] s h = ground arith
split_n-append sep n (c ∷ p) s h = rw (split_n-append sep n p s h.1) (ground arith)

-- Join(parts, string(sep))
abbrev pub join : ℕ → List Text → Text
join sep [] = []
join sep (p ∷ []) = p
join sep (p ∷ q ∷ ps) = p ++ sep ∷ join sep (q ∷ ps)

pub split-join :
    (sep : ℕ) (p : Text) (ps : List Text)
    → All (λ q. All (λ c. c ≢ sep) q) (p ∷ ps)
    → split sep (join sep (p ∷ ps)) ≡ p ∷ ps
split-join sep p [] h = split_single sep p h.0
split-join sep p (q ∷ ps) h =
    split-append sep p (join sep (q ∷ ps)) h.0 ∙ ap (λ r. p ∷ r) (split-join sep q ps h.1)

-- What is before and after the first byte of that kind: Cut(s, string(sep)).
unfoldable pub cut : ℕ → Text → Option (Text × Text)
cut sep [] = none
cut sep (c ∷ s) =
    let rest : Option (Text × Text) = elim (cut sep s) [
      | none ↦ none
      | some p ↦ some (c ∷ p.0, p.1)
    ] in
    if eqb c sep then some ([], s) else rest

-- HasPrefix(s, prefix)
unfoldable pub has_prefix : Text → Text → Bool
has_prefix [] s = true
has_prefix (p ∷ ps) [] = false
has_prefix (p ∷ ps) (c ∷ s) = eqb p c && has_prefix ps s

-- TrimPrefix(s, prefix)
unfoldable pub trim_prefix : Text → Text → Text
unfolding has_prefix
trim_prefix prefix s = if has_prefix prefix s then drop_first prefix s else s
  where
    drop_first : Text → Text → Text
    drop_first [] s = s
    drop_first (p ∷ ps) [] = []
    drop_first (p ∷ ps) (c ∷ s) = drop_first ps s

-- Contains(s, part)
unfoldable pub contains_part : Text → Text → Bool
unfolding has_prefix
contains_part part [] = has_prefix part []
contains_part part (c ∷ s) = has_prefix part (c ∷ s) || contains_part part s
