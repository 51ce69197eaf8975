-- ===== src/Go/Strconv/Range.antt =====
-- strconv: Atoi answers within the range of an int.
use nomad_csi_driver.Base.{
  ℕ, suc, zero, ℤ, pos, negsuc, Text, ◌≡◌, [], ◌∷◌, Option, none, some, eqb, arith, Bool-cases, inl,
  inr,
}
use nomad_csi_driver.Go.Strconv.{atoi, nonneg, negated, parse_nat, IsInt64}

nonneg-IsInt64 : (o : Option ℕ) (n : ℤ) → nonneg o ≡ some n → IsInt64 n
nonneg-IsInt64 none n e = absurd (ground arith)
nonneg-IsInt64 (some k) (pos n) e = ground arith
nonneg-IsInt64 (some k) (negsuc n) e = absurd (ground arith)

negated-IsInt64 : (o : Option ℕ) (n : ℤ) → negated o ≡ some n → IsInt64 n
negated-IsInt64 none n e = absurd (ground arith)
negated-IsInt64 (some zero) (pos n) e = ground arith
negated-IsInt64 (some zero) (negsuc n) e = absurd (ground arith)
negated-IsInt64 (some (suc k)) (pos n) e = absurd (ground arith)
negated-IsInt64 (some (suc k)) (negsuc n) e = ground arith

-- A number that Atoi reads is one of 64 bits.
pub atoi-IsInt64 : (s : Text) (n : ℤ) → atoi s ≡ some n → IsInt64 n
unfolding atoi
atoi-IsInt64 [] n e = absurd (ground arith)
atoi-IsInt64 (c ∷ s) n e = elim (Bool-cases (eqb c b'-')) [
  | inl minus ↦ negated-IsInt64 (parse_nat s) n (ground arith)
  | inr other ↦ elim (Bool-cases (eqb c b'+')) [
    | inl plus ↦ nonneg-IsInt64 (parse_nat s) n (ground arith)
    | inr digits ↦ nonneg-IsInt64 (parse_nat (c ∷ s)) n (ground arith)
  ]
]
