-- ===== src/Base/Take.antt =====
-- The prefix of a list, as Go's `s[:n]` of a text that may be shorter.
use Prim.Native.Nat.{ℕ, zero, suc, ◌≤◌}
use mathlib.Core.Path.{◌≡◌, refl, ap}
use mathlib.Core.List.{[], ◌∷◌}
use native.Mathlib.Omega.{arith}
use nomad_csi_driver.Base.Lists.{Text, All, length, take}

pub All-take {ℓ} : (P : ℕ → Type ℓ) (n : ℕ) (t : Text) → All P t → All P (take n t)
All-take P zero t h = tt
All-take P (suc n) [] h = tt
All-take P (suc n) (c ∷ t) h = (h.0, All-take P n t h.1)

pub length-take-le : (n : ℕ) (t : Text) → length (take n t) ≤ n
length-take-le zero t = omega arith
length-take-le (suc n) [] = omega arith
length-take-le (suc n) (c ∷ t) = omega (arith, length-take-le n t)

pub take_all : (n : ℕ) (t : Text) → length t ≤ n → take n t ≡ t
take_all zero [] h = refl
take_all zero (c ∷ t) h = absurd (omega arith)
take_all (suc n) [] h = refl
take_all (suc n) (c ∷ t) h = ap (λ s. c ∷ s) (take_all n t (omega arith))
