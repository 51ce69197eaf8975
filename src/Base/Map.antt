-- ===== src/Base/Map.antt =====
-- A Go map as an association list. Go leaves the order of iteration open; here it is list order,
-- and what is proved of a loop over a map does not depend on the order.
use mathlib.Core.Path.{◌≡◌, refl}
use mathlib.Core.Bool.{Bool, true, false}
use mathlib.Core.List.{List, [], ◌∷◌}
use mathlib.Core.Option.{Option, none, some}
use native.Mathlib.Omega.{arith}
use nomad_csi_driver.Base.Tests.{if◌then◌else◌, is_some}
use nomad_csi_driver.Base.Lists.{All}
use nomad_csi_driver.Base.Classes.{Eq, ◌==◌, beq_refl}

abbrev pub Map {ℓ κ} : Type ℓ → Type κ → Type (ℓ ⊔ κ)
Map K V = List (K × V)

module _ {ℓ κ} {K : Type ℓ} {V : Type κ} ⦃e : Eq K⦄ where
  unfoldable pub lookup : K → Map K V → Option V
  lookup k [] = none
  lookup k ((j, v) ∷ m) = if j == k then some v else lookup k m

  -- delete(m, k)
  unfoldable pub erase : K → Map K V → Map K V
  erase k [] = []
  erase k ((j, w) ∷ m) = let rest = erase k m in if j == k then rest else (j, w) ∷ rest

  -- m[k] = v
  unfoldable pub insert : K → V → Map K V → Map K V
  insert k v [] = (k, v) ∷ []
  insert k v ((i, old) ∷ m) =
      let rest = insert k v m in if i == k then (k, v) ∷ m else (i, old) ∷ rest

  -- _, ok := m[k]
  unfoldable pub has : K → Map K V → Bool
  unfolding lookup
  has k m = is_some (lookup k m)

  pub lookup-insert :
      (key other : K) (val : V) (m : Map K V)
      → lookup other (insert key val m) ≡ (if key == other then some val else lookup other m)
  unfolding lookup insert
  lookup-insert key other val [] = refl
  lookup-insert key other val ((i, old) ∷ m) = ground (
    arith,
    lookup-insert key other val m,
    e.beq_iff key other,
    e.beq_iff i key,
    e.beq_iff i other,
  )

  pub lookup-erase :
      (k j : K) (m : Map K V) → lookup j (erase k m) ≡ (if k == j then none else lookup j m)
  unfolding lookup erase
  lookup-erase k j [] = ground arith
  lookup-erase k j ((i, w) ∷ m) =
      ground (arith, e.beq_iff k j, e.beq_iff i k, e.beq_iff i j, lookup-erase k j m)

  pub has-insert :
      (k j : K) (v : V) (m : Map K V) → has j (insert k v m) ≡ (if k == j then true else has j m)
  unfolding has
  has-insert k j v m = ground (arith, lookup-insert k j v m)

  pub has-erase : (k j : K) (m : Map K V) → has j (erase k m) ≡ (if k == j then false else has j m)
  unfolding has
  has-erase k j m = ground (arith, lookup-erase k j m)

  abbrev pub IsDistinct : Map K V → Type 0
  IsDistinct [] = Unit
  IsDistinct ((j, w) ∷ m) = (has j m ≡ false) × IsDistinct m

  pub insert-IsDistinct : (k : K) (v : V) (m : Map K V) → IsDistinct m → IsDistinct (insert k v m)
  unfolding insert has lookup
  insert-IsDistinct k v [] h = (refl, tt)
  insert-IsDistinct k v ((j, w) ∷ m) h =
      ground (arith, e.beq_iff j k, e.beq_iff k j, has-insert k j v m, insert-IsDistinct k v m h.1)

  -- What holds of every entry that a lookup finds holds of every entry.
  pub All-lookup :
      (P : K × V → Type 0) (m : Map K V)
      → IsDistinct m
      → ((k : K) (v : V) → lookup k m ≡ some v → P (k, v))
      → All P m
  unfolding lookup has
  All-lookup P [] d h = tt
  All-lookup P ((j, w) ∷ m) d h = (
    h j w (ground (arith, beq_refl j)),
    All-lookup P m d.1 (λ k v found. ground (arith, h k v, e.beq_iff j k)),
  )
