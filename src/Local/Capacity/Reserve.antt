-- ===== src/Local/Capacity/Reserve.antt =====
-- internal/driver/local/controller.go and localops.go: reserveBytes, and what is left of a pool.
use nomad_csi_driver.Base.{ℤ, true, ◌≡◌, refl, sym, ap, ◌∙◌, Bool-cases, inl, inr, arith, subst}
use nomad_csi_driver.Base.{ℕ, pos, negsuc, ◌+◌, ◌*◌, ◌/◌, ◌%◌, ◌<◌, ◌≤◌, ◌^◌}
use native.Mathlib.Nat.{mul-le-mul_left}
use nomad_csi_driver.Go.Strconv.{IsInt64}
use nomad_csi_driver.Base.Int.{◌+ℤ◌, ◌-ℤ◌, ◌≤ℤ◌, leb_ℤ}
use nomad_csi_driver.Local.Size.{wrap64}
use nomad_csi_driver.Local.Capacity.{reserve_bytes, after_reserve}

-- What is kept free of a pool: nothing for a percentage up to 0, everything from 100 on, and else so
-- many bytes for each 100 whole bytes of the total. A total below zero, which no pool has, is left open.
pub data IsReserve : ℤ → ℤ → ℤ → Type 0 where
  nothing : {total pct : ℤ} → pct ≤ℤ pos 0 → IsReserve total pct (pos 0)
  everything : {total pct : ℤ} → pos 100 ≤ℤ pct → IsReserve total pct total
  part :
      (hundreds rest pct : ℕ)
      → 0 < pct
      → pct < 100
      → rest < 100
      → IsReserve (pos (hundreds * 100 + rest)) (pos pct) (pos (hundreds * pct))
  no_pool : (total : ℕ) (pct reserve : ℤ) → IsReserve (negsuc total) pct reserve

pub reserve_bytes-IsReserve : (total pct : ℤ) → IsReserve total pct (reserve_bytes total pct)
unfolding reserve_bytes
reserve_bytes-IsReserve (negsuc t) pct = IsReserve.no_pool t pct _
reserve_bytes-IsReserve (pos t) (negsuc p) =
    let low : leb_ℤ (negsuc p) (pos 0) ≡ true = ground arith in
    rw low (IsReserve.nothing (omega arith))
reserve_bytes-IsReserve (pos t) (pos p) = elim (Bool-cases (leb_ℤ (pos p) (pos 0))) [
  | inl low ↦ rw low (IsReserve.nothing (ground arith))
  | inr above ↦ elim (Bool-cases (leb_ℤ (pos 100) (pos p))) [
    | inl all ↦ rw (above, all) (IsReserve.everything (ground arith))
    | inr not_all ↦
        rw (above, not_all)
          (let whole : t / 100 * 100 + t % 100 ≡ t = omega arith in
            subst (λ x. IsReserve (pos x) (pos p) (pos (t / 100 * p))) whole
              (IsReserve.part (t / 100) (t % 100) p (ground arith) (ground arith) (omega arith)))
  ]
]

pub after_reserve_lem :
    (avail total pct : ℤ)
    → after_reserve avail total pct ≡ wrap64 (avail -ℤ reserve_bytes total pct)
unfolding after_reserve
after_reserve_lem avail total pct = refl

-- The reserve of an amount is an amount within it.
reserve_le :
    (t : ℕ) (pct reserve : ℤ)
    → IsReserve (pos t) pct reserve
    → (r : ℕ) × (reserve ≡ pos r) × (r ≤ t)
reserve_le t pct reserve (IsReserve.nothing h) = (0, refl, omega arith)
reserve_le t pct reserve (IsReserve.everything h) = (t, refl, omega arith)
reserve_le t pct reserve (IsReserve.part q rest p low high small) =
    let within : q * p ≤ q * 100 = mul-le-mul_left q (omega arith) in
    (q * p, refl, omega (arith, within))

-- A difference of amounts of 64 bits does not wrap around.
wrap_difference : (a r : ℕ) → a < 2 ^ 63 → r < 2 ^ 63 → wrap64 (pos a -ℤ pos r) ≡ pos a -ℤ pos r
unfolding ◌-ℤ◌
wrap_difference a r ha hr = ground arith

-- What the code compares says that the size and the reserve are within what is available.
pub fits_of :
    (size rest avail total pct reserve : ℤ)
    → IsInt64 avail
    → IsInt64 total
    → IsReserve total pct reserve
    → rest ≡ wrap64 (avail -ℤ reserve)
    → size ≤ℤ rest
    → (a t : ℕ) → avail ≡ pos a
    → total ≡ pos t
    → size +ℤ reserve ≤ℤ pos a
unfolding ◌+ℤ◌ ◌-ℤ◌
fits_of size rest avail total pct reserve ia it is e room a t pa pt =
    let is' : IsReserve (pos t) pct reserve = subst (λ x. IsReserve x pct reserve) pt is in
    let (r, pr, le) = reserve_le t pct reserve is' in
    let ha : a < 2 ^ 63 = subst IsInt64 pa ia in
    let ht : t < 2 ^ 63 = subst IsInt64 pt it in
    let plain_difference : rest ≡ pos a -ℤ pos r =
      e
      ∙ ap (λ x. wrap64 (x -ℤ reserve)) pa
      ∙ ap (λ x. wrap64 (pos a -ℤ x)) pr
      ∙ wrap_difference a r ha (omega arith) in
    subst (λ x. size +ℤ x ≤ℤ pos a) (sym pr)
      (within size a r (subst (λ x. size ≤ℤ x) plain_difference room))
  where
    within : (size : ℤ) (a r : ℕ) → size ≤ℤ pos a -ℤ pos r → size +ℤ pos r ≤ℤ pos a
    within (pos n) a r h = ground arith
    within (negsuc n) a r h = ground arith
