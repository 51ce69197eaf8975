-- ===== src/Qnap/Params/Size.antt =====
-- internal/driver/qnap/params.go: `sizeGiBExact` accepts whole GiB within the limit, and nothing else.
use nomad_csi_driver.Base.{ℕ, zero, suc, ◌*◌, ◌<◌, ℤ, pos, negsuc, ◌≡◌, ◌↔◌, arith}
use nomad_csi_driver.Base.Int.{◌≤ℤ◌}
use nomad_csi_driver.Driver.Errors.{ok}
use nomad_csi_driver.Driver.Types.{CapacityRange}
use nomad_csi_driver.Qnap.Params.{gib, size_gib_exact}

-- A size of `n` GiB answers the range: it is the size that was asked for, and within a limit that
-- is set.
pub record Answers (cr : CapacityRange) (n : ℕ) : Type 0 where
  pub positive : 0 < n
  pub exact : cr.required_bytes ≡ pos (n * gib)
  pub within : pos 1 ≤ℤ cr.limit_bytes → cr.required_bytes ≤ℤ cr.limit_bytes

abbrev range : ℤ → ℤ → CapacityRange
range r l = record { required_bytes = r; limit_bytes = l }

accepted : (r l : ℤ) (n : ℕ) → size_gib_exact (range r l) ≡ ok n → Answers (range r l) n
unfolding size_gib_exact
accepted (pos zero) l n h = absurd (ground arith)
accepted (pos (suc m)) l n h = record {
  positive = ground arith;
  exact = ground arith;
  within = ground arith;
}
accepted (negsuc m) l n h = absurd (ground arith)

answered : (r l : ℤ) (n : ℕ) → Answers (range r l) n → size_gib_exact (range r l) ≡ ok n
unfolding size_gib_exact
answered (pos zero) l n a = absurd (ground (arith, a.exact, a.positive))
answered (pos (suc m)) l n a = ground (arith, a.exact, a.positive, a.within)
answered (negsuc m) l n a = absurd (ground (arith, a.exact))

-- A capacity range is converted to `n` exactly when it asks for `n` GiB to the byte, more than
-- none, and a limit that is set allows that. No size is rounded.
pub size_gib_exact_iff : (cr : CapacityRange) (n : ℕ) → (size_gib_exact cr ≡ ok n) ↔ Answers cr n
size_gib_exact_iff cr n =
    (accepted cr.required_bytes cr.limit_bytes n, answered cr.required_bytes cr.limit_bytes n)
