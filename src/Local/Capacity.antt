-- ===== src/Local/Capacity.antt =====
-- internal/driver/local/localops.go and controller.go: the reserve of a pool, and the guard of a create.
pub mod Reserve
pub mod Rules
use nomad_csi_driver.Base.{ℕ, suc, ◌/◌, ℤ, pos, negsuc, Text, Bool, if◌then◌else◌}
use nomad_csi_driver.Base.Int.{◌-ℤ◌, ltb_ℤ, leb_ℤ}
use nomad_csi_driver.Driver.Errors.{Error, Code, coded, Result, ok, err, Io, pure, fail, ◌>>=◌}
use nomad_csi_driver.Host.Mounts.{Host, History}
use nomad_csi_driver.Host.Zfs.{pool_available, pool_size}
use nomad_csi_driver.Local.Params.{LocalConfig, reserve_for}
use nomad_csi_driver.Local.Size.{wrap64, times}

-- `driver.Internal("…: %v", err)` for whatever went wrong.
abbrev pub internal_of : {A : Type 0} → Result A → Result A
internal_of (ok a) = ok a
internal_of (err e) = err (coded Code.internal)

abbrev pub or_internal : {S A : Type 0} → Io S A → Io S A
or_internal m s = let (r, s') = m s in (internal_of r, s')

-- Go's division by a number above zero, towards zero.
abbrev pub div_trunc : ℤ → ℕ → ℤ
div_trunc (pos a) b = pos (a / b)
div_trunc (negsuc a) b = pos 0 -ℤ pos (suc a / b)

unfoldable pub reserve_bytes : ℤ → ℤ → ℤ
reserve_bytes total pct =
    if leb_ℤ pct (pos 0)
    then pos 0
    else if leb_ℤ (pos 100) pct
    then total
    else times (div_trunc total 100) pct

-- What is available less the reserve; it wraps around as int64 does.
unfoldable pub after_reserve : ℤ → ℤ → ℤ → ℤ
unfolding reserve_bytes
after_reserve avail total pct = wrap64 (avail -ℤ reserve_bytes total pct)

unfoldable pub max64 : ℤ → ℤ → ℤ
max64 a b = if ltb_ℤ b a then a else b

module _ (host : Host) (cfg : LocalConfig) where
  -- The bytes that are available in a pool, less its reserve.
  unfoldable pub unreserved : Text → Io History ℤ
  unfolding after_reserve
  unreserved pool = do
    avail ← or_internal (pool_available host pool)
    total ← or_internal (pool_size host pool)
    pure (after_reserve avail total (reserve_for cfg pool))

  unfoldable pub check_capacity : Text → ℤ → Io History (Unit {0})
  unfolding unreserved
  check_capacity pool size = do
    rest ← unreserved pool
    if ltb_ℤ rest size then fail (coded Code.out_of_range) else pure tt
