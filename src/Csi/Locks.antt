-- ===== src/Csi/Locks.antt =====
-- internal/csi/locks.go: mutual exclusion by key, without waiting.
pub mod Exclusion
use nomad_csi_driver.Base.{Text, Bool, true, false, if◌then◌else◌, text_eq}
use nomad_csi_driver.Base.Map.{Map, insert, erase, has}
use nomad_csi_driver.Driver.Errors.{Io, Result, ok, err, coded, Code}

pub record KeyedLocker : Type 0 where
  pub held : Map Text (Unit {0})

-- The release function is `release key`.
unfoldable pub try_acquire : Text → KeyedLocker → Bool × KeyedLocker
try_acquire key k =
    if has key k.held then (false, k) else (true, record { held = insert key tt k.held })

unfoldable pub release : Text → KeyedLocker → KeyedLocker
release key k = record { held = erase key k.held }

unfoldable pub acquire : Text → Io KeyedLocker (Unit {0})
unfolding try_acquire
acquire key k =
    let (free, k') = try_acquire key k in (if free then ok tt else err (coded Code.aborted), k')
