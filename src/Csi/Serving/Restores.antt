-- ===== src/Csi/Serving/Restores.antt =====
-- internal/csi/locks.go: `defer release()` gives the lock of a handler back.
use nomad_csi_driver.Base.{Text, Bool, ◌≡◌, refl, arith, text_eq, true, false}
use nomad_csi_driver.Base.Map.{has, insert, has-insert, has-erase}
use nomad_csi_driver.Driver.Errors.{Code, Io}
use nomad_csi_driver.Csi.Locks.{acquire, release}
use nomad_csi_driver.Csi.Serving.{Server, guarded, locked, on_backend}

pub record Restores {S A : Type 0} (k : Text) (m : Io (Server S) A) : Type 0 where
  pub at : (s : Server S) → has k (m s).1.locks.held ≡ has k s.locks.held

module _ {S : Type 0} where
  pub locked-Restores : {A : Type 0} (k key : Text) (body : Io S A) → Restores k (locked key body)
  unfolding locked acquire release
  locked-Restores k key body = record {
    at = λ s. ground (
      arith,
      has-insert key k tt s.locks.held,
      has-erase key k (insert key tt s.locks.held),
      text_eq.beq_iff key k,
    );
  }

  pub guarded-Restores :
      {A : Type 0} (k : Text) (b : Bool) (c : Code) (m : Io (Server S) A)
      → Restores k m
      → Restores k (guarded b c m)
  guarded-Restores k true c m h = h
  guarded-Restores k false c m h = record { at = λ s. refl }

  pub backend-Restores : {A : Type 0} (k : Text) (m : Io S A) → Restores k (on_backend m)
  backend-Restores k m = record { at = λ s. refl }
