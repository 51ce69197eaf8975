-- ===== src/Driver/FailsCoded.antt =====
-- Operations that fail with an error of the driver, which has a code.
use nomad_csi_driver.Base.{◌≡◌, refl, Bool, true, false, if◌then◌else◌}
use nomad_csi_driver.Driver.Errors.{
  Code, coded, Result, ok, err, Io, pure, fail, lift, continue, attempt, ◌>>=◌,
}

abbrev pub IsCoded : {A : Type 0} → Result A → Type 0
IsCoded (ok a) = Unit
IsCoded (err e) = (c : Code) × (e ≡ coded c)

pub record FailsCoded {S A : Type 0} (m : Io S A) : Type 0 where
  pub at : (s : S) → IsCoded (m s).0

module _ {S A : Type 0} where
  pub FailsCoded-pure : (a : A) → FailsCoded {S = S} (pure a)
  FailsCoded-pure a = record { at = λ s. tt }

  pub FailsCoded-fail : (c : Code) → FailsCoded {S = S} (fail {A = A} (coded c))
  FailsCoded-fail c = record { at = λ s. (c, refl) }

  pub FailsCoded-lift : (r : Result A) → IsCoded r → FailsCoded {S = S} (lift r)
  FailsCoded-lift r h = record { at = λ s. h }

  pub FailsCoded-attempt : (m : Io S A) → FailsCoded (attempt m)
  FailsCoded-attempt m = record { at = λ s. tt }

  pub FailsCoded-if :
      (b : Bool) (m n : Io S A) → FailsCoded m → FailsCoded n → FailsCoded (if b then m else n)
  FailsCoded-if true m n km kn = km
  FailsCoded-if false m n km kn = kn

module _ {S A B : Type 0} where
  continue-IsCoded :
      (r : Result A × S) (f : A → Io S B)
      → IsCoded r.0
      → ((a : A) → FailsCoded (f a))
      → IsCoded (continue r.0 f r.1).0
  continue-IsCoded (ok a, s) f h k = (k a).at s
  continue-IsCoded (err e, s) f h k = h

  pub FailsCoded-bind :
      (m : Io S A) (f : A → Io S B)
      → FailsCoded m
      → ((a : A) → FailsCoded (f a))
      → FailsCoded (m >>= f)
  FailsCoded-bind m f km kf = record { at = λ s. continue-IsCoded (m s) f (km.at s) kf }

  caught-IsCoded :
      (r : Result A × S) (f : Result A → Io S B)
      → IsCoded r.0
      → ((x : Result A) → IsCoded x → FailsCoded (f x))
      → IsCoded (f r.0 r.1).0
  caught-IsCoded (x, s) f h k = (k x h).at s

  -- An error that was caught has a code too.
  pub FailsCoded-caught :
      (m : Io S A) (f : Result A → Io S B)
      → FailsCoded m
      → ((x : Result A) → IsCoded x → FailsCoded (f x))
      → FailsCoded (attempt m >>= f)
  FailsCoded-caught m f km kf = record { at = λ s. caught-IsCoded (m s) f (km.at s) kf }

pub ruleset coded_rules = (
  FailsCoded-pure, FailsCoded-fail, FailsCoded-lift, FailsCoded-attempt, FailsCoded-if,
  FailsCoded-bind,
)
