-- ===== src/Driver/Keeps.antt =====
-- Invariants of operations that change a state and may fail, one rule for each way to build one.
use nomad_csi_driver.Base.{◌≡◌, refl, ap, Bool, true, false, if◌then◌else◌}
use nomad_csi_driver.Driver.Errors.{
  Error, Result, ok, err, Io, pure, fail, lift, continue, attempt, ◌>>=◌,
}

pub record Keeps {S A : Type 0} (P : S → Type 0) (m : Io S A) : Type 0 where
  pub at : (s : S) → P s → P (m s).1

module _ {S A : Type 0} {P : S → Type 0} where
  pub Keeps-pure : (a : A) → Keeps P (pure a)
  Keeps-pure a = record { at = λ s h. h }

  pub Keeps-fail : (e : Error) → Keeps P (fail {A = A} e)
  Keeps-fail e = record { at = λ s h. h }

  pub Keeps-lift : (r : Result A) → Keeps P (lift r)
  Keeps-lift r = record { at = λ s h. h }

  pub Keeps-if : (b : Bool) (m n : Io S A) → Keeps P m → Keeps P n → Keeps P (if b then m else n)
  Keeps-if true m n km kn = km
  Keeps-if false m n km kn = kn

  pub Keeps-attempt : (m : Io S A) → Keeps P m → Keeps P (attempt m)
  Keeps-attempt m k = record { at = k.at }

module _ {S A B : Type 0} {P : S → Type 0} where
  continue-keeps :
      (r : Result A × S) (f : A → Io S B)
      → ((a : A) → Keeps P (f a))
      → P r.1
      → P (continue r.0 f r.1).1
  continue-keeps (ok a, s) f kf h = (kf a).at s h
  continue-keeps (err e, s) f kf h = h

  pub Keeps-bind :
      (m : Io S A) (f : A → Io S B) → Keeps P m → ((a : A) → Keeps P (f a)) → Keeps P (m >>= f)
  Keeps-bind m f km kf = record { at = λ s h. continue-keeps (m s) f kf (km.at s h) }

module _ {S A B : Type 0} where
  -- At one state, with what the first step answered.
  pub then_at :
      (P : S → Type 0) (m : Io S A) (f : A → Io S B) (s : S)
      → P (m s).1
      → ((a : A) → (m s).0 ≡ ok a → P (f a (m s).1).1)
      → P ((m >>= f) s).1
  then_at P m f s h k = cases (m s) h k
    where
      cases :
          (r : Result A × S)
          → P r.1
          → ((a : A) → r.0 ≡ ok a → P (f a r.1).1)
          → P (continue r.0 f r.1).1
      cases (ok a, s) h k = k a refl
      cases (err e, s) h k = h

  -- What two steps did, if they succeeded.
  pub record Succeeded (m : Io S A) (f : A → Io S B) (s : S) (b : B) : Type 0 where
    pub first : A
    pub did_first : (m s).0 ≡ ok first
    pub did_second : (f first (m s).1).0 ≡ ok b
    pub leaves : ((m >>= f) s).1 ≡ (f first (m s).1).1

  pub succeeded :
      (m : Io S A) (f : A → Io S B) (s : S) (b : B) → ((m >>= f) s).0 ≡ ok b → Succeeded m f s b
  succeeded m f s b e = cases (m s) refl e
    where
      cases : (r : Result A × S) → m s ≡ r → (continue r.0 f r.1).0 ≡ ok b → Succeeded m f s b
      cases (ok a, t) q e = record {
        first = a;
        did_first = ap (λ x. x.0) q;
        did_second = rw q e;
        leaves = rw q refl;
      }
      cases (err x, t) q e = absurd (err-ne-ok x b e)
        where
          err-ne-ok : (x : Error) (b : B) → err x ≡ ok b → ⊥
          err-ne-ok x b e = cc

pub ruleset keeps_rules = (Keeps-pure, Keeps-fail, Keeps-lift, Keeps-bind)

pub ruleset io_rules = (keeps_rules, Keeps-if, Keeps-attempt)
