-- ===== src/Driver/Errors.antt =====
-- internal/driver/errors.go and internal/exec/runner.go: errors as values, and the monad of
-- operations that change a state and may fail.
use nomad_csi_driver.Base.{ℤ, ℕ}

-- `driver.Code`
pub data Code : Type 0 where
  unknown invalid_argument not_found already_exists failed_precondition out_of_range : Code
  resource_exhausted aborted unimplemented internal unavailable : Code

-- A Go `error`, by what the code can tell of it through `errors.As` and `errors.Is`; the message
-- is left out. `fmt.Errorf` with %w keeps the error, and a constructor of `driver` with %v makes
-- a new one.
pub data Error : Type 0 where
  coded : Code → Error
  exit : ℤ → Error
  api : ℤ → ℕ → Error
  session_invalid canceled deadline_exceeded plain : Error
  status : ℕ → Error

pub data Result {ℓ} (A : Type ℓ) : Type ℓ where
  ok : A → Result A
  err : Error → Result A

-- Go's `if err != nil { return err }` between steps without a state.
abbrev pub bind {ℓ κ} : {A : Type ℓ} {B : Type κ} → Result A → (A → Result B) → Result B
bind (ok a) f = f a
bind (err e) f = err e

-- What an operation wrote before it failed stays written.
abbrev pub Io {ℓ} : Type ℓ → Type ℓ → Type ℓ
Io S A = S → Result A × S

module _ {ℓ} {S A : Type ℓ} where
  abbrev pub pure : A → Io S A
  pure a s = (ok a, s)

  abbrev pub fail : Error → Io S A
  fail e s = (err e, s)

  abbrev pub lift : Result A → Io S A
  lift r s = (r, s)

  -- An error is handed on as a value.
  abbrev pub attempt : Io S A → Io S (Result A)
  attempt m s = let (r, s') = m s in (ok r, s')

module _ {ℓ} {S A B : Type ℓ} where
  abbrev pub continue : Result A → (A → Io S B) → Io S B
  continue (ok a) f s = f a s
  continue (err e) f s = (err e, s)

  infixl 5 ◌>>=◌ ◌>>◌
  abbrev pub ◌>>=◌ : Io S A → (A → Io S B) → Io S B
  ◌>>=◌ m f s = let (r, s') = m s in continue r f s'

  abbrev pub ◌>>◌ : Io S A → Io S B → Io S B
  m >> n = m >>= λ _. n
