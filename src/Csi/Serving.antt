-- ===== src/Csi/Serving.antt =====
-- internal/csi/controller.go and node.go: what the handlers of both services share. Handlers return
-- plain errors; a handler runs from its first line to its answer, and what other handlers do between
-- shows in the locks that it finds.
pub mod Restores
use nomad_csi_driver.Base.{Text, Bool, List, [], ◌∷◌, if◌then◌else◌}
use nomad_csi_driver.Driver.Errors.{Code, coded, Result, ok, err, Io, fail}
use nomad_csi_driver.Csi.Locks.{KeyedLocker, acquire, release}

-- `controllerServer` and `nodeServer`: the locks, and the state of the backend.
pub record Server (S : Type 0) : Type 0 where
  pub locks : KeyedLocker
  pub state : S

-- `if c.X { rpcs = append(rpcs, …) }`
abbrev pub when : {A : Type 0} → Bool → A → List A
when b a = if b then a ∷ [] else []

module _ {S : Type 0} where
  abbrev pub on_backend : {A : Type 0} → Io S A → Io (Server S) A
  on_backend m s = let (r, b) = m s.state in (r, record s { state = b })

  abbrev set_locks : {A : Type 0} → Result A × S → KeyedLocker → Result A × Server S
  set_locks (r, b) k = (r, record { locks = k; state = b })

  -- `release, err := acquire(…)`, `defer release()` and the rest of the handler, on the backend.
  unfoldable pub locked : {A : Type 0} → Text → Io S A → Io (Server S) A
  unfolding acquire
  locked key body s =
      let (r, k) = acquire key s.locks in
      elim r [
        | err e ↦ (err e, record s { locks = k })
        | ok _ ↦ set_locks (body s.state) (release key k)
      ]

  abbrev pub guarded : {A : Type 0} → Bool → Code → Io (Server S) A → Io (Server S) A
  guarded b c m = if b then m else fail (coded c)
