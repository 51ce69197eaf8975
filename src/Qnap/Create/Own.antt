-- ===== src/Qnap/Create/Own.antt =====
-- internal/driver/qnap/controller.go: what a create may change on the appliance.
use nomad_csi_driver.Base.{ℤ, Bool, true, false, ◌≡◌, ◌||◌, [], ◌∷◌, int_eq, ◌==◌}
use nomad_csi_driver.Driver.Errors.{ok}
use nomad_csi_driver.Qnap.Appliance.{
  Event, History, created_lun, created_target, deleted_lun, unmapped_lun, resized_lun,
  deleted_target, created_snapshot, deleted_snapshot,
}

abbrev pub makes_lun : ℤ → Event → Bool
makes_lun i (created_lun r (ok j)) = j == i
makes_lun i (_) = false

abbrev pub makes_target : ℤ → Event → Bool
makes_target i (created_target name ifs (ok j)) = j == i
makes_target i (_) = false

-- A LUN of that index was made.
abbrev pub made_lun : ℤ → History → Bool
made_lun i [] = false
made_lun i (e ∷ h) = makes_lun i e || made_lun i h

abbrev pub made_target : ℤ → History → Bool
made_target i [] = false
made_target i (e ∷ h) = makes_target i e || made_target i h

-- A call that changes something after the history `h` is on a LUN or a target that was made in it.
abbrev pub IsOwnCall : Event → History → Type 0
IsOwnCall (deleted_lun i r) h = ⊥
IsOwnCall (unmapped_lun i t r) h = ⊥
IsOwnCall (created_snapshot i n r) h = ⊥
IsOwnCall (deleted_snapshot i r) h = ⊥
IsOwnCall (resized_lun i n r) h = made_lun i h ≡ true
IsOwnCall (deleted_target i r) h = made_target i h ≡ true
IsOwnCall (_) h = Unit

-- Nothing was changed or deleted but LUNs and targets that were made before in the same history.
abbrev pub IsOwn : History → Type 0
IsOwn [] = Unit
IsOwn (e ∷ h) = IsOwnCall e h × IsOwn h
