-- ===== src/Qnap/Controller/Safety.antt =====
-- internal/driver/qnap/controller.go: what makes a history of calls safe for other volumes. QNAP
-- reuses indices, so a call that changes a LUN or a target must follow an answer that shows, by
-- name, that the index still belongs to the volume.
use nomad_csi_driver.Base.{
  ℤ, Text, ◌≡◌, true, List, [], ◌∷◌, Option, none, some, text_eq, int_eq, ◌==◌, if◌then◌else◌,
}
use nomad_csi_driver.Driver.Errors.{ok, err}
use nomad_csi_driver.Qnap.Appliance.{
  History, QnapSnapshot, got_lun, got_target, listed_snapshots, unmapped_lun, deleted_lun,
  resized_lun, deleted_target, created_snapshot,
}
use nomad_csi_driver.Qnap.ExternalId.{ExternalId}

-- The name of the LUN at `i` in the latest answer about it; none if that was an error.
abbrev pub last_seen : ℤ → History → Option Text
last_seen i [] = none
last_seen i (got_lun j (ok l) ∷ h) = if j == i then some l.name else last_seen i h
last_seen i (got_lun j (err e) ∷ h) = if j == i then none else last_seen i h
last_seen i (_ ∷ h) = last_seen i h

-- The alias of the target at `i` in the latest answer about it.
abbrev pub last_alias : ℤ → History → Option Text
last_alias i [] = none
last_alias i (got_target j (ok t) ∷ h) = if j == i then some t.alias else last_alias i h
last_alias i (got_target j (err e) ∷ h) = if j == i then none else last_alias i h
last_alias i (_ ∷ h) = last_alias i h

-- The snapshots of the LUN at `i` in the latest answer about them.
abbrev pub last_snapshots : ℤ → History → Option (List QnapSnapshot)
last_snapshots i [] = none
last_snapshots i (listed_snapshots j (ok l) ∷ h) = if j == i then some l else last_snapshots i h
last_snapshots i (listed_snapshots j (err e) ∷ h) = if j == i then none else last_snapshots i h
last_snapshots i (_ ∷ h) = last_snapshots i h

-- Every call that changes a LUN or deletes a target is on the volume's own index, right after an
-- answer with its name; a LUN is unmapped or deleted only when it was last seen with no snapshots, and a target
-- only when it was made for the volume.
abbrev pub IsSafe : ExternalId → History → Type 0
IsSafe e [] = Unit
IsSafe e (deleted_lun i r ∷ h) =
    (i ≡ e.lun_index)
    × (last_seen i h ≡ some e.lun_name)
    × (last_snapshots i h ≡ some [])
    × IsSafe e h
IsSafe e (unmapped_lun i t r ∷ h) =
    (i ≡ e.lun_index)
    × (t ≡ e.target_index)
    × (last_seen i h ≡ some e.lun_name)
    × (last_snapshots i h ≡ some [])
    × IsSafe e h
IsSafe e (resized_lun i n r ∷ h) =
    (i ≡ e.lun_index) × (last_seen i h ≡ some e.lun_name) × IsSafe e h
IsSafe e (created_snapshot i n r ∷ h) =
    (i ≡ e.lun_index) × (last_seen i h ≡ some e.lun_name) × IsSafe e h
IsSafe e (deleted_target i r ∷ h) =
    (i ≡ e.target_index) × (e.own_target ≡ true) × (last_alias i h ≡ some e.lun_name) × IsSafe e h
IsSafe e (_ ∷ h) = IsSafe e h
