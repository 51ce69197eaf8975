-- ===== src/Qnap/ExternalId.antt =====
-- internal/driver/qnap/externalid.go: the volume and snapshot ids of the wire.
pub mod RoundTrip
use nomad_csi_driver.Base.{
  ℕ, ℤ, Text, Bool, true, false, ◌&&◌, List, [], ◌∷◌, ◌++◌, Option, none, some, codes, ◌==◌,
  text_eq, if◌then◌else◌,
}
use nomad_csi_driver.Driver.Errors.{Code, coded, Result, ok, err}
use nomad_csi_driver.Go.Strconv.{atoi, format_int}
use nomad_csi_driver.Go.Strings.{split}

pub record ExternalId : Type 0 where
  pub lun_index : ℤ
  pub target_index : ℤ
  pub own_target : Bool
  pub lun_name : Text

pub record SnapshotId : Type 0 where
  pub lun_index : ℤ
  pub snapshot_id : ℤ

abbrev pub slash : ℕ
slash = b'/'

abbrev own_tag : Bool → Text
own_tag b = if b then codes "t" else codes "s"

unfoldable pub print_id : ExternalId → Text
print_id e =
    codes "qnap"
    ++ slash
      ∷ (codes "v1"
          ++ slash
            ∷ (format_int e.lun_index
                ++ slash
                  ∷ (format_int e.target_index
                      ++ slash ∷ (own_tag e.own_target ++ slash ∷ e.lun_name))))

-- The two numbers of an id.
abbrev with_indices : Option ℤ → Option ℤ → Bool → Text → Result ExternalId
with_indices none t own name = err (coded Code.invalid_argument)
with_indices (some l) none own name = err (coded Code.invalid_argument)
with_indices (some l) (some t) own name =
    ok (record { lun_index = l; target_index = t; own_target = own; lun_name = name })

id_of_parts : List Text → Result ExternalId
id_of_parts (a ∷ v ∷ l ∷ t ∷ own ∷ name ∷ []) =
    if a == codes "qnap" && v == codes "v1"
    then with_indices (atoi l) (atoi t) (own == codes "t") name
    else err (coded Code.invalid_argument)
id_of_parts _ = err (coded Code.invalid_argument)

unfoldable pub parse_id : Text → Result ExternalId
unfolding id_of_parts
parse_id id = id_of_parts (split slash id)

unfoldable pub print_snapshot_id : SnapshotId → Text
print_snapshot_id s =
    codes "qnaps"
    ++ slash ∷ (codes "v1" ++ slash ∷ (format_int s.lun_index ++ slash ∷ format_int s.snapshot_id))

abbrev with_snapshot : Option ℤ → Option ℤ → Result SnapshotId
with_snapshot none s = err (coded Code.invalid_argument)
with_snapshot (some l) none = err (coded Code.invalid_argument)
with_snapshot (some l) (some s) = ok (record { lun_index = l; snapshot_id = s })

snapshot_of_parts : List Text → Result SnapshotId
snapshot_of_parts (a ∷ v ∷ l ∷ s ∷ []) =
    if a == codes "qnaps" && v == codes "v1"
    then with_snapshot (atoi l) (atoi s)
    else err (coded Code.invalid_argument)
snapshot_of_parts _ = err (coded Code.invalid_argument)

unfoldable pub parse_snapshot_id : Text → Result SnapshotId
unfolding snapshot_of_parts
parse_snapshot_id id = snapshot_of_parts (split slash id)
