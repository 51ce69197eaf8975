-- ===== src/Local/Staged.antt =====
-- internal/driver/local/node.go and reconcile.go: which volumes are staged on a node, by its table of
-- mounts, and the sweep that tracks them again after a restart.
pub mod Distinct
use nomad_csi_driver.Base.{
  ℕ, ℤ, pos, suc, Text, Bool, true, false, List, [], ◌∷◌, ◌++◌, Option, none, some, length, codes,
  text_eq, ◌==◌, if◌then◌else◌,
}
use nomad_csi_driver.Base.Map.{Map, has, lookup, insert}
use nomad_csi_driver.Driver.Errors.{Result, ok, err, Io, pure, attempt, ◌>>=◌}
use nomad_csi_driver.Go.Path.{join_rooted}
use nomad_csi_driver.Host.Mounts.{Host, History, call, eval_symlinks}
use nomad_csi_driver.Host.MountTable.{Mount, list_mounts}
use nomad_csi_driver.Host.Zfs.{device_path}
use nomad_csi_driver.Local.ExternalId.{print_id, slash}
use nomad_csi_driver.Local.Params.{LocalConfig, PoolConfig}
use nomad_csi_driver.Local.Create.{parent_dataset_for}
use nomad_csi_driver.Stats.Registry.{Config, Registry, TrackSpec, reconcile}

-- `zvolDatasets`: the devices of this plugin, under both names, with their datasets.
abbrev pub Devices : Type 0
Devices = Map Text Text

by_real : Devices → Result Text → Option Text
by_real devs (ok real) = lookup real devs
by_real devs (err e) = none

with_real : Text → Result Text → Devices → Devices
with_real dataset (ok real) devs = insert real dataset devs
with_real dataset (err e) devs = devs

module _ (host : Host) where
  find_by_real : Devices → Text → Option Text → Io History (Option Text)
  unfolding by_real
  find_by_real devs source (some dataset) = pure (some dataset)
  find_by_real devs source none = do
    r ← attempt (call host (eval_symlinks source))
    pure (by_real devs r)

  -- The dataset that a mount's source is a device of.
  unfoldable pub dataset_of : Devices → Text → Io History (Option Text)
  unfolding find_by_real
  dataset_of devs source = find_by_real devs source (lookup source devs)

  note_source : Text → Option Text → Map Text (Unit {0}) → Map Text (Unit {0})
  note_source source none seen = seen
  note_source source (some dataset) seen = insert source tt seen

  count_sources : Devices → List Mount → Map Text (Unit {0}) → Io History ℕ
  unfolding note_source
  count_sources devs [] seen = pure (length seen)
  count_sources devs (m ∷ ms) seen = do
    found ← dataset_of devs m.source
    count_sources devs ms (note_source m.source found seen)

  unfoldable pub staged_count : (History → Devices) → Io History ℕ
  unfolding count_sources
  staged_count devices = do
    mounts ← list_mounts host
    devs ← (λ h. (ok (devices h), h))
    count_sources devs mounts []

  module _ (node : Text) where
    abbrev pub id_of : Text → Text
    id_of dataset = print_id (record { node = node; dataset = dataset })

    abbrev pub spec_of : Text → Text → TrackSpec
    spec_of dataset target = record {
      volume_id = id_of dataset;
      staging_path = target;
      access_type = codes "mount";
    }

    -- A mount, with what the rest of the loop gives for the ids seen so far.
    unfoldable pub collect_one :
        Mount
        → Option Text
        → (Map Text (Unit {0}) → Io History (List TrackSpec))
        → Map Text (Unit {0})
        → Io History (List TrackSpec)
    collect_one m none next seen = next seen
    collect_one m (some dataset) next seen = if has (id_of dataset) seen then next seen else (do
      rest ← next (insert (id_of dataset) tt seen)
      pure (spec_of dataset m.target ∷ rest))

    unfoldable pub collect :
        Devices → List Mount → Map Text (Unit {0}) → Io History (List TrackSpec)
    unfolding collect_one
    collect devs [] seen = pure []
    collect devs (m ∷ ms) seen = do
      found ← dataset_of devs m.source
      collect_one m found (collect devs ms) seen

    unfoldable pub staged_volumes : (History → Devices) → Io History (List TrackSpec)
    unfolding collect
    staged_volumes devices = do
      mounts ← list_mounts host
      devs ← (λ h. (ok (devices h), h))
      collect devs mounts []

    -- `sweep`: where the table of mounts cannot be read, nothing changes.
    swept : Config → Registry → Result (List TrackSpec) → Registry
    swept cfg r (err e) = r
    swept cfg r (ok specs) = (reconcile cfg node specs true (pos 2) r).0

    unfoldable pub sweep : Config → (History → Devices) → Registry → History → Registry × History
    unfolding swept
    sweep cfg devices r h = let (specs, h') = staged_volumes devices h in (swept cfg r specs, h')

  -- The entries of a pool's directory of zvols.
  module _ (cfg : LocalConfig) (parent_dataset node : Text)
      (read_dir : Text → Result (List Text)) where
    entries : Text → List Text → Devices → Io History Devices
    unfolding with_real
    entries parent [] devs = pure devs
    entries parent (name ∷ names) devs =
        let dataset = parent ++ slash ∷ name in
        let path = join_rooted (device_path parent) name in
        (do
          r ← attempt (call host (eval_symlinks path))
          entries parent names (with_real dataset r (insert path dataset devs)))

    names_in : Result (List Text) → List Text
    names_in (ok names) = names
    names_in (err e) = []

    unfoldable pub os_zvol_datasets : List PoolConfig → Devices → Io History Devices
    unfolding entries names_in
    os_zvol_datasets [] devs = pure devs
    os_zvol_datasets (p ∷ ps) devs =
        let parent = parent_dataset_for host cfg parent_dataset node p.name in
        (do
          found ← entries parent (names_in (read_dir (device_path parent))) devs
          os_zvol_datasets ps found)
