-- ===== src/Local/Create/Safety.antt =====
-- internal/driver/local/localops.go: localCreate destroys nothing but its own snapshots, and checks
-- the room first.
use nomad_csi_driver.Base.{Text, text_eq}
use nomad_csi_driver.Driver.Keeps.{Keeps, io_rules}
use nomad_csi_driver.Host.Mounts.{Host, History}
use nomad_csi_driver.Host.Calls.{Adds, none_yet}
use nomad_csi_driver.Host.Zfs.Questions.{questions}
use nomad_csi_driver.Local.Params.{LocalConfig}
use nomad_csi_driver.Local.Wire.{CreateArgs}
use nomad_csi_driver.Local.Capacity.Rules.{or_internal-Keeps}
use nomad_csi_driver.Local.Create.{
  local_create, create_in_pool, create_new, provision, reuse, same_source, dataset_for,
}
use nomad_csi_driver.Local.Create.Calls.{CreateCall, CreateCall-Reads}
use nomad_csi_driver.Local.Create.Fresh.{asked_size, create_fresh-Fine}
use nomad_csi_driver.Local.Create.Copies.{restore_from_snapshot-Fine, clone_from_volume-Fine}

module _ (host : Host) (cfg : LocalConfig) (parent_dataset node : Text) (start : History)
    (a : CreateArgs) (dataset : Text) where
  -- The new calls are those of the create.
  abbrev Fine : History → Type 0
  Fine = Adds (CreateCall cfg node a dataset) start

  provision-Fine : Keeps Fine (provision host cfg parent_dataset node a dataset)
  unfolding provision
  provision-Fine =
      search (io_rules, restore_from_snapshot-Fine, clone_from_volume-Fine, create_fresh-Fine)

  same_source-Fine : Keeps Fine (same_source host cfg parent_dataset node a dataset)
  unfolding same_source
  same_source-Fine =
      search (io_rules, or_internal-Keeps, questions, CreateCall-Reads cfg node a dataset)

  reuse-Fine : Keeps Fine (reuse host cfg parent_dataset node a dataset)
  unfolding reuse
  reuse-Fine = search (io_rules, asked_size, same_source-Fine)

  create_in_pool-Fine : Keeps Fine (create_in_pool host cfg parent_dataset node a dataset)
  unfolding create_in_pool create_new
  create_in_pool-Fine = search (
    io_rules,
    or_internal-Keeps,
    questions,
    CreateCall-Reads cfg node a dataset,
    reuse-Fine,
    provision-Fine,
  )

module _ (host : Host) (cfg : LocalConfig) (parent_dataset node : Text) where
  -- Whatever the host answers, creating a volume adds only questions and changes of `CreateCall`: a
  -- new zvol, a transient snapshot and a restore only when the latest two answers were numbers, what a
  -- pool has available and its size, and the first less the reserve by the second, in 64-bit
  -- arithmetic, is the size at least, so that, where both are amounts, the size and the reserve are
  -- within what is available; copies only of the source on this node, `zfs destroy` only of the snapshot
  -- that came with a copy, or of the transient one taken before, and only growth of the new dataset.
  pub local_create-Fine :
      (a : CreateArgs) (start : History)
      → Adds
          (CreateCall cfg node a (dataset_for host cfg parent_dataset node a.pool a.name))
          start
          (local_create host cfg parent_dataset node a start).1
  unfolding local_create
  local_create-Fine a start = whole.at start none_yet
    where
      whole :
          Keeps
            (Adds
              (CreateCall cfg node a (dataset_for host cfg parent_dataset node a.pool a.name))
              start)
            (local_create host cfg parent_dataset node a)
      whole = search (
        io_rules,
        or_internal-Keeps,
        questions,
        create_in_pool-Fine host cfg parent_dataset node start a,
        CreateCall-Reads cfg node a (dataset_for host cfg parent_dataset node a.pool a.name),
      )
