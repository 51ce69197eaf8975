-- ===== src/Local/Create/Calls.antt =====
-- internal/driver/local/localops.go: what localCreate may change on the host.
use nomad_csi_driver.Base.{ℤ, Text, ◌≡◌, true, [], ◌∷◌, ◌++◌, codes}
use nomad_csi_driver.Base.Int.{◌<ℤ◌}
use nomad_csi_driver.Driver.Errors.{ok}
use nomad_csi_driver.Go.Strconv.{format_int}
use nomad_csi_driver.Host.Mounts.{History, Call, run, run_pipe}
use nomad_csi_driver.Host.Calls.{Told, Seen, asks, Reads}
use nomad_csi_driver.Host.Zfs.{zfs, create_args, at_snapshot, get_args}
use nomad_csi_driver.Host.Zfs.Commands.{IsOk}
use nomad_csi_driver.Local.ExternalId.{ExternalId, SnapshotId, parse_id, parse_snapshot_id}
use nomad_csi_driver.Local.Params.{LocalConfig}
use nomad_csi_driver.Local.Wire.{CreateArgs}
use nomad_csi_driver.Local.Capacity.Rules.{IsNumber, HasRoom}
use nomad_csi_driver.Local.Create.{source_prop}

-- The transient snapshot of a clone.
abbrev pub transient : CreateArgs → Text
transient a = codes "csiclone-" ++ a.name

abbrev pub snapshot_call : Text → Text → Call
snapshot_call d snap = run (zfs (codes "snapshot" ∷ at_snapshot d snap ∷ []))

abbrev pub destroy_call : Text → Text → Call
destroy_call d snap = run (zfs (codes "destroy" ∷ at_snapshot d snap ∷ []))

abbrev pub copy_call : Text → Text → Text → Call
copy_call d snap dest =
    run_pipe (zfs (codes "send" ∷ at_snapshot d snap ∷ [])) (zfs (codes "recv" ∷ dest ∷ []))

-- What creating the volume with this dataset on this node may call.
pub data CreateCall (cfg : LocalConfig) (node : Text) (a : CreateArgs) (dataset : Text)
    (h : History) (c : Call) : Type 0 where
  only_asks : asks c ≡ true → CreateCall cfg node a dataset h c
  makes :
      c ≡ run (zfs (create_args dataset a.size_bytes a.volblocksize))
      → HasRoom cfg a.pool a.size_bytes h
      → CreateCall cfg node a dataset h c
  takes_transient :
      (src : ExternalId)
      → parse_id a.content_volume_id ≡ ok src
      → src.node ≡ node
      → c ≡ snapshot_call src.dataset (transient a)
      → HasRoom cfg a.pool a.size_bytes h
      → CreateCall cfg node a dataset h c
  copies_volume :
      (src : ExternalId)
      → parse_id a.content_volume_id ≡ ok src
      → c ≡ copy_call src.dataset (transient a) dataset
      → Told (snapshot_call src.dataset (transient a)) IsOk h
      → CreateCall cfg node a dataset h c
  copies_snapshot :
      (sid : SnapshotId)
      → parse_snapshot_id a.content_snapshot_id ≡ ok sid
      → sid.node ≡ node
      → c ≡ copy_call sid.dataset sid.snap_name dataset
      → HasRoom cfg a.pool a.size_bytes h
      → CreateCall cfg node a dataset h c
  drops_received :
      (src snap : Text)
      → c ≡ destroy_call dataset snap
      → Told (copy_call src snap dataset) IsOk h
      → CreateCall cfg node a dataset h c
  drops_transient :
      (src : ExternalId)
      → parse_id a.content_volume_id ≡ ok src
      → c ≡ destroy_call src.dataset (transient a)
      → Seen (Told (snapshot_call src.dataset (transient a)) IsOk) h
      → CreateCall cfg node a dataset h c
  stamps :
      (value : Text)
      → c ≡ run (zfs (codes "set" ∷ (source_prop ++ b'=' ∷ value) ∷ dataset ∷ []))
      → CreateCall cfg node a dataset h c
  grows :
      (cur : ℤ)
      → c ≡ run (zfs (codes "set" ∷ (codes "volsize=" ++ format_int a.size_bytes) ∷ dataset ∷ []))
      → Told (run (zfs (get_args (codes "volsize") dataset))) (IsNumber cur) h
      → cur <ℤ a.size_bytes
      → CreateCall cfg node a dataset h c

pub CreateCall-Reads :
    (cfg : LocalConfig) (node : Text) (a : CreateArgs) (dataset : Text)
    → Reads (CreateCall cfg node a dataset)
CreateCall-Reads cfg node a dataset = record { at = λ h c. CreateCall.only_asks }
