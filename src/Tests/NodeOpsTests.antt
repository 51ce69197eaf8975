-- ===== src/Tests/NodeOpsTests.antt =====
-- internal/driver/local: the operations of a node and of a cluster at concrete inputs.
use nomad_csi_driver.Base.{
  arith, pos, Text, false, ◌≡◌, refl, inr, [], ◌∷◌, none, codes, contains, text_eq, ◌==◌,
  if◌then◌else◌,
}
use nomad_csi_driver.Driver.Errors.{exit, Result, ok, err}
use nomad_csi_driver.Host.Mounts.{Host, Call, run}
use nomad_csi_driver.Host.Calls.{Adds}
use nomad_csi_driver.Local.ExternalId.{ExternalId, parse_id, print_id, valid_dataset}
use nomad_csi_driver.Local.ExternalId.RoundTrip.{parse-print_local_id}
use nomad_csi_driver.Local.Params.{LocalConfig}
use nomad_csi_driver.Local.Wire.{CreateArgs, ExpandArgs}
use nomad_csi_driver.Local.Create.{local_create, dataset_for}
use nomad_csi_driver.Local.Create.Calls.{CreateCall}
use nomad_csi_driver.Local.Create.Safety.{local_create-Fine}
use nomad_csi_driver.Local.Ops.{local_expand}
use nomad_csi_driver.Local.Ops.Expand.{ExpandCall, local_expand-grows}
use nomad_csi_driver.Local.Forward.{Method, Node, Network, Cluster, answered, on_owner, serve_at}
use nomad_csi_driver.Local.Forward.Owner.{on_owner-serve}
use nomad_csi_driver.Local.Controller.{delete_volume}
use nomad_csi_driver.Local.Controller.Delete.{Touched, delete_volume-Touched}

abbrev volume : ExternalId
volume = record { node = codes "n1"; dataset = codes "tank/nomad-csi/pvc-1" }

volume_parses : parse_id (print_id volume) ≡ ok volume
unfolding valid_dataset contains
volume_parses = parse-print_local_id volume ((λ e. ground arith), ground arith) refl

abbrev config : LocalConfig
config = record {
  pools = record { name = codes "tank"; parent_dataset = []; reserve_percent = none } ∷ [];
  default_pool = codes "tank";
  default_volblocksize = [];
  reserve_percent = pos 10;
}

-- A pool that is online, with nothing in it, and every number 1000000.
abbrev answer_of : Call → Result Text
answer_of (run (program ∷ verb ∷ args)) =
    if verb == codes "list"
    then if program == codes "zpool" then ok (codes "ONLINE") else err (exit (pos 1))
    else ok (codes "1000000")
answer_of _ = ok []

abbrev empty_host : Host
empty_host = record { is_not_exist = λ e. false; answer = λ h c. answer_of c }

-- A volume that has no snapshots.
abbrev full_host : Host
full_host = record { is_not_exist = λ e. false; answer = λ h c. ok (codes "") }

abbrev create_args : CreateArgs
create_args = record {
  name = codes "pvc-1";
  pool = codes "tank";
  size_bytes = pos 65536;
  volblocksize = codes "16K";
  fs_type = codes "ext4";
  block = false;
  content_snapshot_id = [];
  content_volume_id = [];
}

local_create-Fine_example :
    Adds
      (CreateCall config (codes "n1") create_args (
        dataset_for empty_host config
          (codes "nomad-csi")
          (codes "n1")
          (codes "tank")
          (codes "pvc-1")))
      []
      (local_create empty_host config (codes "nomad-csi") (codes "n1") create_args []).1
local_create-Fine_example =
    local_create-Fine empty_host config (codes "nomad-csi") (codes "n1") create_args []

abbrev expand_args : ExpandArgs
expand_args = record {
  volume_id = print_id volume;
  required_bytes = pos 3000000;
  limit_bytes = pos 0;
}

local_expand-grows_example :
    Adds
      (ExpandCall (codes "tank/nomad-csi/pvc-1") (pos 0))
      []
      (local_expand empty_host config (codes "nomad-csi") (codes "n1") expand_args []).1
local_expand-grows_example =
    local_expand-grows empty_host config (codes "nomad-csi") (codes "n1") [] expand_args volume
      volume_parses

abbrev nodes : Text → Node
nodes name = record { host = full_host; config = config; parent_dataset = codes "nomad-csi" }

abbrev network : Network
network = record {
  resolve = λ s n. ok tt;
  list = λ s. ok (codes "n1" ∷ codes "n2" ∷ []);
  delivery = λ s n m a. answered;
}

abbrev idle : Cluster
idle = λ n. []

delete_volume-Touched_example :
    Touched volume
      (codes "n1")
      (idle (codes "n1"))
      ((delete_volume nodes network false (codes "n2") (print_id volume) idle).1 (codes "n1"))
delete_volume-Touched_example =
    delete_volume-Touched nodes network (print_id volume) volume volume_parses false (codes "n2")
      (codes "n1") idle

on_owner-serve_example :
    on_owner nodes network false (codes "n2") (codes "n1") Method.delete (print_id volume) idle
    ≡ serve_at nodes network (codes "n1") Method.delete (print_id volume) idle
on_owner-serve_example =
    on_owner-serve nodes network (codes "n1") Method.delete (print_id volume) (codes "n2") idle
      (inr (refl, refl))
