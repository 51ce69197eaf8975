-- ===== src/Local/Forward.antt =====
-- internal/driver/local/forwardapi.go, controller.go (forward) and internal/cluster/forward.go: an
-- operation is run by the node that owns the volume, here or over the network.
pub mod Coded
pub mod Owner
use nomad_csi_driver.Base.{ℤ, Text, Bool, List, text_eq, ◌==◌, if◌then◌else◌}
use nomad_csi_driver.Driver.Errors.{Error, Code, coded, Result, ok, err, Io}
use nomad_csi_driver.Host.Mounts.{Host, History}
use nomad_csi_driver.Local.Params.{LocalConfig}
use nomad_csi_driver.Local.Wire.{
  CreateArgs, CreateResult, ExpandArgs, SnapshotArgs, SnapshotResult, StatsResult, VolWire,
  SnapWire,
}
use nomad_csi_driver.Local.Create.{local_create}
use nomad_csi_driver.Local.Ops.{
  local_delete, local_exists, local_expand, local_snapshot, local_delete_snapshot, local_stats,
  local_list, local_list_snapshots,
}

pub data Method : Type 0 where
  create delete expand snapshot delete_snapshot stats list list_snapshots exists : Method

-- What a request of a method carries; the JSON of plain data is read as it was written.
abbrev pub Args : Method → Type 0
Args Method.create = CreateArgs
Args Method.delete = Text
Args Method.expand = ExpandArgs
Args Method.snapshot = SnapshotArgs
Args Method.delete_snapshot = Text
Args Method.stats = Text
Args Method.list = Unit {0}
Args Method.list_snapshots = Text
Args Method.exists = Text

abbrev pub Reply : Method → Type 0
Reply Method.create = CreateResult
Reply Method.delete = Unit {0}
Reply Method.expand = ℤ
Reply Method.snapshot = SnapshotResult
Reply Method.delete_snapshot = Unit {0}
Reply Method.stats = StatsResult
Reply Method.list = List VolWire
Reply Method.list_snapshots = List SnapWire
Reply Method.exists = Bool

-- A node: its host, its settings, and the parent dataset of the deployment.
pub record Node : Type 0 where
  pub host : Host
  pub config : LocalConfig
  pub parent_dataset : Text

-- The operation of a request on the node with this name.
unfoldable pub serve : Node → Text → (m : Method) → Args m → Io History (Reply m)
serve n name Method.create a = local_create n.host n.config n.parent_dataset name a
serve n name Method.delete id = local_delete n.host n.config n.parent_dataset name id
serve n name Method.expand a = local_expand n.host n.config n.parent_dataset name a
serve n name Method.snapshot a = local_snapshot n.host n.config n.parent_dataset name a
serve n name Method.delete_snapshot id =
    local_delete_snapshot n.host n.config n.parent_dataset name id
serve n name Method.stats pool = local_stats n.host n.config n.parent_dataset name pool
serve n name Method.list a = local_list n.host n.config n.parent_dataset name
serve n name Method.list_snapshots d = local_list_snapshots n.host n.config n.parent_dataset name d
serve n name Method.exists id = local_exists n.host n.config n.parent_dataset name id

-- The histories of the hosts of all nodes.
abbrev pub Cluster : Type 0
Cluster = Text → History

unfoldable pub with_history : Text → History → Cluster → Cluster
with_history name h s = λ other. if other == name then h else s other

-- What becomes of a request: it does not reach the peer, the peer does not take the secret, its
-- answer does not come back, or it is answered.
pub data Delivery : Type 0 where
  not_sent : Error → Delivery
  refused : Delivery
  answer_lost : Error → Delivery
  answered : Delivery

-- Discovery of peers, and the transport between them; both may change with what happens.
pub record Network : Type 0 where
  pub resolve : Cluster → Text → Result (Unit {0})
  pub list : Cluster → Result (List Text)
  pub delivery : Cluster → Text → (m : Method) → Args m → Delivery

-- codedFromErr, the wire, and remoteToDriver
unfoldable pub over_wire : {A : Type 0} → Result A → Result A
over_wire (ok a) = ok a
over_wire (err (coded c)) = err (coded c)
over_wire (err e) = err (coded Code.internal)

module _ (nodes : Text → Node) (net : Network) where
  unfoldable pub serve_at : Text → (m : Method) → Args m → Io Cluster (Reply m)
  unfolding with_history
  serve_at name m a s =
      let (r, h) = serve (nodes name) name m a (s name) in (r, with_history name h s)

  exchange : Text → (m : Method) → Args m → Delivery → Io Cluster (Reply m)
  unfolding serve_at over_wire
  exchange name m a (not_sent e) s = (err e, s)
  exchange name m a refused s = (err (coded Code.unknown), s)
  exchange name m a (answer_lost e) s = (err e, (serve_at name m a s).1)
  exchange name m a answered s = let (r, s') = serve_at name m a s in (over_wire r, s')

  resolved : Text → (m : Method) → Args m → Result (Unit {0}) → Io Cluster (Reply m)
  unfolding exchange
  resolved name m a (ok _) s = exchange name m a (net.delivery s name m a) s
  resolved name m a (err e) s = (err (coded Code.unavailable), s)

  -- A request that was forwarded already is not forwarded again.
  unfoldable pub forward : Bool → Text → (m : Method) → Args m → Io Cluster (Reply m)
  unfolding resolved
  forward is_forwarded name m a s =
      if is_forwarded
      then (err (coded Code.internal), s)
      else resolved name m a (net.resolve s name) s

  -- The operation of the node that owns the volume, asked for at the node `here`.
  unfoldable pub on_owner : Bool → Text → Text → (m : Method) → Args m → Io Cluster (Reply m)
  unfolding serve_at forward
  on_owner is_forwarded here owner m a =
      if owner == here then serve_at here m a else forward is_forwarded owner m a
