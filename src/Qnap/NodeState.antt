-- ===== src/Qnap/NodeState.antt =====
-- internal/driver/qnap/node.go and meta.go: what a node of the QNAP backend keeps, and what it runs on.
use nomad_csi_driver.Base.{ℕ, ℤ, Text, Bool, List, [], ◌∷◌, Option, text_eq, ◌==◌, if◌then◌else◌}
use nomad_csi_driver.Base.Map.{Map, lookup, insert, erase}
use nomad_csi_driver.Driver.Errors.{Result, ok, Io}
use nomad_csi_driver.Host.Mounts.{Host, History}
use nomad_csi_driver.Host.StatFs.{StatfsT}
use nomad_csi_driver.Host.Wait.{Clock}
use nomad_csi_driver.Qnap.Appliance.{Client}
use nomad_csi_driver.Qnap.SanCache.{SanCache}
use nomad_csi_driver.Stats.Registry.{Config, Registry}

-- `stageMeta`: what a stage records for the unstage.
pub record StageMeta : Type 0 where
  pub portals : List Text
  pub portal : Text
  pub iqn : Text
  pub lun_number : ℤ
  pub wwid : Text

unfoldable pub portal_list : StageMeta → List Text
portal_list m = elim m.portals [
  | [] ↦ if m.portal == [] then [] else m.portal ∷ []
  | p ∷ ps ↦ p ∷ ps
]

-- The history of the host, `memMetaStore`, the SAN cache and the measured volumes.
pub record NodeState : Type 0 where
  pub history : History
  pub metas : Map Text StageMeta
  pub san : SanCache
  pub registry : Registry

-- `node`, with the operating system and the appliance behind it. `has_san` is `n.san != nil`, and the
-- portals are `cfg.PortalList()`; `holders` is `holdersFn`.
pub record QnapNode : Type 0 where
  pub host : Host
  pub clocks : History → Clock
  pub timeout : ℕ
  pub statfs : Text → Result StatfsT
  pub holders : History → Option (Text → Result Bool)
  pub client : Client
  pub has_san : Bool
  pub san_ttl : ℕ
  pub portals : List Text
  pub use_multipath : Bool
  pub node_id : Text
  pub stats : Config

abbrev pub on_host : {A : Type 0} → Io History A → Io NodeState A
on_host m s = let (r, h) = m s.history in (r, record s { history = h })

abbrev pub on_san : {A : Type 0} → Io SanCache A → Io NodeState A
on_san m s = let (r, c) = m s.san in (r, record s { san = c })

unfoldable pub save_meta : Text → StageMeta → Io NodeState (Unit {0})
save_meta id m s = (ok tt, record s { metas = insert id m s.metas })

unfoldable pub load_meta : Text → Io NodeState (Option StageMeta)
load_meta id s = (ok (lookup id s.metas), s)

unfoldable pub delete_meta : Text → Io NodeState (Unit {0})
delete_meta id s = (ok tt, record s { metas = erase id s.metas })

-- `iqns`
unfoldable pub iqns : Map Text StageMeta → Map Text (Unit {0})
iqns [] = []
iqns ((id, m) ∷ ms) = let rest = iqns ms in if m.iqn == [] then rest else insert m.iqn tt rest
