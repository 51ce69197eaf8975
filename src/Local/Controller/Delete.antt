-- ===== src/Local/Controller/Delete.antt =====
-- internal/driver/local/controller.go: what DeleteVolume does to the hosts of a cluster.
use nomad_csi_driver.Base.{Text, Bool, ◌≡◌, refl}
use nomad_csi_driver.Driver.Errors.{ok}
use nomad_csi_driver.Host.Mounts.{History}
use nomad_csi_driver.Host.Calls.{Adds}
use nomad_csi_driver.Local.ExternalId.{ExternalId, parse_id}
use nomad_csi_driver.Local.Forward.{Method, Node, Network, Cluster, serve}
use nomad_csi_driver.Local.Forward.Owner.{on_owner-hosts}
use nomad_csi_driver.Local.Ops.Delete.{DeleteCall, local_delete-destroys}
use nomad_csi_driver.Local.Controller.{delete_volume}

-- The calls of the deletion on the owner's host; none on the others.
pub data Touched (eid : ExternalId) (n : Text) (before after : History) : Type 0 where
  untouched : after ≡ before → Touched eid n before after
  deleting : n ≡ eid.node → Adds (DeleteCall eid.dataset) before after → Touched eid n before after

module _ (nodes : Text → Node) (net : Network) (id : Text) (eid : ExternalId)
    (parsed : parse_id id ≡ ok eid) where
  deletes :
      (h : History) → Touched eid eid.node h (serve (nodes eid.node) eid.node Method.delete id h).1
  unfolding serve
  deletes h = Touched.deleting refl (
      local_delete-destroys (nodes eid.node).host (nodes eid.node).config
        (nodes eid.node).parent_dataset eid.node h id eid parsed)

  -- DeleteVolume at any node, marked as forwarded or not, and whatever the hosts and the network do,
  -- leaves the host of every node but the volume's as it was, and on that one runs only questions
  -- and `zfs destroy` of exactly the volume's dataset right after it was seen to have no snapshots.
  pub delete_volume-Touched :
      (is_forwarded : Bool) (here n : Text) (s : Cluster)
      → Touched eid n (s n) ((delete_volume nodes net is_forwarded here id s).1 n)
  unfolding delete_volume
  delete_volume-Touched b here n s = rw parsed (
      on_owner-hosts nodes net eid.node Method.delete id (Touched eid)
        (λ n h. Touched.untouched refl) deletes b here n s)
