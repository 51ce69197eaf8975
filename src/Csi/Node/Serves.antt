-- ===== src/Csi/Node/Serves.antt =====
-- internal/csi/node.go: the locks of the node service, and what it refuses before its backend.
use nomad_csi_driver.Base.{Text, ◌≡◌, ◌⊎◌, refl, arith, true, Option, none, some, text_eq}
use nomad_csi_driver.Base.Map.{has}
use nomad_csi_driver.Driver.Errors.{Code, coded, Result, err}
use nomad_csi_driver.Driver.Types.{Capabilities}
use nomad_csi_driver.Driver.Backend.{NodeBackend}
use nomad_csi_driver.Csi.Locks.{acquire}
use nomad_csi_driver.Csi.Serving.{Server, locked}
use nomad_csi_driver.Csi.Serving.Restores.{
  Restores, locked-Restores, guarded-Restores, backend-Restores,
}
use nomad_csi_driver.Csi.Node.{
  NodeRpc, NodeReply, node_stage, node_unstage, node_publish, node_unpublish, node_expand,
  node_capabilities, serve_node,
}

-- The volume that a request works on, if it works on one under its lock.
abbrev pub volume_of_request : NodeRpc → Option Text
volume_of_request (node_stage id p c x y z) = some id
volume_of_request (node_unstage id p) = some id
volume_of_request (node_publish id s t c x y ro) = some id
volume_of_request (node_unpublish id t) = some id
volume_of_request (node_expand id p s r c) = some id
volume_of_request _ = none

-- Aborted, or the error of a check that comes before the lock.
abbrev pub IsNodeRefusal : Result NodeReply → Type 0
IsNodeRefusal r =
    (r ≡ err (coded Code.aborted))
    ⊎ (r ≡ err (coded Code.unimplemented))
    ⊎ (r ≡ err (coded Code.invalid_argument))

module _ {S : Type 0} (node : NodeBackend S) (caps : Capabilities) where
  serve_node-Restores : (k : Text) (r : NodeRpc) → Restores k (serve_node node caps r)
  unfolding serve_node
  serve_node-Restores k node_capabilities = record { at = λ s. refl }
  serve_node-Restores k _ = search (locked-Restores, guarded-Restores, backend-Restores)

  refused_while_busy :
      (r : NodeRpc) (id : Text) (s : Server S)
      → volume_of_request r ≡ some id
      → has id s.locks.held ≡ true
      → IsNodeRefusal (serve_node node caps r s).0 × ((serve_node node caps r s).1 ≡ s)
  unfolding serve_node locked acquire
  refused_while_busy _ id s e busy = ground arith

  -- The node service serializes the work on a volume: whatever a request asks and however it ends,
  -- the same locks are held after it as before; and while another request holds the lock of its
  -- volume, a stage, unstage, publish, unpublish or expand is refused, with Aborted or with the
  -- error of a check that comes before the lock, and changes neither the locks nor the backend. Of
  -- the reading of a volume's usage only the first is said.
  pub serve_node-serializes :
      (r : NodeRpc) (s : Server S)
      → ((k : Text) → has k (serve_node node caps r s).1.locks.held ≡ has k s.locks.held)
        × ((id : Text)
            → volume_of_request r ≡ some id
            → has id s.locks.held ≡ true
            → IsNodeRefusal (serve_node node caps r s).0 × ((serve_node node caps r s).1 ≡ s))
  serve_node-serializes r s = (λ k. (serve_node-Restores k r).at s, λ id. refused_while_busy r id s)
