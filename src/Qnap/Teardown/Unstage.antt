-- ===== src/Qnap/Teardown/Unstage.antt =====
-- internal/driver/qnap/node.go: an unstage detaches nothing that is in use, and logs out of no target
-- that has another LUN on the node.
use nomad_csi_driver.Base.{Text, text_eq, Option, none}
use nomad_csi_driver.Driver.Errors.{Io, Result, ok, err, ◌>>=◌}
use nomad_csi_driver.Driver.Types.{UnstageRequest}
use nomad_csi_driver.Host.Mounts.{History, unmount}
use nomad_csi_driver.Local.Capacity.{or_internal}
use nomad_csi_driver.Qnap.NodeState.{StageMeta, NodeState, QnapNode, on_host}
use nomad_csi_driver.Qnap.Teardown.{refuse_in_use, detach, untrack_volume, forget_if}
use nomad_csi_driver.Qnap.Teardown.Finds.{FineState}

-- The identity that was found, if one was.
abbrev pub identity_of : Result (Option StageMeta) → Option StageMeta
identity_of (ok found) = found
identity_of (err e) = none

module _ (n : QnapNode) (req : UnstageRequest) (start : History) where
  abbrev path : Text
  path = req.staging_target_path

  abbrev Done : Option StageMeta → NodeState → Type 0
  Done found = FineState n found path start

  -- All that follows once the identity is found.
  abbrev rest : Option StageMeta → Io NodeState (Unit {0})
  rest found = on_host (refuse_in_use n path found) >>= λ w.
      on_host (or_internal (unmount n.host path)) >>= λ x. untrack_volume n req.volume_id >>= λ y.
      on_host (detach n found) >>= λ z. forget_if n found req.volume_id
