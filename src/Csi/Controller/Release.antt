-- ===== src/Csi/Controller/Release.antt =====
-- internal/csi/controller.go and locks.go: `defer release()` gives every lock back.
use nomad_csi_driver.Base.{Text, ◌≡◌, text_eq}
use nomad_csi_driver.Base.Map.{has}
use nomad_csi_driver.Driver.Types.{Capabilities}
use nomad_csi_driver.Driver.Backend.{ControllerBackend}
use nomad_csi_driver.Csi.Messages.{Rpc, create_volume}
use nomad_csi_driver.Csi.Serving.{Server}
use nomad_csi_driver.Csi.Serving.Restores.{
  Restores, locked-Restores, guarded-Restores, backend-Restores,
}
use nomad_csi_driver.Csi.Controller.{dispatch}

module _ {S : Type 0} (backend : ControllerBackend S) (caps : Capabilities) where
  dispatch-Restores : (k : Text) (r : Rpc) → Restores k (dispatch backend caps r)
  unfolding dispatch
  dispatch-Restores k (create_volume r) = search (locked-Restores, guarded-Restores)
  dispatch-Restores k _ = search (locked-Restores, guarded-Restores, backend-Restores)

  -- Whatever the request and however it ends, in an answer or an error of any layer, the controller
  -- service holds the same locks after a handler as before it.
  pub dispatch-locks :
      (r : Rpc) (k : Text) (s : Server S)
      → has k (dispatch backend caps r s).1.locks.held ≡ has k s.locks.held
  dispatch-locks r k s = (dispatch-Restores k r).at s
