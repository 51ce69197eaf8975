-- ===== src/Tests/CsiTests.antt =====
-- internal/csi: the theorems on the locks and the controller service at concrete inputs.
use nomad_csi_driver.Base.{
  ℕ, pos, Text, true, false, ◌≡◌, refl, [], ◌∷◌, Option, some, codes, text_beq, nat_eq, text_eq,
  arith, suc,
}
use nomad_csi_driver.Base.Map.{lookup, insert, has}
use nomad_csi_driver.Driver.Errors.{Code, coded, plain, Result, ok, err, Io}
use nomad_csi_driver.Driver.Types.{Capabilities}
use nomad_csi_driver.Driver.Backend.{ControllerBackend, NodeBackend}
use nomad_csi_driver.Csi.Locks.{try_acquire}
use nomad_csi_driver.Csi.Locks.Exclusion.{
  System, Reach, init, start, later, enter, mutual_exclusion, held_iff_running,
}
use nomad_csi_driver.Csi.Conv.{CsiCapability, Mode, Access, to_volume_capabilities}
use nomad_csi_driver.Csi.Conv.Accepted.{Accepted, to_volume_capabilities-Accepted}
use nomad_csi_driver.Csi.Messages.{Rpc, Reply, RpcType, CsiCreateVolume}
use nomad_csi_driver.Csi.Messages
use nomad_csi_driver.Csi.Serving.{Server}
use nomad_csi_driver.Csi.Controller.{dispatch, controller_capabilities}
use nomad_csi_driver.Csi.Node.{NodeRpc, node_unstage, serve_node}
use nomad_csi_driver.Csi.Node.Serves.{volume_of_request, IsNodeRefusal, serve_node-serializes}
use nomad_csi_driver.Csi.Controller.Release.{dispatch-locks}
use nomad_csi_driver.Csi.Controller.Refusals.{IsRefusal, dispatch_busy, dispatch_unadvertised}

abbrev vol : Text
vol = codes "vol-a"

-- A backend that counts its calls and refuses all but deletes.
abbrev counter : {A : Type 0} → Result A → Io ℕ A
counter r n = (r, suc n)

abbrev backend : ControllerBackend ℕ
backend = record {
  create_volume = λ r. counter (err plain);
  delete_volume = λ id secrets. counter (ok tt);
  volume_exists = λ id. counter (ok true);
  expand_volume = λ id cr secrets. counter (err plain);
  publish_volume = λ id n c ro secrets ctx. counter (err plain);
  unpublish_volume = λ id n secrets. counter (ok tt);
  create_snapshot = λ r. counter (err plain);
  delete_snapshot = λ id secrets. counter (ok tt);
  get_capacity = λ ts p. counter (ok (pos 0));
  list_volumes = counter (ok []);
  list_snapshots = λ id. counter (ok []);
}

abbrev caps : Capabilities
caps = record {
  create_delete = true;
  publish_unpublish = false;
  expand = false;
  snapshot = false;
  clone = false;
  get_capacity = false;
  list_volumes = false;
  list_snapshots = false;
  node_stage = true;
  node_expand = false;
  node_volume_stats = false;
  expand_online = false;
  topology = false;
}

abbrev idle : Server ℕ
idle = record { locks = record { held = [] }; state = 0 }

abbrev busy : Server ℕ
busy = record { locks = record { held = (vol, tt) ∷ [] }; state = 0 }

abbrev one_running : System
one_running = record { locker = (try_acquire vol init.locker).1; running = insert 7 vol [] }

one_reached : Reach one_running
unfolding lookup try_acquire has
one_reached = later start (enter 7 vol refl refl)

mutual_exclusion_example : ◌≡◌ {A = ℕ} 7 7
unfolding lookup insert
mutual_exclusion_example = mutual_exclusion 7 7 vol one_reached refl refl

held_iff_running_example :
    (has vol one_running.locker.held ≡ true → (r : ℕ) × (lookup r one_running.running ≡ some vol))
    × ((r : ℕ) → lookup r one_running.running ≡ some vol → has vol one_running.locker.held ≡ true)
held_iff_running_example = held_iff_running vol one_reached

abbrev many_writers : Option CsiCapability
many_writers =
    some (record { access_mode = some Mode.multi_node_multi_writer; access = Access.block })

to_volume_capabilities-Accepted_example :
    Accepted (many_writers ∷ []) (to_volume_capabilities (many_writers ∷ []))
to_volume_capabilities-Accepted_example = to_volume_capabilities-Accepted many_writers []

dispatch-locks_example :
    has vol (dispatch backend caps (Messages.delete_volume vol []) idle).1.locks.held
    ≡ has vol idle.locks.held
dispatch-locks_example = dispatch-locks backend caps (Messages.delete_volume vol []) vol idle

dispatch_busy_example :
    IsRefusal (dispatch backend caps (Messages.delete_volume vol []) busy).0
    × ((dispatch backend caps (Messages.delete_volume vol []) busy).1 ≡ busy)
unfolding has lookup text_beq
dispatch_busy_example =
    dispatch_busy backend caps (Messages.delete_volume vol []) vol busy refl refl

dispatch_unadvertised_example :
    dispatch backend caps Messages.list_volumes idle ≡ (err (coded Code.unimplemented), idle)
unfolding controller_capabilities
dispatch_unadvertised_example =
    dispatch_unadvertised backend caps Messages.list_volumes RpcType.list_volumes idle refl
      ((λ e. ground arith), tt)

-- A node half that counts its calls.
abbrev node_half : NodeBackend ℕ
node_half = record {
  stage_volume = λ r. counter (ok tt);
  unstage_volume = λ r. counter (err plain);
  publish_volume = λ r. counter (ok tt);
  unpublish_volume = λ r. counter (ok tt);
  expand_volume = λ r. counter (ok (pos 0));
  get_info = counter (err plain);
  get_volume_stats = λ id path. counter (err plain);
}

abbrev unstage_request : NodeRpc
unstage_request = node_unstage vol (codes "/stage")

serve_node-serializes_example :
    ((k : Text)
      → has k (serve_node node_half caps unstage_request busy).1.locks.held ≡ has k busy.locks.held)
    × ((id : Text)
        → volume_of_request unstage_request ≡ some id
        → has id busy.locks.held ≡ true
        → IsNodeRefusal (serve_node node_half caps unstage_request busy).0
          × ((serve_node node_half caps unstage_request busy).1 ≡ busy))
serve_node-serializes_example = serve_node-serializes node_half caps unstage_request busy
