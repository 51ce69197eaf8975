-- ===== src/Tests/QnapNodeTests.antt =====
-- internal/driver/qnap/node.go: the theorems on the node of the QNAP backend at concrete inputs.
use nomad_csi_driver.Base.{
  pos, Text, true, false, ◌≡◌, ◌↔◌, refl, List, [], ◌∷◌, none, codes, text_eq, int_eq, text_beq,
  contains,
}
use nomad_csi_driver.Base.Map.{Map, lookup, insert}
use nomad_csi_driver.Driver.Errors.{Code, coded, plain, Result, ok, err}
use nomad_csi_driver.Driver.Types.{UnstageRequest}
use nomad_csi_driver.Host.Mounts.{Host, Call, run, run_command}
use nomad_csi_driver.Go.Strings.{split}
use nomad_csi_driver.Go.Strconv.{atoi, format_int}
use nomad_csi_driver.Go.Trim.{trim_space}
use nomad_csi_driver.Host.Wait.{await}
use nomad_csi_driver.Host.Iscsi.{Session, discover, login}
use nomad_csi_driver.Qnap.Attach.{AttachIdentity, resolve_attach_identity, login_portals, attach_at}
use nomad_csi_driver.Qnap.Attach.Identity.{IsKnownLun, lun_text, resolve_attach_identity-IsKnownLun}
use nomad_csi_driver.Qnap.Attach.Cleanup.{EndsLoggedOut, attach_at-cleans}
use nomad_csi_driver.Qnap.NodeState.{StageMeta, NodeState, QnapNode}
use nomad_csi_driver.Qnap.Teardown.{luns_of, is_only}
use nomad_csi_driver.Qnap.Teardown.LastLun.{NoOther, is_only-NoOther}
use nomad_csi_driver.Qnap.Staged.{StagedSession, Memo, sweep, desired, resolve_session}
use nomad_csi_driver.Qnap.Staged.Sweep.{OthersStaged, sweep-OthersStaged}
use nomad_csi_driver.Stats.Reading.{zero_stats}
use nomad_csi_driver.Stats.Registry.{
  Config, Registry, reconcile, track_all, track, evict_absent, mark,
}
use nomad_csi_driver.Tests.QnapTests.{appliance, fresh_state}
use nomad_csi_driver.Tests.LocalNodeTests.{steady_clock, stats_off, empty_registry}

-- Commands succeed, and nothing else does.
abbrev commands_only : Call → Result Text
commands_only (run args) = ok []
commands_only _ = err plain

abbrev stats_on : Config
stats_on = record { enabled = true; interval = 30; max_failure_backoff = 600; walk_interval = 900 }

abbrev bare_host : Host
bare_host = record { is_not_exist = λ e. false; answer = λ h c. commands_only c }

abbrev node_on : Host → QnapNode
node_on host = record {
  host = host;
  clocks = steady_clock;
  timeout = 500;
  statfs = λ path. err plain;
  holders = λ h. none;
  client = appliance (err plain);
  has_san = true;
  san_ttl = 30;
  portals = codes "10.0.0.1" ∷ [];
  use_multipath = true;
  node_id = codes "n1";
  stats = stats_off;
}

abbrev counting_node : QnapNode
counting_node = record (node_on bare_host) { stats = stats_on }

abbrev staged_meta : StageMeta
staged_meta = record {
  portals = codes "10.0.0.1:3260" ∷ [];
  portal = [];
  iqn = codes "iqn.a";
  lun_number = pos 0;
  wwid = codes "36e8";
}

abbrev staged_node : NodeState
staged_node = record {
  history = [];
  metas = (codes "qnap/v1/1/2/t/vol", staged_meta) ∷ [];
  san = record { identities = none; session = fresh_state };
  registry = empty_registry;
}

abbrev unstage_request : UnstageRequest
unstage_request = record {
  volume_id = codes "qnap/v1/1/2/t/vol";
  staging_target_path = codes "/stage";
}

-- Two LUNs of one target.
abbrev shared_target : List Session
shared_target =
    record { iqn = codes "iqn.a"; portal = []; lun = pos 0; device = [] }
    ∷ record { iqn = codes "iqn.a"; portal = []; lun = pos 1; device = [] }
    ∷ []

is_only-NoOther_example :
    (is_only (pos 0) (luns_of (codes "iqn.a") shared_target []) ≡ true)
    ↔ NoOther (codes "iqn.a") (pos 0) shared_target
is_only-NoOther_example = is_only-NoOther (codes "iqn.a") (pos 0) shared_target

abbrev context : Map Text Text
context =
    (codes "portal", codes "10.0.0.1:3260")
    ∷ (codes "iqn", codes "iqn.a")
    ∷ (codes "lun", codes "3")
    ∷ []

abbrev third_lun : AttachIdentity
third_lun = record { portals = codes "10.0.0.1:3260" ∷ []; iqn = codes "iqn.a"; lun = pos 3 }

resolve_attach_identity-IsKnownLun_example :
    IsKnownLun (codes "qnap/v1/1/2/s/vol") (lun_text context) (pos 3)
unfolding resolve_attach_identity split lookup text_beq trim_space atoi
resolve_attach_identity-IsKnownLun_example =
    resolve_attach_identity-IsKnownLun (node_on bare_host) (codes "qnap/v1/1/2/s/vol") context
      staged_node third_lun refl

attach_at-cleans_example :
    EndsLoggedOut
      (node_on bare_host)
      (codes "iqn.a")
      (codes "10.0.0.1:3260" ∷ [])
      (attach_at (node_on bare_host) third_lun []).1
unfolding attach_at login_portals discover run_command login await contains
attach_at-cleans_example =
    attach_at-cleans (node_on bare_host) third_lun (codes "10.0.0.1:3260" ∷ []) []
      (coded Code.unavailable) refl refl

abbrev one_session : StagedSession
one_session = record {
  iqn = codes "iqn.a";
  lun = pos 0;
  staging_path = codes "/stage";
  access_type = codes "mount";
}

-- The only session is that of one volume, which is remembered; another volume is counted as absent.
abbrev remembered : Memo counting_node
remembered = (
  (codes "iqn.a/0", codes "qnap/v1/1/2/t/vol") ∷ [],
  record { identities = none; session = fresh_state },
)

abbrev gone : Text
gone = codes "qnap/v1/3/4/t/gone"

abbrev cached : Registry
cached = record { vols = []; cache = (gone, zero_stats) ∷ []; absent = (gone, 1) ∷ [] }

sweep-OthersStaged_example :
    OthersStaged counting_node gone (one_session ∷ []) remembered × Unit {0}
unfolding sweep desired resolve_session lookup text_beq reconcile track_all track evict_absent mark
    contains format_int insert
sweep-OthersStaged_example = sweep-OthersStaged counting_node (one_session ∷ []) remembered cached
