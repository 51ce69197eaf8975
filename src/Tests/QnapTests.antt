-- ===== src/Tests/QnapTests.antt =====
-- internal/driver/qnap: the theorems on the QNAP backend at concrete inputs.
use nomad_csi_driver.Base.{
  ℕ, pos, Text, true, false, ◌≡◌, ◌≢◌, ◌↔◌, refl, [], ◌∷◌, none, codes, nat_eq, text_eq, int_eq,
  arith, All, eqb,
}
use nomad_csi_driver.Driver.Errors.{api, plain, Result, ok, err}
use nomad_csi_driver.Driver.Types.{CapacityRange, CreateVolumeRequest, CreateSnapshotRequest}
use nomad_csi_driver.Qnap.Appliance.{Client, Lun, Target}
use nomad_csi_driver.Qnap.Cache.{new_lun_cache}
use nomad_csi_driver.Qnap.Params.{QnapConfig, gib, size_gib_exact}
use nomad_csi_driver.Qnap.Params.Size.{Answers, size_gib_exact_iff}
use nomad_csi_driver.Qnap.ExternalId.{ExternalId, SnapshotId, parse_id, print_id}
use nomad_csi_driver.Qnap.ExternalId.RoundTrip.{parse-print_id}
use nomad_csi_driver.Qnap.Session.{State}
use nomad_csi_driver.Qnap.Controller.{delete_volume, expand_volume}
use nomad_csi_driver.Qnap.Controller.Safety.{IsSafe}
use nomad_csi_driver.Qnap.Controller.Delete.{delete_volume-IsSafe}
use nomad_csi_driver.Qnap.Controller.Modify.{expand_volume-IsSafe}
use nomad_csi_driver.Qnap.Controller.Unchecked.{deletions, delete_volume_unchecked}
use nomad_csi_driver.Qnap.Listing.ReadOnly.{
  IsReadOnly, capacity, state_after, state_after-IsReadOnly,
}
use nomad_csi_driver.Qnap.Create.{create_volume}
use nomad_csi_driver.Qnap.Create.Own.{IsOwn}
use nomad_csi_driver.Qnap.Create.Rollback.{create_volume-IsOwn}
use nomad_csi_driver.Qnap.Reconciler.{Scene, sweep, timers_after}
use nomad_csi_driver.Qnap.Reconciler.Grace.{Leaked, sweep-Leaked}

abbrev name : Text
name = codes "pvc-1"

abbrev volume : ExternalId
volume = record { lun_index = pos 3; target_index = pos 5; own_target = true; lun_name = name }

-- A LUN and a target by the volume's name at every index.
abbrev a_lun : Lun
a_lun = record { index = pos 3; name = name; capacity_bytes = pos gib }

abbrev pub a_target : Target
a_target = record {
  index = pos 5;
  iqn = codes "iqn.2004-04.com.qnap:pvc-1";
  alias = name;
  luns = pos 3 ∷ [];
}

-- An appliance where every call but the login answers as `lun` says, and session 1 is valid.
abbrev pub appliance : Result Lun → Client
appliance lun = record {
  valid = λ n. eqb n 1;
  login = λ h. ok 1;
  now = λ h. 0;
  get_lun = λ h n i. lun;
  get_target = λ h n i. ok a_target;
  list_luns = λ h n. ok [];
  list_targets = λ h n. ok [];
  list_snapshots = λ h n i. ok [];
  get_pool = λ h n i. ok (pos gib);
  create_lun = λ h n r. ok (pos 3);
  create_target = λ h n t ifs. ok (pos 5);
  unmap_lun = λ h n i t. ok tt;
  delete_lun = λ h n i. ok tt;
  wait_for_lun_gone = λ h n i. ok tt;
  resize_lun = λ h n i size. ok tt;
  wait_for_resize = λ h n i size. ok tt;
  delete_target = λ h n i. ok tt;
  create_snapshot = λ h n i t. err plain;
  delete_snapshot = λ h n i. ok tt;
  wait_for_snapshot_gone = λ h n i j. ok tt;
}

abbrev pub fresh_state : State
fresh_state = record { history = []; session = 0; cache = new_lun_cache 60 }

abbrev logged_state : State
logged_state = record { history = []; session = 1; cache = new_lun_cache 60 }

abbrev one_gib : CapacityRange
one_gib = record { required_bytes = pos gib; limit_bytes = pos 0 }

volume_parses : parse_id (print_id volume) ≡ ok volume
volume_parses = parse-print_id volume (omega arith) (omega arith) (ground arith)

named : name ≢ []
named = λ e. ground arith

parse-print_id_example : parse_id (print_id volume) ≡ ok volume
parse-print_id_example = parse-print_id volume (omega arith) (omega arith) (ground arith)

abbrev a_snapshot : SnapshotId
a_snapshot = record { lun_index = pos 3; snapshot_id = pos 12 }

size_gib_exact_iff_example : (size_gib_exact one_gib ≡ ok 1) ↔ Answers one_gib 1
size_gib_exact_iff_example = size_gib_exact_iff one_gib 1

delete_volume-IsSafe_example :
    IsSafe volume (delete_volume (appliance (ok a_lun)) (print_id volume) [] fresh_state).1.history
delete_volume-IsSafe_example =
    delete_volume-IsSafe (appliance (ok a_lun)) (print_id volume) [] volume fresh_state
      volume_parses named tt

expand_volume-IsSafe_example :
    IsSafe volume
      (expand_volume (appliance (ok a_lun)) (print_id volume) one_gib [] fresh_state).1.history
expand_volume-IsSafe_example =
    expand_volume-IsSafe (appliance (ok a_lun)) volume fresh_state named tt (print_id volume)
      one_gib [] volume_parses

abbrev snapshot_request : CreateSnapshotRequest
snapshot_request = record {
  source_volume_id = print_id volume;
  name = codes "s1";
  parameters = [];
  secrets = [];
}

delete_volume_unchecked_example :
    ((delete_volume (appliance (err (api (pos 1) 401))) (print_id volume) [] logged_state).0
      ≡ ok tt)
    × (deletions
          (delete_volume
            (appliance (err (api (pos 1) 401)))
            (print_id volume)
            []
            logged_state).1.history
        ≡ 0)
delete_volume_unchecked_example =
    delete_volume_unchecked (appliance (err (api (pos 1) 401))) (print_id volume) [] volume
      (api (pos 1) 401) logged_state volume_parses refl refl

abbrev config : QnapConfig
config = record {
  default_pool_id = pos 1;
  default_sector_size = pos 512;
  interfaces = pos 1 ∷ [];
  portal_list = [];
}

abbrev create_request : CreateVolumeRequest
create_request = record {
  name = name;
  capacity_range = one_gib;
  volume_capabilities = [];
  parameters = [];
  secrets = [];
  content_source = none;
  topology_requirement = [];
}

create_volume-IsOwn_example :
    IsOwn (create_volume (appliance (ok a_lun)) config create_request fresh_state).1.history
create_volume-IsOwn_example =
    create_volume-IsOwn (appliance (ok a_lun)) config create_request fresh_state refl

-- A session of a target that nothing uses, seen at a time.
abbrev leak : ℕ → Scene
leak t = record {
  sessions = ok (
      record { iqn = codes "iqn.a"; portal = codes "10.0.0.1:3260"; device = codes "/dev/sdg" }
      ∷ []);
  mounts = ok [];
  use_multipath = false;
  wwid = λ d. err plain;
  resolve = λ d. ok d;
  ours = [];
  cached = [];
  now = t;
}

sweep-Leaked_example :
    All
      (λ o. Leaked 300 (leak 400) (leak 100 ∷ []) o.1)
      (sweep (leak 400) 300 (timers_after 300 (leak 100 ∷ []))).1
sweep-Leaked_example = sweep-Leaked 300 (leak 400) (leak 100 ∷ [])

state_after-IsReadOnly_example :
    IsReadOnly
      (state_after (appliance (ok a_lun)) config (λ t. none) (capacity []) fresh_state).history
state_after-IsReadOnly_example =
    state_after-IsReadOnly (appliance (ok a_lun)) config (λ t. none) (capacity []) fresh_state tt
