-- ===== src/Qnap/Teardown/Finds.antt =====
-- internal/driver/qnap/node.go: what an unstage may run on the host, and that it runs no more to find
-- the identity of a volume.
use nomad_csi_driver.Base.{
  ℤ, Text, true, ◌≡◌, ◌≢◌, [], ◌++◌, All, codes, text_eq, text_beq, contains, Option, none, some,
}
use nomad_csi_driver.Driver.Errors.{Result, ok, err, Io}
use nomad_csi_driver.Driver.Keeps.{Keeps, Keeps-bind, Keeps-if, Keeps-pure, io_rules}
use nomad_csi_driver.Host.Mounts.{History, Call, run, call, run_command, unmount, source_device}
use nomad_csi_driver.Host.Mounts.Harmless.{Harmless, is_tame, harmless-Adds, unmount-Adds}
use nomad_csi_driver.Host.MountTable.{Mount, mounts_args, parse_mounts}
use nomad_csi_driver.Host.Calls.{Adds, Seen, Told, call-Adds}
use nomad_csi_driver.Host.Iscsi.{sessions_args, node_args, parse_sessions, list_sessions}
use nomad_csi_driver.Host.Multipath.{flush_args, map_wwid, members}
use nomad_csi_driver.Qnap.ExternalId.{ExternalId, parse_id}
use nomad_csi_driver.Qnap.SanCache.{resolve_iqn}
use nomad_csi_driver.Qnap.NodeState.{StageMeta, NodeState, QnapNode, load_meta, on_host, on_san}
use nomad_csi_driver.Qnap.Teardown.{
  Matched, backing, reconstruct_from_mount, or_none, device_wwid, grounded, in_sessions, by_target,
  from_id, reconstruct_from_san, or_try, resolve_teardown,
}
use nomad_csi_driver.Qnap.Teardown.LastLun.{NoOther}

-- The list of sessions, if iscsiadm printed one, has no session of the target with another LUN.
abbrev pub IsLast : Text → ℤ → Result Text → Type 0
IsLast iqn lun (ok out) = NoOther iqn lun (parse_sessions out)
IsLast iqn lun (err e) = Unit

-- A mount that does not use the volume: it is the one to tear down, or its source is neither the path
-- of that nor the volume's multipath device.
abbrev pub IsElsewhere : Text → StageMeta → Mount → Type 0
IsElsewhere path m mt =
    mt.target ≢ path
    → (mt.source ≢ path) × (m.wwid ≢ [] → mt.source ≢ codes "/dev/mapper/" ++ m.wwid)

-- The table of mounts, if findmnt printed one, has no other mount that uses the volume.
abbrev pub IsUnused : Text → StageMeta → Result Text → Type 0
IsUnused path m (ok out) = All (IsElsewhere path m) (parse_mounts out)
IsUnused path m (err e) = Unit

abbrev pub SeenUnused : Text → StageMeta → History → Type 0
SeenUnused path m = Seen (Told (run mounts_args) (IsUnused path m))

-- What an unstage may run, that found this identity of the volume, or none.
pub data UnstageCall (found : Option StageMeta) (path : Text) (h : History) : Call → Type 0 where
  tame : {c : Call} → is_tame c ≡ true → UnstageCall found path h c
  lists : UnstageCall found path h (run sessions_args)
  flushes :
      (m : StageMeta)
      → found ≡ some m
      → SeenUnused path m h
      → UnstageCall found path h (run (flush_args m.wwid))
  logs_out :
      (m : StageMeta) (portal : Text)
      → found ≡ some m
      → SeenUnused path m h
      → Seen (Told (run sessions_args) (IsLast m.iqn m.lun_number)) h
      → UnstageCall found path h (run (node_args portal m.iqn (codes "--logout")))

or_none-Keeps :
    {S A : Type 0} {P : S → Type 0} (m : Io S (Option A)) → Keeps P m → Keeps P (or_none m)
or_none-Keeps m k = record { at = k.at }

module _ (n : QnapNode) (target : Option StageMeta) (path : Text) (start : History) where
  abbrev pub Fine : History → Type 0
  Fine = Adds (UnstageCall target path) start

  pub UnstageCall-Harmless : Harmless (UnstageCall target path)
  UnstageCall-Harmless = record { at = λ h c e. UnstageCall.tame e }

  pub tame_call : (c : Call) → is_tame c ≡ true → Keeps Fine (call n.host c)
  tame_call = harmless-Adds n.host (UnstageCall target path) UnstageCall-Harmless start

  pub unmount-Fine : Keeps Fine (unmount n.host path)
  unmount-Fine = unmount-Adds n.host (UnstageCall target path) UnstageCall-Harmless start path

  pub list_sessions-Fine : Keeps Fine (list_sessions n.host)
  unfolding list_sessions run_command
  list_sessions-Fine = search (
    io_rules,
    call-Adds n.host (UnstageCall target path) start (run sessions_args) (λ h p. UnstageCall.lists),
  )

  source_device-Fine : Keeps Fine (source_device n.host path)
  unfolding source_device is_tame contains text_beq
  source_device-Fine = search (io_rules, tame_call)

  members-Fine : (w : Text) → Keeps Fine (members n.host w)
  unfolding members run_command is_tame contains text_beq
  members-Fine w = search (io_rules, tame_call)

  map_wwid-Fine : (dev : Text) → Keeps Fine (map_wwid n.host dev)
  unfolding map_wwid run_command is_tame contains text_beq
  map_wwid-Fine dev = search (io_rules, tame_call)

  backing-Fine : (dev : Text) → Keeps Fine (backing n dev)
  unfolding backing
  backing-Fine dev = search (io_rules, members-Fine)

  from_mount-Fine : Keeps Fine (reconstruct_from_mount n path)
  unfolding reconstruct_from_mount
  from_mount-Fine =
      search (io_rules, or_none-Keeps, source_device-Fine, list_sessions-Fine, backing-Fine) depth 9

  grounded-Fine : (iqn : Text) (m : Matched) → Keeps Fine (grounded n iqn m)
  unfolding grounded device_wwid
  grounded-Fine iqn m = search (io_rules, map_wwid-Fine) depth 9

  in_sessions-Fine : (iqn : Text) → Keeps Fine (in_sessions n iqn)
  unfolding in_sessions
  in_sessions-Fine iqn = search (io_rules, or_none-Keeps, list_sessions-Fine, grounded-Fine) depth 9

  abbrev pub FineState : NodeState → Type 0
  FineState s = Fine s.history

  pub on_host-Fine : {A : Type 0} (m : Io History A) → Keeps Fine m → Keeps FineState (on_host m)
  on_host-Fine m k = record { at = λ s p. k.at s.history p }

  or_try-Fine :
      (found : Option StageMeta) (next : Io NodeState (Option StageMeta))
      → Keeps FineState next
      → Keeps FineState (or_try n found next)
  unfolding or_try
  or_try-Fine none next k = k
  or_try-Fine (some m) next k = Keeps-pure (some m)

  resolve_iqn-Fine :
      (eid : ExternalId) → Keeps FineState (on_san (resolve_iqn n.client n.san_ttl eid))
  resolve_iqn-Fine eid = record { at = λ s p. p }

  by_target-Fine : (found : Option Text) → Keeps FineState (by_target n found)
  unfolding by_target
  by_target-Fine none = Keeps-pure none
  by_target-Fine (some iqn) = on_host-Fine _ (in_sessions-Fine iqn)

  from_id-Fine : (r : Result ExternalId) → Keeps FineState (from_id n r)
  unfolding from_id
  from_id-Fine (err e) = Keeps-pure none
  from_id-Fine (ok eid) = Keeps-bind _ _ (resolve_iqn-Fine eid) by_target-Fine

  from_san-Fine : (id : Text) → Keeps FineState (reconstruct_from_san n id)
  unfolding reconstruct_from_san
  from_san-Fine id = Keeps-if n.has_san _ _ (from_id-Fine (parse_id id)) (Keeps-pure none)

  load_meta-Fine : (id : Text) → Keeps FineState (load_meta id)
  unfolding load_meta
  load_meta-Fine id = record { at = λ s p. p }

  pub resolve_teardown-Fine : (id : Text) → Keeps FineState (resolve_teardown n id path)
  unfolding resolve_teardown
  resolve_teardown-Fine id = Keeps-bind _ _ (load_meta-Fine id) (λ cached. or_try-Fine cached _ (
      Keeps-bind _ _ (on_host-Fine _ from_mount-Fine)
        (λ mounted. or_try-Fine mounted _ (from_san-Fine id))))
