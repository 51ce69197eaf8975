-- ===== src/Host/Iscsi.antt =====
-- internal/iscsi/iscsi.go: the commands of iscsiadm, and the parser of its list of sessions.
use nomad_csi_driver.Base.{
  ℤ, Text, ◌&&◌, List, [], ◌∷◌, ◌++◌, Option, none, some, codes, eqb, text_eq, ◌==◌, if◌then◌else◌,
}
use nomad_csi_driver.Driver.Errors.{Result, ok, err, Io, pure, lift, attempt, ◌>>=◌, ◌>>◌}
use nomad_csi_driver.Go.Strings.{split, has_prefix, trim_prefix, contains_part}
use nomad_csi_driver.Go.Strconv.{atoi, format_int}
use nomad_csi_driver.Go.Trim.{trim_space, fields}
use nomad_csi_driver.Host.Mounts.{Host, History, run_command, exits_with}

-- One path of a session: a target over a portal, with a LUN on a device.
pub record Session : Type 0 where
  pub iqn : Text
  pub portal : Text
  pub lun : ℤ
  pub device : Text

abbrev pub iscsiadm : List Text → List Text
iscsiadm args = codes "iscsiadm" ∷ codes "-m" ∷ args

abbrev pub discover_args : Text → List Text
discover_args portal =
    iscsiadm (codes "discovery" ∷ codes "-t" ∷ codes "sendtargets" ∷ codes "-p" ∷ portal ∷ [])

-- A command on the record of a target at a portal.
abbrev pub node_args : Text → Text → Text → List Text
node_args portal iqn verb =
    iscsiadm (codes "node" ∷ codes "-T" ∷ iqn ∷ codes "-p" ∷ portal ∷ verb ∷ [])

abbrev pub sessions_args : List Text
sessions_args = iscsiadm (codes "session" ∷ codes "-P" ∷ codes "3" ∷ [])

abbrev pub device_glob : Text → ℤ → Text
device_glob iqn lun = codes "/dev/disk/by-path/*-iscsi-" ++ iqn ++ codes "-lun-" ++ format_int lun

abbrev pub by_path : Text → Text → ℤ → Text
by_path portal iqn lun =
    codes "/dev/disk/by-path/ip-"
    ++ portal
    ++ codes "-iscsi-"
    ++ iqn
    ++ codes "-lun-"
    ++ format_int lun

unfoldable pub first_field : Text → Text
first_field s = elim (fields s) [ [] ↦ [] | f ∷ fs ↦ f ]

unfoldable pub strip_tpgt : Text → Text
strip_tpgt [] = []
strip_tpgt (c ∷ s) = let rest = strip_tpgt s in if eqb c b',' then [] else c ∷ rest

-- The word after the first such word that is not the last.
unfoldable pub word_after : Text → List Text → Option Text
word_after w [] = none
word_after w (f ∷ []) = none
word_after w (f ∷ g ∷ fs) = let rest = word_after w (g ∷ fs) in if f == w then some g else rest

unfoldable pub lun_of : Text → Option ℤ
unfolding word_after
lun_of line = elim (word_after (codes "Lun:") (fields line)) [ none ↦ none | some n ↦ atoi n ]

unfoldable pub attached_disk : Text → Text
unfolding word_after
attached_disk line = elim (word_after (codes "disk") (fields line)) [ none ↦ [] | some d ↦ d ]

-- Where the parser is: the target, its portal, and the session that may get a device.
pub record Scan : Type 0 where
  pub iqn : Text
  pub portal : Text
  pub pend : Option Session

abbrev pub flush : Option Session → List Session
flush none = []
flush (some s) = s ∷ []

pending : Scan → Option ℤ → Option Session
pending sc none = none
pending sc (some lun) =
    if sc.iqn == []
    then none
    else some (record { iqn = sc.iqn; portal = sc.portal; lun = lun; device = [] })

with_device : Text → Option Session → Option Session
with_device dev none = none
with_device dev (some s) =
    if dev == [] then some s else some (record s { device = codes "/dev/" ++ dev })

-- One line: where it leaves the parser, and the session that it completes.
unfoldable pub scan_line : Text → Scan → Scan × List Session
unfolding first_field strip_tpgt lun_of attached_disk pending with_device
scan_line line sc =
    if has_prefix (codes "Target:") line
    then (
      record { iqn = first_field (trim_prefix (codes "Target:") line); portal = []; pend = none },
      flush sc.pend,
    )
    else if has_prefix (codes "Current Portal:") line
    then (
      record {
        iqn = sc.iqn;
        portal = strip_tpgt (first_field (trim_prefix (codes "Current Portal:") line));
        pend = none;
      },
      flush sc.pend,
    )
    else if has_prefix (codes "scsi") line && contains_part (codes "Lun:") line
    then (
      record { iqn = sc.iqn; portal = sc.portal; pend = pending sc (lun_of line) },
      flush sc.pend,
    )
    else if has_prefix (codes "Attached scsi disk") line
    then (record sc { pend = with_device (attached_disk line) sc.pend }, [])
    else (sc, [])

unfoldable pub scan_lines : List Text → Scan → List Session
unfolding scan_line
scan_lines [] sc = flush sc.pend
scan_lines (raw ∷ ls) sc =
    let (next, done) = scan_line (trim_space raw) sc in done ++ scan_lines ls next

unfoldable pub parse_sessions : Text → List Session
unfolding scan_lines
parse_sessions text = scan_lines (split 10 text) (record { iqn = []; portal = []; pend = none })

-- Exit code 15 says that it is so already, 21 that there are no objects.
unfoldable pub idempotent : Result Text → Result (Unit {0})
idempotent (ok out) = ok tt
idempotent (err e) = if exits_with 15 e then ok tt else err e

unfoldable pub sessions_of : Result Text → Result (List Session)
unfolding parse_sessions
sessions_of (ok out) = ok (parse_sessions out)
sessions_of (err e) = if exits_with 21 e then ok [] else err e

module _ (host : Host) where
  unfoldable pub discover : Text → Io History (Unit {0})
  discover portal = do run_command host (discover_args portal); pure tt

  unfoldable pub login : Text → Text → Io History (Unit {0})
  unfolding idempotent
  login portal iqn = do
    r ← attempt (run_command host (node_args portal iqn (codes "--login")))
    lift (idempotent r)

  unfoldable pub logout : Text → Text → Io History (Unit {0})
  unfolding idempotent
  logout portal iqn = do
    r ← attempt (run_command host (node_args portal iqn (codes "--logout")))
    lift (idempotent r)

  unfoldable pub rescan : Text → Text → Io History (Unit {0})
  rescan portal iqn = do run_command host (node_args portal iqn (codes "-R")); pure tt

  unfoldable pub list_sessions : Io History (List Session)
  unfolding sessions_of
  list_sessions = do r ← attempt (run_command host sessions_args); lift (sessions_of r)
