-- ===== src/Host/Mounts.antt =====
-- internal/mountutil/mountutil.go: commands on mounts and file systems. A command's answer is any
-- function of the commands and answers before it, so the host may change by itself.
pub mod Safety
pub mod Harmless
use nomad_csi_driver.Base.{
  ℕ, pos, int_eq, Text, Bool, true, false, not, ◌||◌, List, [], ◌∷◌, ◌++◌, Option, none, some,
  codes, eqb, text_eq, ◌==◌, if◌then◌else◌,
}
use nomad_csi_driver.Go.Strings.{join}
use nomad_csi_driver.Go.Trim.{trim_space}
use nomad_csi_driver.Driver.Errors.{
  Error, exit, plain, Result, ok, err, Io, pure, fail, lift, attempt, ◌>>=◌, ◌>>◌,
}

-- What a mounter asks of the host: a command with its arguments, or a call of package os or
-- path/filepath.
pub data Call : Type 0 where
  run : List Text → Call
  run_pipe : List Text → List Text → Call
  mkdir_all : Text → Call
  stat : Text → Call
  create : Text → Call
  eval_symlinks : Text → Call
  glob : Text → Call

pub data Event : Type 0 where
  called : Call → Result Text → Event

abbrev pub History : Type 0
History = List Event

-- `exec.Runner` and package os, behind which the host is; `is_not_exist` is `os.IsNotExist`.
pub record Host : Type 0 where
  pub is_not_exist : Error → Bool
  pub answer : History → Call → Result Text

-- `exec.IsExit`: the exit code of a command that ran.
abbrev pub exits_with : ℕ → Error → Bool
exits_with n (exit m) = m == pos n
exits_with n e = false

-- `fmt.Errorf("…: %w", err)`: the messages are left out; what is wrapped stays.
module _ (host : Host) where
  unfoldable pub call : Call → Io History Text
  call c h = let a = host.answer h c in (a, called c a ∷ h)

  unfoldable pub run_command : List Text → Io History Text
  unfolding call
  run_command args = call (run args)

  fs_of_blkid : Result Text → Result Text
  fs_of_blkid (ok out) = ok (trim_space out)
  fs_of_blkid (err e) = if exits_with 2 e then ok [] else err e

  unfoldable pub detect_filesystem : Text → Io History Text
  unfolding call fs_of_blkid
  detect_filesystem device = do
    r ← attempt (
        call (
          run
            (codes "blkid" ∷ codes "-o" ∷ codes "value" ∷ codes "-s" ∷ codes "TYPE" ∷ device ∷ [])))
    lift (fs_of_blkid r)

  unfoldable pub mkfs_command : Text → Text → List Text → Result (List Text)
  mkfs_command fs_type device extra =
      if fs_type == codes "ext4"
      then ok ((codes "mkfs.ext4" ∷ codes "-F" ∷ device ∷ []) ++ extra)
      else if fs_type == codes "xfs"
      then ok ((codes "mkfs.xfs" ∷ codes "-f" ∷ device ∷ []) ++ extra)
      else err plain

  format : Text → Text → List Text → Io History Bool
  unfolding mkfs_command call
  format device fs_type extra = do
    args ← lift (mkfs_command fs_type device extra)
    call (run args)
    pure true

  format_found : Text → Text → List Text → Text → Io History Bool
  unfolding format
  format_found device fs_type extra existing =
      if existing == []
      then format device fs_type extra
      else if existing == fs_type
      then pure false
      else fail plain

  unfoldable pub format_if_empty : Text → Text → List Text → Io History Bool
  unfolding detect_filesystem format_found
  format_if_empty device fs_type extra = do
    existing ← detect_filesystem device
    format_found device fs_type extra existing

  pub mounted_of_findmnt : Text → Result Text → Result Bool
  mounted_of_findmnt target (ok out) = ok (trim_space out == target)
  mounted_of_findmnt target (err e) = if exits_with 1 e then ok false else err e

  unfoldable pub is_mounted : Text → Io History Bool
  unfolding call mounted_of_findmnt
  is_mounted target = do
    r ← attempt (
        call (
          run (
            codes "findmnt"
            ∷ codes "-n"
            ∷ codes "-o"
            ∷ codes "TARGET"
            ∷ codes "--target"
            ∷ target
            ∷ [])))
    lift (mounted_of_findmnt target r)

  run_only : List Text → Io History (Unit {0})
  unfolding call
  run_only args = do call (run args); pure tt

  abbrev options : List Text → List Text
  options [] = []
  options (f ∷ fs) = codes "-o" ∷ join b',' (f ∷ fs) ∷ []

  abbrev mount_args : Text → Text → Text → List Text → List Text
  mount_args device target fs_type flags =
      (codes "mount" ∷ codes "-t" ∷ fs_type ∷ []) ++ options flags ++ device ∷ target ∷ []

  unfoldable pub mount : Text → Text → Text → List Text → Io History (Unit {0})
  unfolding call run_only is_mounted
  mount device target fs_type flags = do
    call (mkdir_all target)
    mounted ← is_mounted target
    if mounted then pure tt else run_only (mount_args device target fs_type flags)

  make_dir : Text → Io History (Unit {0})
  unfolding call
  make_dir path = do call (mkdir_all path); pure tt

  make_file : Text → Io History (Unit {0})
  unfolding call
  make_file path = do call (create path); pure tt

  after_stat : Text → Result Text → Io History (Unit {0})
  unfolding make_file
  after_stat target (ok _) = pure tt
  after_stat target (err e) = if host.is_not_exist e then make_file target else fail e

  unfoldable pub ensure_target : Text → Bool → Io History (Unit {0})
  unfolding make_dir call after_stat
  ensure_target target true = make_dir target
  ensure_target target false = do r ← attempt (call (stat target)); after_stat target r

  unfoldable pub bind_mount : Text → Text → Bool → Bool → Io History (Unit {0})
  unfolding run_only is_mounted ensure_target
  bind_mount source target is_dir readonly = do
    ensure_target target is_dir
    mounted ← is_mounted target
    if mounted then pure tt else run_only (codes "mount" ∷ codes "--bind" ∷ source ∷ target ∷ [])
    if readonly
        then run_only (codes "mount" ∷ codes "-o" ∷ codes "remount,ro,bind" ∷ target ∷ [])
        else pure tt

  unless_mounted : Error → Result Bool → Io History (Unit {0})
  unless_mounted e (ok m) = if m then fail e else pure tt
  unless_mounted e (err x) = fail e

  -- A umount that failed is no error if the target is not mounted any more.
  after_umount : Text → Result Text → Io History (Unit {0})
  unfolding is_mounted unless_mounted
  after_umount target (ok _) = pure tt
  after_umount target (err e) = do again ← attempt (is_mounted target); unless_mounted e again

  umount : Text → Io History (Unit {0})
  unfolding call after_umount
  umount target = do r ← attempt (call (run (codes "umount" ∷ target ∷ []))); after_umount target r

  unfoldable pub unmount : Text → Io History (Unit {0})
  unfolding is_mounted umount
  unmount target = do mounted ← is_mounted target; if mounted then umount target else pure tt

  unfoldable pub resize : Text → Text → Text → Io History (Unit {0})
  unfolding run_only
  resize device mountpoint fs_type =
      if fs_type == codes "ext4"
      then run_only (codes "resize2fs" ∷ device ∷ [])
      else if fs_type == codes "xfs"
      then run_only (codes "xfs_growfs" ∷ mountpoint ∷ [])
      else fail plain

  unfoldable pub source_device : Text → Io History Text
  unfolding call
  source_device path = do
    out ← call (
        run (
          codes "findmnt"
          ∷ codes "-n"
          ∷ codes "-o"
          ∷ codes "SOURCE"
          ∷ codes "--target"
          ∷ path
          ∷ []))
    if trim_space out == [] then fail plain else pure (trim_space out)
