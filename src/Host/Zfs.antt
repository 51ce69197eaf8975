-- ===== src/Host/Zfs.antt =====
-- internal/zfs/zfs.go: the zfs and zpool commands, over a host that answers them.
pub mod Questions
pub mod Commands
use nomad_csi_driver.Base.{
  ℤ, Text, Bool, true, false, ◌&&◌, List, [], ◌∷◌, ◌++◌, Option, none, some, codes, text_eq, ◌==◌,
  if◌then◌else◌,
}
use nomad_csi_driver.Go.Strings.{split}
use nomad_csi_driver.Go.Strconv.{format_int, atoi, parse_int_value}
use nomad_csi_driver.Go.Trim.{trim_space, fields}
use nomad_csi_driver.Driver.Errors.{
  Error, plain, Result, ok, err, Io, pure, lift, attempt, ◌>>=◌, ◌>>◌,
}
use nomad_csi_driver.Host.Mounts.{Host, History, run_pipe, call, run_command, exits_with}

pub record Zvol : Type 0 where
  pub name : Text
  pub size_byte : ℤ

pub record SnapshotEntry : Type 0 where
  pub name : Text
  pub volsize_bytes : ℤ
  pub creation_unix : ℤ

-- `dataset@name`
abbrev pub at_snapshot : Text → Text → Text
at_snapshot dataset name = dataset ++ b'@' ∷ name

-- A command of zfs or of zpool.
abbrev pub zfs : List Text → List Text
zfs args = codes "zfs" ∷ args

abbrev pub zpool : List Text → List Text
zpool args = codes "zpool" ∷ args

-- `zfs get -Hp -o value …` and `zpool get -Hp -o value …`
abbrev pub get_args : Text → Text → List Text
get_args prop dataset = codes "get" ∷ codes "-Hp" ∷ codes "-o" ∷ codes "value" ∷ prop ∷ dataset ∷ []

abbrev pub block_args : Text → List Text
block_args volblocksize = if volblocksize == [] then [] else codes "-b" ∷ volblocksize ∷ []

abbrev pub create_args : Text → ℤ → Text → List Text
create_args dataset size volblocksize =
    (codes "create" ∷ codes "-p" ∷ codes "-V" ∷ format_int size ∷ [])
    ++ (block_args volblocksize ++ (dataset ∷ []))

abbrev pub exists_args : Text → List Text
exists_args dataset = codes "list" ∷ codes "-H" ∷ codes "-o" ∷ codes "name" ∷ dataset ∷ []

abbrev pub list_args : Text → Text → Text → List Text
list_args kind columns parent =
    codes "list" ∷ codes "-Hp" ∷ codes "-t" ∷ kind ∷ codes "-r" ∷ codes "-o" ∷ columns ∷ parent ∷ []

-- parseInt
unfoldable pub of_decimal : Option ℤ → Result ℤ
of_decimal none = err plain
of_decimal (some n) = ok n

unfoldable pub parse_int : Text → Result ℤ
unfolding of_decimal
parse_int out = of_decimal (atoi (trim_space out))

-- Exit code 1 of `zfs list` and `zpool list` is absence.
unfoldable pub exists_of : Result Text → Result Bool
exists_of (ok out) = ok true
exists_of (err e) = if exits_with 1 e then ok false else err e

unfoldable pub status_of : Result Text → Result (Bool × Bool)
status_of (ok out) = ok (true, trim_space out == codes "ONLINE")
status_of (err e) = if exits_with 1 e then ok (false, false) else err e

module _ {A : Type 0} where
  unfoldable pub rows : (List Text → Option A) → List Text → List A
  rows f [] = []
  rows f (line ∷ lines) =
      let rest = rows f lines in elim (f (fields line)) [ none ↦ rest | some a ↦ a ∷ rest ]

  -- The lines of a listing; a line with too few fields is left out.
  unfoldable pub listing_of : (List Text → Option A) → Result Text → Result (List A)
  unfolding rows
  listing_of f (ok out) = ok (rows f (split 10 (trim_space out)))
  listing_of f (err e) = if exits_with 1 e then ok [] else err e

unfoldable pub zvol_of : List Text → Option Zvol
zvol_of (name ∷ size ∷ _) = some (record { name = name; size_byte = parse_int_value size })
zvol_of _ = none

unfoldable pub snapshot_of : List Text → Option SnapshotEntry
snapshot_of (name ∷ size ∷ created ∷ _) = some (record {
  name = name;
  volsize_bytes = parse_int_value size;
  creation_unix = parse_int_value created;
})
snapshot_of _ = none

-- ZFS prints "-" for a property that is not set.
unfoldable pub prop_of : Text → Text
prop_of v = if v == codes "-" then [] else v

module _ (host : Host) where
  unfoldable pub silent : List Text → Io History (Unit {0})
  unfolding run_command
  silent args = do run_command host args; pure tt

  unfoldable pub create_zvol : Text → ℤ → Text → Io History (Unit {0})
  unfolding silent
  create_zvol dataset size volblocksize = silent (zfs (create_args dataset size volblocksize))

  unfoldable pub destroy_zvol : Text → Io History (Unit {0})
  unfolding silent
  destroy_zvol dataset = silent (zfs (codes "destroy" ∷ dataset ∷ []))

  unfoldable pub dataset_exists : Text → Io History Bool
  unfolding run_command exists_of
  dataset_exists dataset = do
    r ← attempt (run_command host (zfs (exists_args dataset)))
    lift (exists_of r)

  unfoldable pub number : List Text → Io History ℤ
  unfolding run_command parse_int
  number args = do out ← run_command host args; lift (parse_int out)

  unfoldable pub get_volsize : Text → Io History ℤ
  unfolding number
  get_volsize dataset = number (zfs (get_args (codes "volsize") dataset))

  unfoldable pub get_volblocksize : Text → Io History ℤ
  unfolding number
  get_volblocksize dataset = number (zfs (get_args (codes "volblocksize") dataset))

  -- In seconds of the Unix epoch.
  unfoldable pub get_creation : Text → Io History ℤ
  unfolding number
  get_creation dataset = number (zfs (get_args (codes "creation") dataset))

  unfoldable pub set_volsize : Text → ℤ → Io History (Unit {0})
  unfolding silent
  set_volsize dataset size =
      silent (zfs (codes "set" ∷ (codes "volsize=" ++ format_int size) ∷ dataset ∷ []))

  unfoldable pub set_user_prop : Text → Text → Text → Io History (Unit {0})
  unfolding silent
  set_user_prop dataset prop value =
      silent (zfs (codes "set" ∷ (prop ++ b'=' ∷ value) ∷ dataset ∷ []))

  unfoldable pub get_user_prop : Text → Text → Io History Text
  unfolding run_command prop_of
  get_user_prop dataset prop = do
    out ←
        run_command host
          (zfs (codes "get" ∷ codes "-H" ∷ codes "-o" ∷ codes "value" ∷ prop ∷ dataset ∷ []))
    pure (prop_of (trim_space out))

  unfoldable pub take_snapshot : Text → Text → Io History (Unit {0})
  unfolding silent
  take_snapshot dataset name = silent (zfs (codes "snapshot" ∷ at_snapshot dataset name ∷ []))

  unfoldable pub destroy_snapshot : Text → Text → Io History (Unit {0})
  unfolding silent
  destroy_snapshot dataset name = silent (zfs (codes "destroy" ∷ at_snapshot dataset name ∷ []))

  unfoldable pub piped : List Text → List Text → Io History (Unit {0})
  unfolding call
  piped producer consumer = do call host (run_pipe producer consumer); pure tt

  unfoldable pub clone_independent : Text → Text → Text → Io History (Unit {0})
  unfolding piped destroy_snapshot
  clone_independent src snap dest = do
    piped (zfs (codes "send" ∷ at_snapshot src snap ∷ [])) (zfs (codes "recv" ∷ dest ∷ []))
    destroy_snapshot dest snap

  unfoldable pub list_zvols : Text → Io History (List Zvol)
  unfolding run_command listing_of zvol_of
  list_zvols parent = do
    r ← attempt (run_command host (zfs (list_args (codes "volume") (codes "name,volsize") parent)))
    lift (listing_of zvol_of r)

  unfoldable pub list_snapshots : Text → Io History (List SnapshotEntry)
  unfolding run_command listing_of snapshot_of
  list_snapshots target = do
    r ← attempt (
        run_command host
          (zfs (list_args (codes "snapshot") (codes "name,volsize,creation") target)))
    lift (listing_of snapshot_of r)

  unfoldable pub pool_free : Text → Io History ℤ
  unfolding number
  pool_free pool = number (zpool (get_args (codes "free") pool))

  unfoldable pub pool_available : Text → Io History ℤ
  unfolding number
  pool_available pool = number (zfs (get_args (codes "available") pool))

  unfoldable pub pool_size : Text → Io History ℤ
  unfolding number
  pool_size pool = number (zpool (get_args (codes "size") pool))

  -- Whether the pool is imported, and whether it is online.
  unfoldable pub pool_status : Text → Io History (Bool × Bool)
  unfolding run_command status_of
  pool_status pool = do
    r ← attempt (
        run_command host
          (zpool (codes "list" ∷ codes "-H" ∷ codes "-o" ∷ codes "health" ∷ pool ∷ [])))
    lift (status_of r)

  unfoldable pub pool_healthy : Text → Io History Bool
  unfolding run_command
  pool_healthy pool = do
    out ←
        run_command host
          (zpool (codes "list" ∷ codes "-H" ∷ codes "-o" ∷ codes "health" ∷ pool ∷ []))
    pure (trim_space out == codes "ONLINE")

unfoldable pub device_path : Text → Text
device_path dataset = codes "/dev/zvol/" ++ dataset
