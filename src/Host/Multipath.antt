-- ===== src/Host/Multipath.antt =====
-- internal/multipath/multipath.go: the commands of multipathd and multipath. The drop-in file is left
-- out.
use nomad_csi_driver.Base.{Text, List, [], ◌∷◌, ◌++◌, codes, text_eq, ◌==◌, if◌then◌else◌}
use nomad_csi_driver.Driver.Errors.{Io, pure, fail, plain, ◌>>=◌, ◌>>◌}
use nomad_csi_driver.Go.Path.{base}
use nomad_csi_driver.Go.Strings.{split}
use nomad_csi_driver.Go.Trim.{trim_space, fields}
use nomad_csi_driver.Host.Mounts.{Host, History, run_command}

abbrev pub mapper_path : Text → Text
mapper_path wwid = codes "/dev/mapper/" ++ wwid

-- A device and the WWID of its map.
abbrev pub paths_args : List Text
paths_args = codes "multipathd" ∷ codes "show" ∷ codes "paths" ∷ codes "format" ∷ codes "%d %w" ∷ []

abbrev pub flush_args : Text → List Text
flush_args wwid = codes "multipath" ∷ codes "-f" ∷ wwid ∷ []

path_of : List Text → List (Text × Text)
path_of (device ∷ wwid ∷ rest) = (device, wwid) ∷ []
path_of _ = []

paths_in : List Text → List (Text × Text)
unfolding path_of
paths_in [] = []
paths_in (l ∷ ls) = path_of (fields l) ++ paths_in ls

unfoldable pub parse_paths : Text → List (Text × Text)
unfolding paths_in
parse_paths out = paths_in (split 10 (trim_space out))

unfoldable pub wwid_of : Text → List (Text × Text) → Text
wwid_of device [] = []
wwid_of device ((d, w) ∷ ps) = let rest = wwid_of device ps in if d == device then w else rest

unfoldable pub members_of : Text → List (Text × Text) → List Text
members_of wwid [] = []
members_of wwid ((d, w) ∷ ps) =
    let rest = members_of wwid ps in if w == wwid then d ∷ rest else rest

module _ (host : Host) where
  unfoldable pub reload : Io History (Unit {0})
  reload = do run_command host (codes "multipathd" ∷ codes "reconfigure" ∷ []); pure tt

  unfoldable pub wwid : Text → Io History Text
  wwid device = do
    out ←
        run_command host
          (codes "/lib/udev/scsi_id" ∷ codes "-g" ∷ codes "-u" ∷ codes "-d" ∷ device ∷ [])
    if trim_space out == [] then fail plain else pure (trim_space out)

  unfoldable pub map_wwid : Text → Io History Text
  unfolding parse_paths wwid_of
  map_wwid device = do
    out ← run_command host paths_args
    pure (wwid_of (base device) (parse_paths out))

  unfoldable pub members : Text → Io History (List Text)
  unfolding parse_paths members_of
  members w = do out ← run_command host paths_args; pure (members_of w (parse_paths out))

  unfoldable pub flush_map : Text → Io History (Unit {0})
  flush_map w = do run_command host (flush_args w); pure tt
