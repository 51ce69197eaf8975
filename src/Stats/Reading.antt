-- ===== src/Stats/Reading.antt =====
-- internal/stats/types.go and internal/mountutil/statfs.go: a volume's reading, inside and public.
use nomad_csi_driver.Base.{ℕ, ℤ, pos, Text, Bool, false, List, [], ◌∷◌, Option, none, some, text_eq}
use nomad_csi_driver.Base.Map.{Map, lookup}

-- `mountutil.FSStats`
pub record FsStats : Type 0 where
  pub total_bytes : ℤ
  pub used_bytes : ℤ
  pub available_bytes : ℤ
  pub total_inodes : ℤ
  pub used_inodes : ℤ
  pub free_inodes : ℤ

-- The counts of a tree walk.
pub record Counts : Type 0 where
  pub files : ℤ
  pub dirs : ℤ
  pub other : ℤ

-- `CSIVolumeStats`, its numbers of statfs and of the walk in a record each; 0 is the zero time.
pub record VolumeStats : Type 0 where
  pub volume_id : Text
  pub node : Text
  pub access_type : Text
  pub usage : FsStats
  pub statfs_at : ℕ
  pub counts : Counts
  pub walk_at : ℕ
  pub walk_duration : ℕ
  pub walk_complete : Bool
  pub last_error : Text

abbrev pub no_usage : FsStats
no_usage = record {
  total_bytes = pos 0;
  used_bytes = pos 0;
  available_bytes = pos 0;
  total_inodes = pos 0;
  used_inodes = pos 0;
  free_inodes = pos 0;
}

abbrev pub zero_stats : VolumeStats
zero_stats = record {
  volume_id = [];
  node = [];
  access_type = [];
  usage = no_usage;
  statfs_at = 0;
  counts = record { files = pos 0; dirs = pos 0; other = pos 0 };
  walk_at = 0;
  walk_duration = 0;
  walk_complete = false;
  last_error = [];
}

-- `PublicVolumeStats`: the Nomad id stands in place of the external id.
pub record PublicStats : Type 0 where
  pub id : Text
  pub namespace : Text
  pub node : Text
  pub access_type : Text
  pub usage : FsStats
  pub statfs_at : ℕ
  pub counts : Counts
  pub walk_at : ℕ
  pub walk_duration : ℕ
  pub walk_complete : Bool
  pub last_error : Text

unfoldable pub to_public : VolumeStats → Text → Text → PublicStats
to_public cs nomad_id namespace = record {
  id = nomad_id;
  namespace = namespace;
  node = cs.node;
  access_type = cs.access_type;
  usage = cs.usage;
  statfs_at = cs.statfs_at;
  counts = cs.counts;
  walk_at = cs.walk_at;
  walk_duration = cs.walk_duration;
  walk_complete = cs.walk_complete;
  last_error = cs.last_error;
}

relabel_to : VolumeStats → Text → Option Text → List PublicStats → List PublicStats
unfolding to_public
relabel_to cs namespace none rest = rest
relabel_to cs namespace (some nomad_id) rest = to_public cs nomad_id namespace ∷ rest

unfoldable pub relabel : List VolumeStats → Map Text Text → Text → List PublicStats
unfolding relabel_to
relabel [] rev namespace = []
relabel (cs ∷ rest) rev namespace =
    relabel_to cs namespace (lookup cs.volume_id rev) (relabel rest rev namespace)
