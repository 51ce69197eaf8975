-- ===== src/Host/StatFs.antt =====
-- internal/mountutil/statfs.go: the usage of a file system, in int64.
use nomad_csi_driver.Base.{ℤ, Text}
use nomad_csi_driver.Base.Int.{◌-ℤ◌}
use nomad_csi_driver.Driver.Errors.{Result, ok, err}
use nomad_csi_driver.Local.Size.{wrap64, times}
use nomad_csi_driver.Stats.Reading.{FsStats}

-- `syscall.Statfs_t`, each number as an int64.
pub record StatfsT : Type 0 where
  pub bsize : ℤ
  pub blocks : ℤ
  pub bfree : ℤ
  pub bavail : ℤ
  pub files : ℤ
  pub ffree : ℤ

unfoldable pub usage_of : StatfsT → FsStats
usage_of s =
    let total = wrap64 (times s.blocks s.bsize) in
    let free = wrap64 (times s.bfree s.bsize) in
    record {
      total_bytes = total;
      used_bytes = wrap64 (total -ℤ free);
      available_bytes = wrap64 (times s.bavail s.bsize);
      total_inodes = s.files;
      used_inodes = wrap64 (s.files -ℤ s.ffree);
      free_inodes = s.ffree;
    }

-- On what the system call answers for the path.
unfoldable pub stat_fs : (Text → Result StatfsT) → Text → Result FsStats
unfolding usage_of
stat_fs statfs path = elim (statfs path) [ ok s ↦ ok (usage_of s) | err e ↦ err e ]
