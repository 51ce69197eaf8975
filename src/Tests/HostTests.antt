-- ===== src/Tests/HostTests.antt =====
-- internal/mountutil/mountutil.go: the theorems on mounts at concrete hosts.
use nomad_csi_driver.Go.Trim.{trim_space}
use nomad_csi_driver.Base.{Text, true, false, ◌≡◌, refl, [], ◌∷◌, codes, text_beq}
use nomad_csi_driver.Driver.Errors.{ok}
use nomad_csi_driver.Host.Mounts.{Host, called, format_if_empty, bind_mount, unmount}
use nomad_csi_driver.Host.Mounts.Safety.{
  format_if_empty-keeps_data, bind_mount-read_only, unmount-ShowsUnmounted, Ran, ShowsUnmounted,
  remount, blkid,
}

-- Every command prints this.
abbrev printer : Text → Host
printer out = record { is_not_exist = λ e. false; answer = λ h c. ok out }

abbrev device : Text
device = codes "/dev/sdg"

-- A device with xfs is not formatted as ext4.
format_if_empty-keeps_data_example :
    (format_if_empty (printer (codes "xfs")) device (codes "ext4") [] []).1
    ≡ called (blkid device) (ok (codes "xfs")) ∷ []
unfolding text_beq trim_space
format_if_empty-keeps_data_example =
    format_if_empty-keeps_data (printer (codes "xfs")) device (codes "ext4") [] [] refl

bind_mount-read_only_example :
    Ran
      (remount (printer (codes "/t")) (codes "/t"))
      (bind_mount (printer (codes "/t")) device (codes "/t") true true []).1
unfolding bind_mount text_beq trim_space
bind_mount-read_only_example =
    bind_mount-read_only (printer (codes "/t")) device (codes "/t") true [] refl

unmount-ShowsUnmounted_example :
    ShowsUnmounted
      (printer (codes "/"))
      (codes "/t")
      (unmount (printer (codes "/")) (codes "/t") []).1
unfolding unmount text_beq trim_space
unmount-ShowsUnmounted_example = unmount-ShowsUnmounted (printer (codes "/")) (codes "/t") [] refl
