-- ===== src/Tests/StatsTests.antt =====
-- internal/stats: the theorems on the registry at concrete inputs.
use nomad_csi_driver.Base.{
  pos, Text, true, ◌≡◌, refl, [], ◌∷◌, codes, text_eq, text_beq, arith, contains,
}
use nomad_csi_driver.Base.Map.{lookup, has}
use nomad_csi_driver.Stats.Reading.{zero_stats}
use nomad_csi_driver.Stats.Backoff.{backoff, backoff-least}
use nomad_csi_driver.Stats.Registry.{Config, Registry, track, untrack, reconcile}
use nomad_csi_driver.Stats.Registry.Consistent.{
  IsConsistent, apply_ops, apply_ops-IsConsistent, do_track, do_untrack,
}
use nomad_csi_driver.Stats.Registry.Sweeps.{retrack-evicted}

abbrev config : Config
config = record { enabled = true; interval = 30; max_failure_backoff = 600; walk_interval = 900 }

abbrev empty : Registry
empty = record { vols = []; cache = []; absent = [] }

abbrev vol : Text
vol = codes "vol-a"

backoff-least_example : backoff (pos 30) (pos 600) 4 ≡ pos 240
backoff-least_example = backoff-least 30 600 4 (omega arith) (omega arith)

apply_ops-IsConsistent_example : IsConsistent (
    apply_ops config
      (codes "n1")
      (do_track vol (codes "/s") (codes "mount") ∷ do_untrack vol ∷ [])
      empty)
apply_ops-IsConsistent_example =
    apply_ops-IsConsistent config (codes "n1")
      (do_track vol (codes "/s") (codes "mount") ∷ do_untrack vol ∷ []) empty
      (record { at = λ id h. unfold has in h })

abbrev missed : Registry
missed = record { vols = []; cache = (vol, zero_stats) ∷ []; absent = (vol, 1) ∷ [] }

retrack-evicted_example :
    contains
      (reconcile config (codes "n1") [] true (pos 2) (
        track config
          (codes "n1")
          vol
          (codes "/s")
          (codes "mount")
          (untrack config (codes "n1") vol missed))).1
      vol
    ≡ true
unfolding text_beq contains lookup
retrack-evicted_example =
    retrack-evicted config (codes "n1") [] (pos 2) 1 vol (codes "/s") (codes "mount") missed refl
      refl refl refl (omega arith)
