-- ===== src/Local/Staged/Distinct.antt =====
-- internal/driver/local/node.go: stagedVolumes lists each volume once, under an id of this node.
use nomad_csi_driver.Base.{
  Text, Bool, true, false, ◌≡◌, refl, subst, List, [], ◌∷◌, Option, none, some, arith, text_eq,
  if◌then◌else◌,
}
use nomad_csi_driver.Base.Map.{Map, has, insert}
use nomad_csi_driver.Driver.Errors.{ok, Io, pure, ◌>>=◌}
use nomad_csi_driver.Driver.Keeps.{succeeded}
use nomad_csi_driver.Host.Mounts.{Host, History}
use nomad_csi_driver.Host.MountTable.{Mount, list_mounts}
use nomad_csi_driver.Local.Staged.{
  Devices, dataset_of, id_of, spec_of, collect_one, collect, staged_volumes,
}
use nomad_csi_driver.Stats.Registry.{TrackSpec}

module _ (host : Host) (node : Text) where
  -- No two have the same id, none has an id that was seen before, and all are volumes of this node.
  abbrev pub AreDistinct : Map Text (Unit {0}) → List TrackSpec → Type 0
  AreDistinct seen [] = Unit
  AreDistinct seen (s ∷ ss) =
      ((dataset : Text) × (s.volume_id ≡ id_of host node dataset))
      × (has s.volume_id seen ≡ false)
      × AreDistinct (insert s.volume_id tt seen) ss

  -- What one mount adds keeps it so.
  collect_one-AreDistinct :
      (m : Mount) (found : Option Text) (next : Map Text (Unit {0}) → Io History (List TrackSpec))
      (seen : Map Text (Unit {0})) (h : History) (specs : List TrackSpec)
      → ((seen' : Map Text (Unit {0})) (h' : History) (ss : List TrackSpec)
          → (next seen' h').0 ≡ ok ss
          → AreDistinct seen' ss)
      → (collect_one host node m found next seen h).0 ≡ ok specs
      → AreDistinct seen specs
  unfolding collect_one
  collect_one-AreDistinct m none next seen h specs ih e = ih seen h specs e
  collect_one-AreDistinct m (some dataset) next seen h specs ih e =
      by_seen (has (id_of host node dataset) seen) refl e
    where
      by_seen :
          (b : Bool)
          → has (id_of host node dataset) seen ≡ b
          → ((if b
                then next seen
                else (next (insert (id_of host node dataset) tt seen) >>= λ rest.
                    pure (spec_of host node dataset m.target ∷ rest)))
              h).0
            ≡ ok specs
          → AreDistinct seen specs
      by_seen true known e = ih seen h specs e
      by_seen false fresh e =
          let done = succeeded (next (insert (id_of host node dataset) tt seen)) _ h specs e in
          let same : spec_of host node dataset m.target ∷ done.first ≡ specs =
            ground (arith, done.did_second) in
          subst (AreDistinct seen) same ((dataset, refl), fresh, ih _ h done.first done.did_first)

  collect-AreDistinct :
      (devs : Devices) (ms : List Mount) (seen : Map Text (Unit {0})) (h : History)
      (specs : List TrackSpec)
      → (collect host node devs ms seen h).0 ≡ ok specs
      → AreDistinct seen specs
  unfolding collect
  collect-AreDistinct devs [] seen h specs e =
      let same : [] ≡ specs = ground arith in subst (AreDistinct seen) same tt
  collect-AreDistinct devs (m ∷ ms) seen h specs e =
      let found = succeeded (dataset_of host devs m.source) _ h specs e in
      collect_one-AreDistinct m found.first (collect host node devs ms) seen _ specs
        (λ seen' h' ss q. collect-AreDistinct devs ms seen' h' ss q) found.did_second

  -- The volumes that stagedVolumes lists, whatever devices and mounts the host has, have ids of this
  -- node, and no two of them have the same id.
  pub staged_volumes-AreDistinct :
      (devices : History → Devices) (h : History) (specs : List TrackSpec)
      → (staged_volumes host node devices h).0 ≡ ok specs
      → AreDistinct [] specs
  unfolding staged_volumes
  staged_volumes-AreDistinct devices h specs e =
      let listed = succeeded (list_mounts host) _ h specs e in
      collect-AreDistinct _ listed.first [] _ specs listed.did_second
