-- ===== src/Stats/Registry/Consistent.antt =====
-- internal/stats/registry.go: a volume with a worker has a reading, whatever is done to the registry.
use nomad_csi_driver.Base.{
  ℕ, ℤ, Text, Bool, true, false, ◌≡◌, ap, ◌∙◌, refl, ◌⊎◌, not, ◌||◌, List, [], ◌∷◌, Option, none,
  some, text_eq, ◌==◌, arith, Bool-cases, inl, inr, if◌then◌else◌, map,
}
use nomad_csi_driver.Base.Map.{lookup, erase, has, has-insert, has-erase}
use nomad_csi_driver.Driver.Errors.{Result}
use nomad_csi_driver.Stats.Reading.{FsStats, Counts, VolumeStats}
use nomad_csi_driver.Stats.Registry.{
  Config, Worker, Registry, TrackSpec, track, track_worker, presence, start_worker, new_worker,
  untrack, track_all, evict_all, mark, forget_uncached, evict_absent, reconcile, update,
  update_cached, on_statfs, on_walk, at_least_1,
}

-- Every volume that is measured has a reading, so that its worker's results are kept.
pub record IsConsistent (r : Registry) : Type 0 where
  pub at : (id : Text) → has id r.vols ≡ true → has id r.cache ≡ true

if-IsConsistent :
    (b : Bool) (r s : Registry)
    → IsConsistent r
    → IsConsistent s
    → IsConsistent (if b then r else s)
if-IsConsistent true r s h k = h
if-IsConsistent false r s h k = k

first-IsConsistent :
    (b : Bool) (p q : Registry × List Text)
    → IsConsistent p.0
    → IsConsistent q.0
    → IsConsistent (if b then p else q).0
first-IsConsistent true p q h k = h
first-IsConsistent false p q h k = k

module _ (cfg : Config) (node : Text) where
  presence-has :
      (id access j : Text) (r : Registry)
      → has j (presence cfg node id access r).cache ≡ (if id == j then true else has j r.cache)
  unfolding presence
  presence-has id access j r = has-insert id j _ r.cache

  start-vols :
      (id path access j : Text) (r : Registry)
      → has j (start_worker cfg node id path access r).vols ≡ true
      → (id ≡ j) ⊎ (has j r.vols ≡ true)
  unfolding start_worker
  start-vols id path access j r h = elim (Bool-cases (id == j)) [
    | inl e ↦ inl ((text_eq.beq_iff id j).0 e)
    | inr e ↦ inr (ground (arith, has-insert id j (new_worker path) r.vols))
  ]

  start-cache :
      (id path access : Text) (r : Registry)
      → (start_worker cfg node id path access r).cache ≡ r.cache
  unfolding start_worker
  start-cache id path access r = ground arith

  track_worker-IsConsistent :
      (id path access : Text) (o : Option Worker) (r : Registry)
      → lookup id r.vols ≡ o
      → IsConsistent r
      → IsConsistent (track_worker cfg node id path access o r)
  unfolding track_worker has
  track_worker-IsConsistent id path access (some w) r e h = record {
    at = λ j f.
        ground
          (arith, h.at j, has-insert id j (record w { path = path }) r.vols, text_eq.beq_iff id j);
  }
  track_worker-IsConsistent id path access none r e h = record {
    at = λ j f. elim (start-vols id path access j (presence cfg node id access r) f) [
      | inl same ↦ started j (ground (arith, presence-has id access j r, text_eq.beq_iff id j))
      | inr old ↦ started j (ground (arith, presence-has id access j r, h.at j old))
    ];
  }
    where
      started :
          (j : Text)
          → has j (presence cfg node id access r).cache ≡ true
          → has j (start_worker cfg node id path access (presence cfg node id access r)).cache
            ≡ true
      started j k = ap (has j) (start-cache id path access (presence cfg node id access r)) ∙ k

  track-IsConsistent :
      (id path access : Text) (r : Registry)
      → IsConsistent r
      → IsConsistent (track cfg node id path access r)
  unfolding track
  track-IsConsistent id path access r h =
      if-IsConsistent (not cfg.enabled || id == []) r
        (track_worker cfg node id path access (lookup id r.vols) r) h
        (track_worker-IsConsistent id path access (lookup id r.vols) r refl h)

  untrack-IsConsistent :
      (id : Text) (r : Registry) → IsConsistent r → IsConsistent (untrack cfg node id r)
  unfolding untrack
  untrack-IsConsistent id r h = record {
    at = λ j f. ground (arith, h.at j, has-erase id j r.vols, has-erase id j r.cache);
  }

  track_all-IsConsistent :
      (ds : List TrackSpec) (r : Registry) → IsConsistent r → IsConsistent (track_all cfg node ds r)
  unfolding track_all
  track_all-IsConsistent [] r h = h
  track_all-IsConsistent (d ∷ ds) r h =
      let next = track cfg node d.volume_id d.staging_path d.access_type r in
      track_all-IsConsistent ds (if d.volume_id == [] then r else next) (
        if-IsConsistent (d.volume_id == []) r next h
          (track-IsConsistent d.volume_id d.staging_path d.access_type r h))

  evict_all-IsConsistent :
      (ids : List Text) (r : Registry) → IsConsistent r → IsConsistent (evict_all cfg node ids r)
  unfolding evict_all
  evict_all-IsConsistent [] r h = h
  evict_all-IsConsistent (id ∷ ids) r h =
      let r' = untrack cfg node id r in
      evict_all-IsConsistent ids (record r' { absent = erase id r'.absent })
        (record { at = (untrack-IsConsistent id r h).at })

  evict_absent-IsConsistent :
      (ds : List TrackSpec) (grace : ℕ) (r : Registry)
      → IsConsistent r
      → IsConsistent (evict_absent cfg node ds grace r).0
  unfolding evict_absent
  evict_absent-IsConsistent ds grace r h =
      let (out, absent) = mark cfg node ds grace (map (λ e. e.0) r.cache) r.absent in
      evict_all-IsConsistent out (record r { absent = forget_uncached cfg node r.cache absent })
        (record { at = h.at })

  reconcile-IsConsistent :
      (ds : List TrackSpec) (evict : Bool) (grace : ℤ) (r : Registry)
      → IsConsistent r
      → IsConsistent (reconcile cfg node ds evict grace r).0
  unfolding reconcile evict_absent
  reconcile-IsConsistent ds evict grace r h =
      let r' = track_all cfg node ds r in
      let k = track_all-IsConsistent ds r h in
      let swept = evict_absent cfg node ds (at_least_1 grace) r' in
      first-IsConsistent (not cfg.enabled) (r, []) (if not evict then (r', []) else swept) h
        (first-IsConsistent (not evict) (r', []) swept k
          (evict_absent-IsConsistent ds (at_least_1 grace) r' k))

  update_cached-IsConsistent :
      (id : Text) (fn : VolumeStats → VolumeStats) (o : Option VolumeStats) (r : Registry)
      → IsConsistent r
      → IsConsistent (update_cached cfg node id fn o r)
  unfolding update_cached
  update_cached-IsConsistent id fn none r h = h
  update_cached-IsConsistent id fn (some v) r h = record {
    at = λ j f. ground (arith, h.at j f, has-insert id j (fn v) r.cache);
  }

  update-IsConsistent :
      (id : Text) (fn : VolumeStats → VolumeStats) (r : Registry)
      → IsConsistent r
      → IsConsistent (update cfg node id fn r)
  unfolding update
  update-IsConsistent id fn r h = update_cached-IsConsistent id fn (lookup id r.cache) r h

-- The operations of a registry.
pub data Op : Type 0 where
  do_track : Text → Text → Text → Op
  do_untrack : Text → Op
  do_reconcile : List TrackSpec → Bool → ℤ → Op
  do_statfs : Text → ℕ → Result FsStats → Text → Worker → Op
  do_walk : Text → ℕ → ℕ → Result Counts → Text → Worker → Op

unfoldable pub apply_op : Config → Text → Op → Registry → Registry
unfolding track untrack reconcile on_statfs on_walk
apply_op cfg node (do_track id path access) r = track cfg node id path access r
apply_op cfg node (do_untrack id) r = untrack cfg node id r
apply_op cfg node (do_reconcile ds evict grace) r = (reconcile cfg node ds evict grace r).0
apply_op cfg node (do_statfs id now res message w) r = (on_statfs cfg node id now res message w r).1
apply_op cfg node (do_walk id start now res message w) r =
    (on_walk cfg node id start now res message w r).1

unfoldable pub apply_ops : Config → Text → List Op → Registry → Registry
unfolding apply_op
apply_ops cfg node [] r = r
apply_ops cfg node (op ∷ ops) r = apply_ops cfg node ops (apply_op cfg node op r)

apply_op-IsConsistent :
    (cfg : Config) (node : Text) (op : Op) (r : Registry)
    → IsConsistent r
    → IsConsistent (apply_op cfg node op r)
unfolding apply_op on_statfs on_walk
apply_op-IsConsistent cfg node (do_track id path access) r h =
    track-IsConsistent cfg node id path access r h
apply_op-IsConsistent cfg node (do_untrack id) r h = untrack-IsConsistent cfg node id r h
apply_op-IsConsistent cfg node (do_reconcile ds evict grace) r h =
    reconcile-IsConsistent cfg node ds evict grace r h
apply_op-IsConsistent cfg node (do_statfs id now res message w) r h =
    update-IsConsistent cfg node id _ r h
apply_op-IsConsistent cfg node (do_walk id start now res message w) r h =
    update-IsConsistent cfg node id _ r h

-- Whatever sequence of operations a new registry goes through, also with results of workers that
-- come in after their volume was untracked, every volume with a worker has a reading.
pub apply_ops-IsConsistent :
    (cfg : Config) (node : Text) (ops : List Op) (r : Registry)
    → IsConsistent r
    → IsConsistent (apply_ops cfg node ops r)
unfolding apply_ops
apply_ops-IsConsistent cfg node [] r h = h
apply_ops-IsConsistent cfg node (op ∷ ops) r h =
    apply_ops-IsConsistent cfg node ops (apply_op cfg node op r)
      (apply_op-IsConsistent cfg node op r h)
