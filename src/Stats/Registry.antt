-- ===== src/Stats/Registry.antt =====
-- internal/stats/registry.go: the registry of measured volumes. Each operation holds the lock of the
-- registry, or is a sequence of such operations here.
pub mod Consistent
pub mod Sweeps
use nomad_csi_driver.Base.{
  ℕ, suc, ◌+◌, ◌-◌, ℤ, pos, negsuc, Text, Bool, true, false, not, ◌&&◌, ◌||◌, List, [], ◌∷◌, Option,
  none, some, codes, leb, text_eq, ◌==◌, map, contains, if◌then◌else◌,
}
use nomad_csi_driver.Base.Int.{◌+ℤ◌}
use nomad_csi_driver.Base.Map.{Map, lookup, insert, erase, has}
use nomad_csi_driver.Driver.Errors.{Error, Result, ok, err}
use nomad_csi_driver.Stats.Reading.{FsStats, Counts, VolumeStats, zero_stats}
use nomad_csi_driver.Stats.Backoff.{backoff}

pub record Config : Type 0 where
  pub enabled : Bool
  pub interval : ℕ
  pub max_failure_backoff : ℕ
  pub walk_interval : ℕ

-- What a `worker` keeps.
pub record Worker : Type 0 where
  pub path : Text
  pub statfs_fails : ℕ
  pub walk_fails : ℕ
  pub next_statfs : ℤ
  pub next_walk : ℤ
  pub statfs_ok : Bool

pub record Registry : Type 0 where
  pub vols : Map Text Worker
  pub cache : Map Text VolumeStats
  pub absent : Map Text ℕ

pub record TrackSpec : Type 0 where
  pub volume_id : Text
  pub staging_path : Text
  pub access_type : Text

abbrev cached_or_zero : Option VolumeStats → VolumeStats
cached_or_zero none = zero_stats
cached_or_zero (some v) = v

abbrev pub count_or_zero : Option ℕ → ℕ
count_or_zero none = 0
count_or_zero (some n) = n

abbrev pub new_worker : Text → Worker
new_worker path = record {
  path = path;
  statfs_fails = 0;
  walk_fails = 0;
  next_statfs = pos 0;
  next_walk = pos 0;
  statfs_ok = false;
}

abbrev pub at_least_1 : ℤ → ℕ
at_least_1 (pos n) = if leb 1 n then n else 1
at_least_1 (negsuc n) = 1

module _ (cfg : Config) (node : Text) where
  presence : Text → Text → Registry → Registry
  presence id access r =
      let cur = cached_or_zero (lookup id r.cache) in
      record r {
        cache =
            insert id (record cur { volume_id = id; node = node; access_type = access }) r.cache;
      }

  -- A block volume is there for presence only.
  start_worker : Text → Text → Text → Registry → Registry
  start_worker id path access r =
      if access == codes "block" then r else record r { vols = insert id (new_worker path) r.vols }

  -- A volume that has a worker keeps it, with the new path.
  track_worker : Text → Text → Text → Option Worker → Registry → Registry
  unfolding presence start_worker
  track_worker id path access (some w) r = record r {
    vols = insert id (record w { path = path }) r.vols;
  }
  track_worker id path access none r = start_worker id path access (presence id access r)

  unfoldable pub track : Text → Text → Text → Registry → Registry
  unfolding track_worker
  track id path access r =
      if not cfg.enabled || id == [] then r else track_worker id path access (lookup id r.vols) r

  unfoldable pub untrack : Text → Registry → Registry
  untrack id r = record r { vols = erase id r.vols; cache = erase id r.cache }

  -- The first loop of `Reconcile`.
  unfoldable pub track_all : List TrackSpec → Registry → Registry
  unfolding track
  track_all [] r = r
  track_all (d ∷ ds) r =
      track_all ds
        (if d.volume_id == [] then r else track d.volume_id d.staging_path d.access_type r)

  abbrev pub wants : List TrackSpec → Text → Bool
  wants ds id = not (id == []) && contains (map (λ d. d.volume_id) ds) id

  -- The second loop: the counts of absence, and the volumes that are to go.
  unfoldable pub mark : List TrackSpec → ℕ → List Text → Map Text ℕ → List Text × Map Text ℕ
  mark ds grace [] absent = ([], absent)
  mark ds grace (id ∷ ids) absent =
      if wants ds id
      then mark ds grace ids (erase id absent)
      else (let n = suc (count_or_zero (lookup id absent)) in
          let (out, absent') = mark ds grace ids (insert id n absent) in
          (if leb grace n then id ∷ out else out, absent'))

  -- The third loop: the counts of volumes that are not cached go.
  unfoldable pub forget_uncached : Map Text VolumeStats → Map Text ℕ → Map Text ℕ
  forget_uncached cache [] = []
  forget_uncached cache ((id, n) ∷ m) =
      let rest = forget_uncached cache m in if has id cache then (id, n) ∷ rest else rest

  unfoldable pub evict_all : List Text → Registry → Registry
  unfolding untrack
  evict_all [] r = r
  evict_all (id ∷ ids) r =
      let r' = untrack id r in evict_all ids (record r' { absent = erase id r'.absent })

  -- The eviction, after the tracking.
  unfoldable pub evict_absent : List TrackSpec → ℕ → Registry → Registry × List Text
  unfolding mark forget_uncached evict_all
  evict_absent ds grace r =
      let (out, absent) = mark ds grace (map (λ e. e.0) r.cache) r.absent in
      (evict_all out (record r { absent = forget_uncached r.cache absent }), out)

  -- A grace below 1 counts as 1.
  unfoldable pub reconcile : List TrackSpec → Bool → ℤ → Registry → Registry × List Text
  unfolding track_all evict_absent
  reconcile ds evict grace r =
      if not cfg.enabled
      then (r, [])
      else (let r' = track_all ds r in
          if not evict then (r', []) else evict_absent ds (at_least_1 grace) r')

  -- `update`: a no-op for a volume that is not tracked.
  update_cached : Text → (VolumeStats → VolumeStats) → Option VolumeStats → Registry → Registry
  update_cached id fn none r = r
  update_cached id fn (some v) r = record r { cache = insert id (fn v) r.cache }

  unfoldable pub update : Text → (VolumeStats → VolumeStats) → Registry → Registry
  unfolding update_cached
  update id fn r = update_cached id fn (lookup id r.cache) r

  statfs_reading : ℕ → Result FsStats → Text → VolumeStats → VolumeStats
  statfs_reading now (ok u) message s = record s { usage = u; statfs_at = now; last_error = [] }
  statfs_reading now (err e) message s = record s { last_error = message }

  statfs_worker : ℕ → Result FsStats → Worker → Worker
  statfs_worker now (ok u) w = record w {
    statfs_fails = 0;
    next_statfs = pos (now + cfg.interval);
    statfs_ok = true;
  }
  statfs_worker now (err e) w =
      let fails = suc w.statfs_fails in
      record w {
        statfs_fails = fails;
        next_statfs = pos now +ℤ backoff (pos cfg.interval) (pos cfg.max_failure_backoff) fails;
        statfs_ok = false;
      }

  -- `onStatfs`, on the worker that fired it and the registry; the message of an error is given.
  unfoldable pub on_statfs :
      Text → ℕ → Result FsStats → Text → Worker → Registry → Worker × Registry
  unfolding statfs_worker statfs_reading update
  on_statfs id now res message w r =
      (statfs_worker now res w, update id (statfs_reading now res message) r)

  walk_reading : ℕ → ℕ → Result Counts → Text → VolumeStats → VolumeStats
  walk_reading start now (ok c) message s = record s {
    counts = c;
    walk_at = now;
    walk_duration = now - start;
    walk_complete = true;
    last_error = [];
  }
  walk_reading start now (err e) message s = record s { last_error = message }

  walk_worker : ℕ → Result Counts → Worker → Worker
  walk_worker now (ok c) w = record w { walk_fails = 0; next_walk = pos (now + cfg.walk_interval) }
  walk_worker now (err e) w =
      let fails = suc w.walk_fails in
      record w {
        walk_fails = fails;
        next_walk = pos now +ℤ backoff (pos cfg.walk_interval) (pos cfg.max_failure_backoff) fails;
      }

  -- The end of the goroutine of `fireWalk`.
  unfoldable pub on_walk :
      Text → ℕ → ℕ → Result Counts → Text → Worker → Registry → Worker × Registry
  unfolding walk_worker walk_reading update
  on_walk id start now res message w r =
      (walk_worker now res w, update id (walk_reading start now res message) r)

  -- `Get` and `Dump`
  unfoldable pub get : Text → Registry → Option VolumeStats
  get id r = lookup id r.cache

  unfoldable pub dump : Registry → List VolumeStats
  dump r = map (λ e. e.1) r.cache
