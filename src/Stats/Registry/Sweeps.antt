-- ===== src/Stats/Registry/Sweeps.antt =====
-- internal/stats/registry.go: what `Reconcile` evicts.
use nomad_csi_driver.Base.{
  ℕ, suc, ℤ, Text, Bool, true, false, ◌≡◌, ap, ◌∙◌, refl, not, ◌||◌, List, [], ◌∷◌, Option, none,
  some, text_eq, ◌==◌, arith, Bool-cases, inl, inr, if◌then◌else◌, codes, map, leb, ◌≤◌, All,
  beq_refl,
}
use nomad_csi_driver.Base.{contains, pos}
use nomad_csi_driver.Base.Int.{◌≤ℤ◌}
use nomad_csi_driver.Base.Map.{
  Map, lookup, insert, erase, has, has-insert, lookup-insert, lookup-erase,
}
use nomad_csi_driver.Stats.Registry.{
  Config, Registry, TrackSpec, Worker, track, track_worker, presence, start_worker, untrack,
  track_all, wants, mark, evict_absent, reconcile, at_least_1, count_or_zero,
}

module _ (cfg : Config) (node : Text) (ds : List TrackSpec) (grace : ℕ) where
  -- Nothing that is desired is marked for eviction.
  mark-unwanted :
      (ids : List Text) (absent : Map Text ℕ)
      → All (λ id. wants cfg node ds id ≡ false) (mark cfg node ds grace ids absent).0
  unfolding mark
  mark-unwanted [] absent = tt
  mark-unwanted (id ∷ ids) absent = elim (Bool-cases (wants cfg node ds id)) [
    | inl e ↦ rw e (mark-unwanted ids (erase id absent))
    | inr e ↦ rw e (marked (leb grace n) _ (mark-unwanted ids (insert id n absent)) e)
  ]
    where
      n : ℕ
      n = suc (count_or_zero (lookup id absent))

      marked :
          (b : Bool) (out : List Text)
          → All (λ id. wants cfg node ds id ≡ false) out
          → wants cfg node ds id ≡ false
          → All (λ id. wants cfg node ds id ≡ false) (if b then id ∷ out else out)
      marked true out h e = (e, h)
      marked false out h e = h

  mark-here :
      (id : Text) (n : ℕ) (ids : List Text) (absent : Map Text ℕ)
      → wants cfg node ds id ≡ false
      → grace ≤ suc n
      → lookup id absent ≡ some n
      → contains (mark cfg node ds grace (id ∷ ids) absent).0 id ≡ true
  unfolding mark contains
  mark-here id n ids absent w late f =
      let due : leb grace (suc n) ≡ true = ground arith in
      let same : (id == id) ≡ true = beq_refl id in rw (w, f, due, same) refl

  -- A count of absence that has reached the grace marks the volume.
  mark-overdue :
      (id : Text) (n : ℕ) (ids : List Text) (absent : Map Text ℕ)
      → wants cfg node ds id ≡ false
      → grace ≤ suc n
      → lookup id absent ≡ some n
      → contains ids id ≡ true
      → contains (mark cfg node ds grace ids absent).0 id ≡ true
  unfolding mark contains
  mark-overdue id n [] absent w late f there = ground arith
  mark-overdue id n (j ∷ ids) absent w late f there = elim (Bool-cases (j == id)) [
    | inl e ↦ rw ((text_eq.beq_iff j id).0 e) (mark-here id n ids absent w late f)
    | inr e ↦ ground (
      arith,
      mark-overdue id n ids (erase j absent) w late,
      mark-overdue id n ids (insert j (suc (count_or_zero (lookup j absent))) absent) w late,
      lookup-erase j id absent,
      lookup-insert j id (suc (count_or_zero (lookup j absent))) absent,
    )
  ]

module _ (cfg : Config) (node : Text) where
  -- Reconcile evicts no volume that is in the desired set, whatever the grace and the counts.
  pub reconcile-unwanted :
      (ds : List TrackSpec) (evict : Bool) (grace : ℤ) (r : Registry)
      → All (λ id. wants cfg node ds id ≡ false) (reconcile cfg node ds evict grace r).1
  unfolding reconcile evict_absent
  reconcile-unwanted ds evict grace r =
      let r' = track_all cfg node ds r in
      let swept = evict_absent cfg node ds (at_least_1 grace) r' in
      second (not cfg.enabled) (r, []) (if not evict then (r', []) else swept) tt
        (second (not evict) (r', []) swept tt
          (mark-unwanted cfg node ds (at_least_1 grace) (map (λ e. e.0) r'.cache) r'.absent))
    where
      second :
          (b : Bool) (p q : Registry × List Text)
          → All (λ id. wants cfg node ds id ≡ false) p.1
          → All (λ id. wants cfg node ds id ≡ false) q.1
          → All (λ id. wants cfg node ds id ≡ false) (if b then p else q).1
      second true p q h k = h
      second false p q h k = k

  has-keys :
      {V : Type 0} (id : Text) (m : Map Text V)
      → has id m ≡ true
      → contains (map (λ e. e.0) m) id ≡ true
  unfolding has lookup contains
  has-keys id [] h = ground arith
  has-keys id ((j, v) ∷ m) h = ground (arith, has-keys id m)

  module _ (id path access : Text) where
    start-same :
        (r : Registry)
        → ((start_worker cfg node id path access r).absent ≡ r.absent)
          × ((start_worker cfg node id path access r).cache ≡ r.cache)
    unfolding start_worker
    start-same r = elim (Bool-cases (access == codes "block")) [
      | inl e ↦ rw e (refl, refl)
      | inr e ↦ rw e (refl, refl)
    ]

    worker-absent :
        (o : Option Worker) (r : Registry)
        → (track_worker cfg node id path access o r).absent ≡ r.absent
    unfolding track_worker presence
    worker-absent (some w) r = refl
    worker-absent none r = (start-same (presence cfg node id access r)).0

    worker-has : (r : Registry) → has id (track_worker cfg node id path access none r).cache ≡ true
    unfolding track_worker presence
    worker-has r =
        let same : (if id == id then true else has id r.cache) ≡ true =
          ground (arith, beq_refl id) in
        ap (has id) (start-same (presence cfg node id access r)).1
        ∙ has-insert id id _ r.cache
        ∙ same

    -- Track leaves the counts of absence as they are.
    track-absent : (r : Registry) → (track cfg node id path access r).absent ≡ r.absent
    unfolding track
    track-absent r = elim (Bool-cases (not cfg.enabled || id == [])) [
      | inl e ↦ rw e refl
      | inr e ↦ rw e (worker-absent (lookup id r.vols) r)
    ]

    -- What is cached stays cached.
    worker-has_still :
        (k : Text) (o : Option Worker) (r : Registry)
        → has k r.cache ≡ true
        → has k (track_worker cfg node id path access o r).cache ≡ true
    unfolding track_worker presence
    worker-has_still k (some w) r h = h
    worker-has_still k none r h =
        let kept : (if id == k then true else has k r.cache) ≡ true = ground arith in
        ap (has k) (start-same (presence cfg node id access r)).1 ∙ has-insert id k _ r.cache ∙ kept

    track-has :
        (k : Text) (r : Registry)
        → has k r.cache ≡ true
        → has k (track cfg node id path access r).cache ≡ true
    unfolding track
    track-has k r h = elim (Bool-cases (not cfg.enabled || id == [])) [
      | inl e ↦ rw e h
      | inr e ↦ rw e (worker-has_still k (lookup id r.vols) r h)
    ]

    retrack-absent :
        (r : Registry) → (track cfg node id path access (untrack cfg node id r)).absent ≡ r.absent
    unfolding untrack
    retrack-absent r = track-absent (untrack cfg node id r)

    -- They leave the volume cached.
    retrack-has :
        (r : Registry)
        → cfg.enabled ≡ true
        → (id == []) ≡ false
        → has id (track cfg node id path access (untrack cfg node id r)).cache ≡ true
    unfolding track untrack
    retrack-has r on named =
        let gone : lookup id (erase id r.vols) ≡ none =
          ground (arith, lookup-erase id id r.vols, beq_refl id) in
        let go : (not cfg.enabled || id == []) ≡ false = ground arith in
        rw (go, gone) (worker-has (untrack cfg node id r))

  -- The tracking of a sweep leaves the counts of absence, and what is cached stays cached.
  track_all-keeps :
      (ds : List TrackSpec) (k : Text) (r : Registry)
      → has k r.cache ≡ true
      → ((track_all cfg node ds r).absent ≡ r.absent)
        × (has k (track_all cfg node ds r).cache ≡ true)
  unfolding track_all
  track_all-keeps [] k r h = (refl, h)
  track_all-keeps (d ∷ ds) k r h =
      let r' = track cfg node d.volume_id d.staging_path d.access_type r in
      let one =
        one_of (d.volume_id == []) r r' h (track-absent d.volume_id d.staging_path d.access_type r)
          (track-has d.volume_id d.staging_path d.access_type k r h) in
      let rest = track_all-keeps ds k (if d.volume_id == [] then r else r') one.1 in
      (rest.0 ∙ one.0, rest.1)
    where
      one_of :
          (b : Bool) (p q : Registry)
          → has k p.cache ≡ true
          → q.absent ≡ p.absent
          → has k q.cache ≡ true
          → ((if b then p else q).absent ≡ p.absent) × (has k (if b then p else q).cache ≡ true)
      one_of true p q h same there = (refl, h)
      one_of false p q h same there = (same, there)

  reconcile-evicts :
      (ds : List TrackSpec) (grace : ℤ) (r : Registry)
      → cfg.enabled ≡ true
      → (reconcile cfg node ds true grace r).1
        ≡ (evict_absent cfg node ds (at_least_1 grace) (track_all cfg node ds r)).1
  unfolding reconcile
  reconcile-evicts ds grace r on = let go : not cfg.enabled ≡ false = ground arith in rw go refl

  overdue_out :
      (ds : List TrackSpec) (grace n : ℕ) (id : Text) (r : Registry)
      → wants cfg node ds id ≡ false
      → grace ≤ suc n
      → lookup id r.absent ≡ some n
      → has id r.cache ≡ true
      → contains (evict_absent cfg node ds grace r).1 id ≡ true
  unfolding evict_absent
  overdue_out ds grace n id r w late f there =
      mark-overdue cfg node ds grace id n (map (λ e. e.0) r.cache) r.absent w late f
        (has-keys id r.cache there)

  -- A volume with a name, whose count of absence had reached one less than the grace when it was
  -- unstaged, and which is staged again before the next sweep, is evicted by that sweep if it evicts
  -- and misses the volume: a new stage gets no grace of its own.
  pub retrack-evicted :
      (ds : List TrackSpec) (grace : ℤ) (n : ℕ) (id path access : Text) (r : Registry)
      → cfg.enabled ≡ true
      → (id == []) ≡ false
      → wants cfg node ds id ≡ false
      → lookup id r.absent ≡ some n
      → grace ≤ℤ pos (suc n)
      → contains
          (reconcile cfg node ds true grace
            (track cfg node id path access (untrack cfg node id r))).1
          id
        ≡ true
  retrack-evicted ds grace n id path access r on named w f late =
      let again = track cfg node id path access (untrack cfg node id r) in
      let kept = track_all-keeps ds id again (retrack-has id path access r on named) in
      ap (λ out. contains out id) (reconcile-evicts ds grace again on)
      ∙ overdue_out ds (at_least_1 grace) n id (track_all cfg node ds again) w (ground arith)
          (ap (lookup id) (kept.0 ∙ retrack-absent id path access r) ∙ f) kept.1
