-- ===== src/Qnap/Listing/ReadOnly.antt =====
-- internal/driver/qnap/controller.go: the queries of the controller change nothing on the appliance.
use nomad_csi_driver.Base.{
  ℕ, ℤ, Text, Bool, true, false, ◌≡◌, refl, List, [], ◌∷◌, Option, none, some, All, if◌then◌else◌,
  text_eq,
}
use nomad_csi_driver.Base.Map.{Map}
use nomad_csi_driver.Driver.Errors.{Io}
use nomad_csi_driver.Qnap.Appliance.{
  Client, Lun, Target, Event, History, logged_in, clock, got_lun, got_target, listed_luns,
  listed_targets, listed_snapshots, got_pool,
}
use nomad_csi_driver.Qnap.Cache.{LunCache, all_luns, target_for_lun}
use nomad_csi_driver.Qnap.Params.{QnapConfig}
use nomad_csi_driver.Qnap.Session.{State, in_session, read_clock, record_call}
use nomad_csi_driver.Qnap.Session
use nomad_csi_driver.Qnap.Session.Keeps.{Keeps, IsSteady, in_session-Keeps, keeps_rules}
use nomad_csi_driver.Qnap.Controller.{mapped, attempt, volume_exists}
use nomad_csi_driver.Qnap.Assemble.{
  ensure_fresh, fetch_all, store_refreshed, cache_is_fresh, fresh_by_clock,
}
use nomad_csi_driver.Qnap.Listing.{
  free_on_pool, get_capacity, list_volumes, list_snapshots, list_cached, snapshots_for_lun,
  on_target, snapshots_of, all_snapshots,
}

-- A call that asks the appliance, and changes nothing.
abbrev pub asks : Event → Bool
asks (logged_in r) = true
asks (clock n) = true
asks (got_lun i r) = true
asks (got_target i r) = true
asks (listed_luns r) = true
asks (listed_targets r) = true
asks (listed_snapshots i r) = true
asks (got_pool i r) = true
asks (_) = false

abbrev pub IsReadOnly : History → Type 0
IsReadOnly h = All (λ e. asks e ≡ true) h

abbrev Reads : State → Type 0
Reads s = IsReadOnly s.history

Reads-IsSteady : IsSteady Reads
Reads-IsSteady = record { login = λ s r n h. (refl, h); reset = λ s h. h }

-- The queries of the controller.
pub data Query : Type 0 where
  capacity : Map Text Text → Query
  volumes : Query
  snapshots : Text → Query
  exists : Text → Query

module _ (cl : Client) where
  if-Reads :
      {A : Type 0} (b : Bool) (m n : Io State A)
      → Keeps Reads m
      → Keeps Reads n
      → Keeps Reads (if b then m else n)
  if-Reads true m n km kn = km
  if-Reads false m n km kn = kn

  mapped-Reads : {A : Type 0} (m : Io State A) → Keeps Reads m → Keeps Reads (mapped m)
  mapped-Reads m k = record { at = k.at }

  attempt-Reads : {A : Type 0} (m : Io State A) → Keeps Reads m → Keeps Reads (attempt m)
  attempt-Reads m k = record { at = k.at }

  session-Reads :
      {A : Type 0} (fn : ℕ → Io State A)
      → ((n : ℕ) → Keeps Reads (fn n))
      → Keeps Reads (in_session cl fn)
  session-Reads fn k = in_session-Keeps cl Reads Reads-IsSteady fn k

  get_lun-Reads : (n : ℕ) (i : ℤ) → Keeps Reads (Session.get_lun cl n i)
  unfolding Session.get_lun
  get_lun-Reads n i = record { at = λ s h. (refl, h) }

  list_luns-Reads : (n : ℕ) → Keeps Reads (Session.list_luns cl n)
  unfolding Session.list_luns
  list_luns-Reads n = record { at = λ s h. (refl, h) }

  list_targets-Reads : (n : ℕ) → Keeps Reads (Session.list_targets cl n)
  unfolding Session.list_targets
  list_targets-Reads n = record { at = λ s h. (refl, h) }

  list_snapshots-Reads : (n : ℕ) (i : ℤ) → Keeps Reads (Session.list_snapshots cl n i)
  unfolding Session.list_snapshots
  list_snapshots-Reads n i = record { at = λ s h. (refl, h) }

  get_pool-Reads : (n : ℕ) (i : ℤ) → Keeps Reads (Session.get_pool cl n i)
  unfolding Session.get_pool
  get_pool-Reads n i = record { at = λ s h. (refl, h) }

  read_clock-Reads : Keeps Reads (read_clock cl)
  unfolding read_clock
  read_clock-Reads = record { at = λ s h. (refl, h) }

  ruleset reads_rules = (
    keeps_rules, if-Reads, mapped-Reads, attempt-Reads, session-Reads, get_lun-Reads,
    list_luns-Reads, list_targets-Reads, list_snapshots-Reads, get_pool-Reads, read_clock-Reads,
  )

  module _ (cfg : QnapConfig) (parse_ansic : Text → Option ℤ) where
    fresh_by_clock-Reads : (c : LunCache) (b : Bool) → Keeps Reads (fresh_by_clock cl cfg c b)
    unfolding fresh_by_clock
    fresh_by_clock-Reads c true = search (reads_rules)
    fresh_by_clock-Reads c false = search (reads_rules)

    cache_is_fresh-Reads : Keeps Reads (cache_is_fresh cl cfg)
    unfolding cache_is_fresh
    cache_is_fresh-Reads = record {
      at = λ s h. (fresh_by_clock-Reads s.cache s.cache.loaded).at s h;
    }

    store_refreshed-Reads :
        (lists : List Lun × List Target) (n : ℕ) → Keeps Reads (store_refreshed cl cfg lists n)
    unfolding store_refreshed
    store_refreshed-Reads lists n = record { at = λ s h. h }

    fetch_all-Reads : (sess : ℕ) → Keeps Reads (fetch_all cl cfg sess)
    unfolding fetch_all
    fetch_all-Reads sess = search (reads_rules)

    ensure_fresh-Reads : Keeps Reads (ensure_fresh cl cfg)
    unfolding ensure_fresh
    ensure_fresh-Reads =
        search (reads_rules, cache_is_fresh-Reads, store_refreshed-Reads, fetch_all-Reads)

    free_on_pool-Reads : (n : ℤ) → Keeps Reads (free_on_pool cl cfg parse_ansic n)
    unfolding free_on_pool
    free_on_pool-Reads n = search (reads_rules)

    get_capacity-Reads :
        (params : Map Text Text) → Keeps Reads (get_capacity cl cfg parse_ansic params)
    unfolding get_capacity
    get_capacity-Reads params = search (reads_rules, free_on_pool-Reads)

    list_cached-Reads : Keeps Reads (list_cached cl cfg parse_ansic)
    unfolding list_cached
    list_cached-Reads = record { at = λ s h. h }

    list_volumes-Reads : Keeps Reads (list_volumes cl cfg parse_ansic)
    unfolding list_volumes
    list_volumes-Reads = search (reads_rules, ensure_fresh-Reads, list_cached-Reads)

    snapshots_for_lun-Reads :
        (i : ℤ) (src : Text) → Keeps Reads (snapshots_for_lun cl cfg parse_ansic i src)
    unfolding snapshots_for_lun
    snapshots_for_lun-Reads i src = search (reads_rules)

    on_target-Reads : (l : Lun) (t : Option Target) → Keeps Reads (on_target cl cfg parse_ansic l t)
    unfolding on_target
    on_target-Reads l none = search (reads_rules)
    on_target-Reads l (some t) = snapshots_for_lun-Reads l.index _

    here-Reads :
        (l : Lun)
        → Keeps Reads (λ s. on_target cl cfg parse_ansic l (target_for_lun s.cache l.index) s)
    here-Reads l = record {
      at = λ s h. (on_target-Reads l (target_for_lun s.cache l.index)).at s h;
    }

    snapshots_of-Reads : (ls : List Lun) → Keeps Reads (snapshots_of cl cfg parse_ansic ls)
    unfolding snapshots_of
    snapshots_of-Reads [] = search (reads_rules)
    snapshots_of-Reads (l ∷ ls) = search (reads_rules, here-Reads l, snapshots_of-Reads ls)

    all_snapshots-Reads : Keeps Reads (all_snapshots cl cfg parse_ansic)
    unfolding all_snapshots
    all_snapshots-Reads = record { at = λ s h. (snapshots_of-Reads (all_luns s.cache)).at s h }

    list_snapshots_all-Reads :
        (source : Text) → Keeps Reads (list_snapshots cl cfg parse_ansic source)
    unfolding list_snapshots
    list_snapshots_all-Reads source =
        search (reads_rules, ensure_fresh-Reads, all_snapshots-Reads, snapshots_for_lun-Reads)

    volume_exists-Reads : (id : Text) → Keeps Reads (volume_exists cl id)
    unfolding volume_exists
    volume_exists-Reads id = search (reads_rules)

    -- The state a query leaves.
    unfoldable pub state_after : Query → State → State
    state_after (capacity params) s = (get_capacity cl cfg parse_ansic params s).1
    state_after volumes s = (list_volumes cl cfg parse_ansic s).1
    state_after (snapshots source) s = (list_snapshots cl cfg parse_ansic source s).1
    state_after (exists id) s = (volume_exists cl id s).1

    -- Each of GetCapacity, ListVolumes, ListSnapshots and VolumeExists, on every argument, every answer of the
    -- appliance and every state of the session and the cache, sends the appliance only logins and calls that
    -- read: a history of such calls stays one, whether the query answers or fails.
    pub state_after-IsReadOnly :
        (q : Query) (s : State) → IsReadOnly s.history → IsReadOnly (state_after q s).history
    unfolding state_after
    state_after-IsReadOnly (capacity params) s = (get_capacity-Reads params).at s
    state_after-IsReadOnly volumes s = list_volumes-Reads.at s
    state_after-IsReadOnly (snapshots source) s = (list_snapshots_all-Reads source).at s
    state_after-IsReadOnly (exists id) s = (volume_exists-Reads id).at s
