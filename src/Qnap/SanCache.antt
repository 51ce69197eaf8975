-- ===== src/Qnap/SanCache.antt =====
-- internal/driver/qnap/sancache.go: the identities of volumes, read from the appliance and kept for a
-- short time. Each operation holds the mutex for its whole body.
use nomad_csi_driver.Base.{
  ℕ, zero, suc, ◌-◌, ℤ, pos, negsuc, Text, Bool, List, [], ◌∷◌, Option, none, some, ltb, text_eq,
  int_eq, ◌==◌, if◌then◌else◌,
}
use nomad_csi_driver.Base.Map.{Map, lookup, insert}
use nomad_csi_driver.Driver.Errors.{Result, ok, err, Io, pure, attempt, ◌>>=◌}
use nomad_csi_driver.Qnap.Appliance.{Lun, Target, Client}
use nomad_csi_driver.Qnap.ExternalId.{ExternalId, print_id}
use nomad_csi_driver.Qnap.Session.{State, get_session, list_targets, list_luns, read_clock}

-- The maps by target index, by LUN index and by IQN, and when they were read, in nanoseconds.
pub record Identities : Type 0 where
  pub targets : Map ℤ Target
  pub luns : Map ℤ Lun
  pub by_iqn : Map Text Target
  pub loaded : ℕ

pub record SanCache : Type 0 where
  pub identities : Option Identities
  pub session : State

unfoldable pub targets_by_index : List Target → Map ℤ Target → Map ℤ Target
targets_by_index [] m = m
targets_by_index (t ∷ ts) m = targets_by_index ts (insert t.index t m)

unfoldable pub targets_by_iqn : List Target → Map Text Target → Map Text Target
targets_by_iqn [] m = m
targets_by_iqn (t ∷ ts) m = targets_by_iqn ts (if t.iqn == [] then m else insert t.iqn t m)

unfoldable pub luns_by_index : List Lun → Map ℤ Lun → Map ℤ Lun
luns_by_index [] m = m
luns_by_index (l ∷ ls) m = luns_by_index ls (insert l.index l m)

unfoldable pub identities_of : List Target → List Lun → ℕ → Identities
unfolding targets_by_index targets_by_iqn luns_by_index
identities_of ts ls now = record {
  targets = targets_by_index ts [];
  luns = luns_by_index ls [];
  by_iqn = targets_by_iqn ts [];
  loaded = now;
}

-- The LUN at that place of a target.
nth : ℕ → List ℤ → Option ℤ
nth n [] = none
nth zero (i ∷ is) = some i
nth (suc n) (i ∷ is) = nth n is

-- A target of one LUN, or else the LUN that has the number.
unfoldable pub lun_index_of : List ℤ → ℤ → Option ℤ
unfolding nth
lun_index_of (i ∷ []) number = some i
lun_index_of luns (pos n) = nth n luns
lun_index_of luns (negsuc n) = none

named : ExternalId → Option Lun → Option Target → Option Text
named eid none t = none
named eid (some l) none = none
named eid (some l) (some t) = if l.name == eid.lun_name then some t.iqn else none

-- The IQN of a volume's target, if the LUN at its index still has its name.
unfoldable pub iqn_of : ExternalId → Identities → Option Text
unfolding named
iqn_of eid ids = named eid (lookup eid.lun_index ids.luns) (lookup eid.target_index ids.targets)

unfoldable pub external_id_of : Target → ℤ → Option Lun → Option Text
external_id_of t i none = none
external_id_of t i (some l) = some (
    print_id (record {
      lun_index = i;
      target_index = t.index;
      own_target = t.alias == l.name;
      lun_name = l.name;
    }))

id_at : Target → Map ℤ Lun → Option ℤ → Option Text
unfolding external_id_of
id_at t luns none = none
id_at t luns (some i) = external_id_of t i (lookup i luns)

unfoldable pub id_of_target : Option Target → ℤ → Map ℤ Lun → Option Text
unfolding lun_index_of id_at
id_of_target none number luns = none
id_of_target (some t) number luns = id_at t luns (lun_index_of t.luns number)

module _ (cl : Client) (ttl : ℕ) where
  abbrev on_session : {A : Type 0} → Io State A → Io SanCache A
  on_session m c = let (r, s) = m c.session in (r, record c { session = s })

  store : Identities → Io SanCache Identities
  store ids c = (ok ids, record c { identities = some ids })

  unfoldable pub hydrate : Io SanCache Identities
  unfolding store
  hydrate = do
    sess ← on_session (get_session cl)
    ts ← on_session (list_targets cl sess)
    ls ← on_session (list_luns cl sess)
    now ← on_session (read_clock cl)
    store (identities_of ts ls now)

  -- The clock may run backwards: a difference below zero is not above the TTL, as 0 is here.
  unfoldable pub is_stale : Identities → ℕ → Bool
  is_stale ids now = ltb ttl (now - ids.loaded)

  unless_stale : Identities → Io SanCache Identities
  unfolding hydrate is_stale
  unless_stale ids = do
    now ← on_session (read_clock cl)
    if is_stale ids now then hydrate else pure ids

  unfoldable pub identities : Io SanCache Identities
  unfolding hydrate unless_stale
  identities c = elim c.identities [ none ↦ hydrate c | some ids ↦ unless_stale ids c ]

  found : (Identities → Option Text) → Result Identities → Option Text
  found f (ok ids) = f ids
  found f (err e) = none

  unfoldable pub resolve_iqn : ExternalId → Io SanCache (Option Text)
  unfolding identities found iqn_of
  resolve_iqn eid = do r ← attempt identities; pure (found (iqn_of eid) r)

  unfoldable pub resolve_external_id : Text → ℤ → Io SanCache (Option Text)
  unfolding identities found id_of_target
  resolve_external_id iqn number = do
    r ← attempt identities
    pure (found (λ ids. id_of_target (lookup iqn ids.by_iqn) number ids.luns) r)
