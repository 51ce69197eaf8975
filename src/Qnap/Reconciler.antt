-- ===== src/Qnap/Reconciler.antt =====
-- internal/driver/qnap/reconciler.go: the sweep that logs out leaked iSCSI sessions.
pub mod Grouping
pub mod Loop
pub mod Grace
use nomad_csi_driver.Base.{
  ℕ, ◌+◌, Text, Bool, true, false, ◌&&◌, ◌||◌, List, [], ◌∷◌, ◌++◌, Option, none, some, codes, map,
  eqb, ltb, text_eq, ◌==◌, contains, if◌then◌else◌,
}
use nomad_csi_driver.Base.Map.{Map, lookup, insert, erase, has}
use nomad_csi_driver.Driver.Errors.{Result, ok, err}
use nomad_csi_driver.Host.MountTable.{Mount}
use nomad_csi_driver.Qnap.Portal.{normalize_portal, portal_owned}

-- `iscsi.Session`
pub record IscsiSession : Type 0 where
  pub iqn : Text
  pub portal : Text
  pub device : Text

-- What the host answers during a sweep, the clock read after the grouping, and what the node knows:
-- the portals that are ours and the targets staged in this process.
pub record Scene : Type 0 where
  pub sessions : Result (List IscsiSession)
  pub mounts : Result (List Mount)
  pub use_multipath : Bool
  pub wwid : Text → Result Text
  pub resolve : Text → Result Text
  pub ours : Map Text (Unit {0})
  pub cached : List Text
  pub now : ℕ

pub record TargetState : Type 0 where
  pub portals : Map Text (Unit {0})
  pub live : Bool

abbrev pub Targets : Type 0
Targets = Map Text TargetState

-- The sources of mounts.
abbrev pub mounted : List Mount → List Text
mounted ms = map (λ m. m.source) ms

module _ (sc : Scene) where
  resolved_mounted : List Text → Result Text → Bool
  resolved_mounted srcs (ok real) = contains srcs real
  resolved_mounted srcs (err e) = false

  candidate_mounted : List Text → Text → Bool
  unfolding resolved_mounted
  candidate_mounted srcs cand = contains srcs cand || resolved_mounted srcs (sc.resolve cand)

  any_mounted : List Text → List Text → Bool
  unfolding candidate_mounted
  any_mounted srcs [] = false
  any_mounted srcs (c ∷ cs) = candidate_mounted srcs c || any_mounted srcs cs

  mapper_candidates : Text → Result Text → List Text
  mapper_candidates device (ok []) = device ∷ []
  mapper_candidates device (ok (c ∷ w)) = device ∷ (codes "/dev/mapper/" ++ c ∷ w) ∷ []
  mapper_candidates device (err e) = device ∷ []

  unfoldable pub device_mounted : List Text → Text → Bool
  unfolding any_mounted mapper_candidates
  device_mounted srcs device =
      if device == []
      then false
      else any_mounted srcs
          (if sc.use_multipath then mapper_candidates device (sc.wwid device) else device ∷ [])

  -- The target is staged in this process, or the session's device backs a mount.
  unfoldable pub keeps_alive : List Text → IscsiSession → Bool
  unfolding device_mounted
  keeps_alive srcs s = contains sc.cached s.iqn || device_mounted srcs s.device

  abbrev pub portals_of : Option TargetState → Map Text (Unit {0})
  portals_of none = []
  portals_of (some t) = t.portals

  abbrev pub live_of : Option TargetState → Bool
  live_of none = false
  live_of (some t) = t.live

  abbrev pub with_session : List Text → IscsiSession → Option TargetState → TargetState
  with_session srcs s t = record {
    portals = insert (normalize_portal s.portal) tt (portals_of t);
    live = live_of t || keeps_alive srcs s;
  }

  -- A session of another plugin's SAN is left out.
  unfoldable pub note_session : List Text → IscsiSession → Targets → Targets
  unfolding keeps_alive
  note_session srcs s ts =
      if portal_owned s.portal sc.ours
      then insert s.iqn (with_session srcs s (lookup s.iqn ts)) ts
      else ts

  -- The sessions by target, added to the targets known.
  unfoldable pub group : List Text → List IscsiSession → Targets → Targets
  unfolding note_session
  group srcs [] ts = ts
  group srcs (s ∷ ss) ts = group srcs ss (note_session srcs s ts)

  module _ (grace : ℕ) where
    -- The timers, and the logouts: pairs of a portal and a target.
    abbrev pub Outcome : Type 0
    Outcome = Map Text ℕ × List (Text × Text)

    unfoldable pub judge_orphan : Text → TargetState → Map Text ℕ → Option ℕ → Outcome
    judge_orphan iqn t since none = (insert iqn sc.now since, [])
    judge_orphan iqn t since (some first) =
        if ltb sc.now (first + grace)
        then (since, [])
        else (erase iqn since, map (λ p. (p.0, iqn)) t.portals)

    unfoldable pub judge : Text → TargetState → Map Text ℕ → Outcome
    unfolding judge_orphan
    judge iqn t since =
        if t.live then (erase iqn since, []) else judge_orphan iqn t since (lookup iqn since)

    -- A failed logout is only logged, and the timer is forgotten either way.
    unfoldable pub judge_all : Targets → Map Text ℕ → Outcome
    unfolding judge
    judge_all [] since = (since, [])
    judge_all ((iqn, t) ∷ ts) since =
        let (since', out) = judge iqn t since in
        let (since'', rest) = judge_all ts since' in (since'', out ++ rest)

    -- Forget the timers of targets that are gone.
    unfoldable pub forget_gone : Targets → Map Text ℕ → Map Text ℕ
    forget_gone ts [] = []
    forget_gone ts ((iqn, t) ∷ m) =
        let rest = forget_gone ts m in if has iqn ts then (iqn, t) ∷ rest else rest

    unfoldable pub sweep_targets : Targets → Map Text ℕ → Outcome
    unfolding judge_all forget_gone
    sweep_targets ts since = let (since', out) = judge_all ts since in (forget_gone ts since', out)

    unfoldable pub sweep_host :
        Result (List IscsiSession) → Result (List Mount) → Map Text ℕ → Outcome
    unfolding group sweep_targets
    sweep_host (err e) ms since = (since, [])
    sweep_host (ok ss) (err e) since = (since, [])
    sweep_host (ok ss) (ok ms) since = sweep_targets (group (mounted ms) ss []) since

    unfoldable pub sweep : Map Text ℕ → Outcome
    unfolding sweep_host
    sweep since = sweep_host sc.sessions sc.mounts since

-- `Run`: the sweeps one after the other, the latest first, on the timers.
unfoldable pub timers_after : ℕ → List Scene → Map Text ℕ
unfolding sweep
timers_after grace [] = []
timers_after grace (sc ∷ past) = (sweep sc grace (timers_after grace past)).0
