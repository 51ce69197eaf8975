-- ===== src/Qnap/Reconciler/Grace.antt =====
-- internal/driver/qnap/reconciler.go: a target is logged out only after a whole grace period as an
-- orphan, from one sweep to another.
use nomad_csi_driver.Base.{
  ℕ, ◌+◌, ◌≤◌, Text, Bool, true, false, ◌≡◌, refl, not, ◌&&◌, ◌||◌, List, [], ◌∷◌, some, text_eq,
  arith, All, eqb, if◌then◌else◌, sym, ap, ◌∙◌,
}
use nomad_csi_driver.Base.Map.{Map, lookup}
use nomad_csi_driver.Driver.Errors.{Result, ok, err}
use nomad_csi_driver.Host.MountTable.{Mount}
use nomad_csi_driver.Qnap.Reconciler.{
  Scene, IscsiSession, Targets, group, sweep, sweep_targets, sweep_host, timers_after, mounted,
}
use nomad_csi_driver.Qnap.Reconciler.Grouping.{is_alive, is_seen, group-IsSound, IsSound}
use nomad_csi_driver.Qnap.Reconciler.Loop.{Sound, Due, judge_all-Due, sweep_targets-Timers}

-- The sweep could read the host.
abbrev pub readable : Result (List IscsiSession) → Result (List Mount) → Bool
readable (ok ss) (ok ms) = true
readable (ok ss) (err e) = false
readable (err e) ms = false

-- The target has sessions of ours, and nothing keeps one of them alive.
abbrev pub orphan_in : Scene → Text → Result (List IscsiSession) → Result (List Mount) → Bool
orphan_in sc iqn (ok ss) (ok ms) =
    is_seen sc (mounted ms) iqn ss && not (is_alive sc (mounted ms) iqn ss)
orphan_in sc iqn (ok ss) (err e) = false
orphan_in sc iqn (err e) ms = false

abbrev pub is_orphan : Scene → Text → Bool
is_orphan sc iqn = orphan_in sc iqn sc.sessions sc.mounts

abbrev pub was_read : Scene → Bool
was_read sc = readable sc.sessions sc.mounts

-- A sweep at the time `t`, and every sweep after it that could read the host, saw the orphan.
abbrev pub orphan_since : Text → ℕ → List Scene → Bool
orphan_since iqn t [] = false
orphan_since iqn t (sc ∷ past) =
    let before = orphan_since iqn t past in
    if was_read sc then is_orphan sc iqn && (eqb sc.now t || before) else before

module _ (grace : ℕ) (sc : Scene) (past : List Scene) where
  -- A timer that stands in the sweep.
  abbrev stands : Text → ℕ → Bool
  stands iqn t = is_orphan sc iqn && eqb sc.now t || orphan_since iqn t past

  stands-starts : (iqn : Text) → is_orphan sc iqn ≡ true → stands iqn sc.now ≡ true
  stands-starts iqn d = ground arith

  abbrev Since : List Scene → Map Text ℕ → Type 0
  Since scs m = (iqn : Text) (t : ℕ) → lookup iqn m ≡ some t → orphan_since iqn t scs ≡ true

  module _ (ss : Result (List IscsiSession)) (ms : Result (List Mount)) (p : sc.sessions ≡ ss)
      (q : sc.mounts ≡ ms) where
    read-host : was_read sc ≡ readable ss ms
    read-host = ap (λ r. readable r sc.mounts) p ∙ ap (λ r. readable ss r) q

    orphan-host : (iqn : Text) → is_orphan sc iqn ≡ orphan_in sc iqn ss ms
    orphan-host iqn = ap (λ r. orphan_in sc iqn r sc.mounts) p ∙ ap (λ r. orphan_in sc iqn ss r) q

  -- The grouping is sound for the orphans.
  host-Sound :
      (ss : List IscsiSession) (ms : List Mount) (ts : Targets)
      → ((iqn : Text) → is_orphan sc iqn ≡ orphan_in sc iqn (ok ss) (ok ms))
      → All (IsSound sc (mounted ms) ss) ts
      → All (Sound sc grace (is_orphan sc) stands stands-starts) ts
  host-Sound ss ms [] o h = tt
  host-Sound ss ms (e ∷ ts) o h = (h.0 ∙ sym (o e.0), host-Sound ss ms ts o h.1)

  host-Since :
      (ss : Result (List IscsiSession)) (ms : Result (List Mount)) (since : Map Text ℕ)
      → sc.sessions ≡ ss
      → sc.mounts ≡ ms
      → Since past since
      → Since (sc ∷ past) (sweep_host sc grace ss ms since).0
  unfolding sweep_host
  host-Since (err e) ms since p q h = λ iqn t f. ground (arith, read-host (err e) ms p q, h iqn t f)
  host-Since (ok ss) (err e) since p q h =
      λ iqn t f. ground (arith, read-host (ok ss) (err e) p q, h iqn t f)
  host-Since (ok ss) (ok ms) since p q h = λ iqn t f.
      let sound =
        host-Sound ss ms (group sc (mounted ms) ss []) (orphan-host (ok ss) (ok ms) p q)
          (group-IsSound sc (mounted ms) ss) in
      let both =
        sweep_targets-Timers sc grace (is_orphan sc) stands stands-starts
          (group sc (mounted ms) ss []) since sound (λ j u g. ground (arith, h j u g)) iqn t f in
      ground (arith, read-host (ok ss) (ok ms) p q, both)

  host-Due :
      (ss : Result (List IscsiSession)) (ms : Result (List Mount)) (since : Map Text ℕ)
      → sc.sessions ≡ ss
      → sc.mounts ≡ ms
      → Since past since
      → All (Due sc grace (is_orphan sc) stands stands-starts) (sweep_host sc grace ss ms since).1
  unfolding sweep_host sweep_targets
  host-Due (err e) ms since p q h = tt
  host-Due (ok ss) (err e) since p q h = tt
  host-Due (ok ss) (ok ms) since p q h =
      judge_all-Due sc grace (is_orphan sc) stands stands-starts (group sc (mounted ms) ss []) since
        (host-Sound ss ms (group sc (mounted ms) ss []) (orphan-host (ok ss) (ok ms) p q)
          (group-IsSound sc (mounted ms) ss))
        (λ j u g. ground (arith, h j u g))

-- The timers that the sweeps leave say since when each target was an orphan.
timers-Since :
    (grace : ℕ) (past : List Scene) (iqn : Text) (t : ℕ)
    → lookup iqn (timers_after grace past) ≡ some t
    → orphan_since iqn t past ≡ true
unfolding timers_after sweep lookup
timers-Since grace [] iqn t f = ground arith
timers-Since grace (sc ∷ past) iqn t f =
    host-Since grace sc past sc.sessions sc.mounts (timers_after grace past) refl refl
      (timers-Since grace past) iqn t f

-- The target was an orphan in this sweep, in one at least a grace period ago, and in every sweep
-- between that could read the host.
abbrev pub Leaked : ℕ → Scene → List Scene → Text → Type 0
Leaked grace sc past iqn =
    (t : ℕ) × (is_orphan sc iqn ≡ true)
    × (t + grace ≤ sc.now)
    × (orphan_since iqn t (sc ∷ past) ≡ true)

orphan-read :
    (sc : Scene) (iqn : Text) (ss : Result (List IscsiSession)) (ms : Result (List Mount))
    → orphan_in sc iqn ss ms ≡ true
    → readable ss ms ≡ true
orphan-read sc iqn (ok ss) (ok ms) h = refl
orphan-read sc iqn (ok ss) (err e) h = ground arith
orphan-read sc iqn (err e) ms h = ground arith

outcome-Leaked :
    (grace : ℕ) (sc : Scene) (past : List Scene) (out : List (Text × Text))
    → All (Due sc grace (is_orphan sc) (stands grace sc past) (stands-starts grace sc past)) out
    → All (λ o. Leaked grace sc past o.1) out
outcome-Leaked grace sc past [] h = tt
outcome-Leaked grace sc past (o ∷ out) h =
    let (t, dead, late, was) = h.0 in
    let r = orphan-read sc o.1 sc.sessions sc.mounts dead in
    ((t, dead, late, ground arith), outcome-Leaked grace sc past out h.1)

-- Every target that a sweep logs out is one that it sees as an orphan (sessions of ours, none of
-- them staged in this process or backing a mount), that an earlier or this sweep saw as an orphan at
-- least a grace period before, and that every sweep since then that could read the host saw so.
pub sweep-Leaked :
    (grace : ℕ) (sc : Scene) (past : List Scene)
    → All (λ o. Leaked grace sc past o.1) (sweep sc grace (timers_after grace past)).1
unfolding sweep
sweep-Leaked grace sc past = outcome-Leaked grace sc past _ (
    host-Due grace sc past sc.sessions sc.mounts (timers_after grace past) refl refl
      (timers-Since grace past))
