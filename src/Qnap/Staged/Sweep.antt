-- ===== src/Qnap/Staged/Sweep.antt =====
-- internal/driver/qnap/stats_reconcile.go: a sweep evicts no volume that may be staged.
use nomad_csi_driver.Base.{
  All-map, Text, Bool, true, false, ◌≡◌, ◌≢◌, refl, ap, subst, not, List, pos, contains,
  if◌then◌else◌, [], ◌∷◌, All, Option, none, some, arith, text_eq,
}
use nomad_csi_driver.Base.Map.{lookup, insert}
use nomad_csi_driver.Driver.Errors.{Result, ok, err}
use nomad_csi_driver.Qnap.SanCache.{SanCache, resolve_external_id}
use nomad_csi_driver.Qnap.NodeState.{QnapNode}
use nomad_csi_driver.Qnap.Staged.{
  remember, found_or_none, session_key, StagedSession, Memo, resolve_session, wanted, desired,
  sweep,
}
use nomad_csi_driver.Stats.Registry.{Registry, TrackSpec, track_all, reconcile, wants}
use nomad_csi_driver.Stats.Registry.Sweeps.{reconcile-unwanted}

module _ (n : QnapNode) where
  -- The volume of a session: it was remembered, or the appliance was asked and told it, which is
  -- remembered then.
  pub data IsVolumeOf (s : StagedSession) : Text → Memo n → Memo n → Type 0 where
    remembered :
        {id : Text} {memo : Memo n}
        → lookup (session_key s.iqn s.lun) memo.0 ≡ some id
        → IsVolumeOf s id memo memo
    told :
        {id : Text} {memo : Memo n} {san : SanCache}
        → lookup (session_key s.iqn s.lun) memo.0 ≡ none
        → resolve_external_id n.client n.san_ttl s.iqn s.lun memo.1 ≡ (ok (some id), san)
        → IsVolumeOf s id memo (insert (session_key s.iqn s.lun) id memo.0, san)

  -- Every session is of a volume that is known, one after the other, and that is not this one.
  abbrev pub OthersStaged : Text → List StagedSession → Memo n → Type 0
  OthersStaged id [] memo = Unit
  OthersStaged id (s ∷ ss) memo =
      (other : Text) × (after : Memo n) × IsVolumeOf s other memo after
      × (id ≢ [] → other ≢ id)
      × OthersStaged id ss after

  -- What the sweep takes for the volume of a session is.
  resolve_session-IsVolumeOf :
      (s : StagedSession) (memo after : Memo n) (other : Text)
      → resolve_session n s memo ≡ (some other, after)
      → IsVolumeOf s other memo after
  unfolding resolve_session remember found_or_none
  resolve_session-IsVolumeOf s (memo, san) after other e =
      by_memo (lookup (session_key s.iqn s.lun) memo) refl e
    where
      asked :
          (r : Result (Option Text) × SanCache)
          → lookup (session_key s.iqn s.lun) memo ≡ none
          → resolve_external_id n.client n.san_ttl s.iqn s.lun san ≡ r
          → remember n (session_key s.iqn s.lun) (found_or_none n r) memo ≡ (some other, after)
          → IsVolumeOf s other (memo, san) after
      asked (err x, san') new q e = absurd (ground arith)
      asked (ok none, san') new q e = absurd (ground arith)
      asked (ok (some id), san') new q e =
          let same : id ≡ other = ground arith in
          let is : (insert (session_key s.iqn s.lun) id memo, san') ≡ after = ap (λ x. x.1) e in
          subst (IsVolumeOf s other (memo, san)) is (
            subst (λ i. IsVolumeOf s i (memo, san) (insert (session_key s.iqn s.lun) id memo, san'))
              same (IsVolumeOf.told new q))

      by_memo :
          (found : Option Text)
          → lookup (session_key s.iqn s.lun) memo ≡ found
          → (elim found [
            | some id ↦ (some id, (memo, san))
            | none ↦
                remember n
                  (session_key s.iqn s.lun)
                  (found_or_none n (resolve_external_id n.client n.san_ttl s.iqn s.lun san))
                  memo
          ])
            ≡ (some other, after)
          → IsVolumeOf s other (memo, san) after
      by_memo (some id) p e =
          let same : id ≡ other = ground arith in
          let is : (memo, san) ≡ after = ap (λ x. x.1) e in
          subst (IsVolumeOf s other (memo, san)) is
            (IsVolumeOf.remembered (ground (arith, p, same)))
      by_memo none p e = asked _ p refl e

  abbrev specs_of : List StagedSession → Memo n → List TrackSpec
  specs_of ss memo = (desired n ss memo).0.0

  unwanted-OthersStaged :
      (id : Text) (ss : List StagedSession) (memo : Memo n)
      → (desired n ss memo).0.1 ≡ true
      → wants n.stats n.node_id (specs_of ss memo) id ≡ false
      → OthersStaged id ss memo
  unfolding desired wanted contains
  unwanted-OthersStaged id [] memo all u = tt
  unwanted-OthersStaged id (s ∷ ss) memo all u =
      resolved (resolve_session n s memo) refl (unwanted-OthersStaged id ss) all u
    where
      resolved :
          (r : Option Text × Memo n)
          → resolve_session n s memo ≡ r
          → ((m : Memo n)
              → (desired n ss m).0.1 ≡ true
              → wants n.stats n.node_id (specs_of ss m) id ≡ false
              → OthersStaged id ss m)
          → (wanted n s r.0 (desired n ss r.1).0).1 ≡ true
          → wants n.stats n.node_id (wanted n s r.0 (desired n ss r.1).0).0 id ≡ false
          → OthersStaged id (s ∷ ss) memo
      resolved (none, after) p ih all u = absurd (ground arith)
      resolved (some other, after) p ih all u = (
        other,
        after,
        resolve_session-IsVolumeOf s memo after other p,
        λ named same. ground (arith, text_eq.beq_iff id [], text_eq.beq_iff other id),
        ih after all (ground arith),
      )

  -- The second result of a sweep, by whether all sessions were resolved.
  evicted-OthersStaged :
      (ss : List StagedSession) (memo : Memo n) (r : Registry) (all : Bool)
      → (desired n ss memo).0.1 ≡ all
      → All
          (λ id. OthersStaged id ss memo)
          (reconcile n.stats n.node_id (specs_of ss memo) all (pos 2) r).1
  unfolding reconcile
  evicted-OthersStaged ss memo r false e =
      none_evicted (not n.stats.enabled) r (track_all n.stats n.node_id (specs_of ss memo) r)
    where
      none_evicted :
          (b : Bool) (p q : Registry)
          → All
              (λ id. OthersStaged id ss memo)
              (if◌then◌else◌ {A = Registry × List Text} b (p, []) (q, [])).1
      none_evicted true p q = tt
      none_evicted false p q = tt
  evicted-OthersStaged ss memo r true e =
      All-map _ _ _ (λ id u. unwanted-OthersStaged id ss memo e u)
        (reconcile-unwanted n.stats n.node_id (specs_of ss memo) true (pos 2) r)

  -- A sweep on a list of the node's sessions evicts an id, if that is not empty, only if for each
  -- session in turn a volume was remembered, or the appliance was asked and told one, and that is
  -- another volume.
  pub sweep-OthersStaged :
      (ss : List StagedSession) (memo : Memo n) (r : Registry)
      → All (λ id. OthersStaged id ss memo) (sweep n (ok ss) memo r).0.1
  unfolding sweep
  sweep-OthersStaged ss memo r = evicted-OthersStaged ss memo r _ refl
