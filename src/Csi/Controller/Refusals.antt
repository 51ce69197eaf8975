-- ===== src/Csi/Controller/Refusals.antt =====
-- internal/csi/controller.go: what the controller service refuses before it calls the backend.
use nomad_csi_driver.Base.{
  Text, Bool, ◌≡◌, ◌≢◌, ◌⊎◌, refl, arith, true, false, Option, none, some, text_eq, sym, All, List,
  [], ◌∷◌, ◌++◌,
}
use mathlib.Core.Path.{subst}
use mathlib.Core.List.{append-nil}
use nomad_csi_driver.Base.Map.{has}
use nomad_csi_driver.Driver.Errors.{Code, Error, Result, ok, err, coded}
use nomad_csi_driver.Driver.Types.{VolumeCapability, Capabilities}
use nomad_csi_driver.Driver.Backend.{ControllerBackend}
use nomad_csi_driver.Csi.Locks.{acquire}
use nomad_csi_driver.Csi.Conv.{CsiCapability, IsUsable, to_volume_capabilities}
use nomad_csi_driver.Csi.Conv.Accepted.{Accepted, to_volume_capabilities-Accepted}
use nomad_csi_driver.Csi.Messages.{
  Rpc, RpcType, Reply, CsiCreateVolume, create_volume, delete_volume, publish_volume,
  unpublish_volume, validate_capabilities, get_capacity, create_snapshot, delete_snapshot,
  expand_volume, list_volumes, list_snapshots,
}
use nomad_csi_driver.Csi.Serving.{Server, locked, when}
use nomad_csi_driver.Csi.Controller.{dispatch, create_body, controller_capabilities}

-- The capability that a request belongs to; validation belongs to none.
abbrev pub needs : Rpc → Option RpcType
needs (create_volume r) = some RpcType.create_delete_volume
needs (delete_volume id x) = some RpcType.create_delete_volume
needs (publish_volume id n c ro x y) = some RpcType.publish_unpublish_volume
needs (unpublish_volume id n x) = some RpcType.publish_unpublish_volume
needs (validate_capabilities id cs) = none
needs (get_capacity t p) = some RpcType.get_capacity
needs (create_snapshot a b x y) = some RpcType.create_delete_snapshot
needs (delete_snapshot id x) = some RpcType.create_delete_snapshot
needs (expand_volume id r x) = some RpcType.expand_volume
needs list_volumes = some RpcType.list_volumes
needs (list_snapshots a b) = some RpcType.list_snapshots

-- The key that a handler works under: the name for a create, else the volume or snapshot id.
abbrev pub key_of : Rpc → Option Text
key_of (create_volume r) = some r.name
key_of (delete_volume id x) = some id
key_of (publish_volume id n c ro x y) = some id
key_of (unpublish_volume id n x) = some id
key_of (create_snapshot a b x y) = some b
key_of (delete_snapshot id x) = some id
key_of (expand_volume id r x) = some id
key_of _ = none

abbrev pub IsRefusal : Result Reply → Type 0
IsRefusal r =
    (r ≡ err (coded Code.aborted))
    ⊎ (r ≡ err (coded Code.unimplemented))
    ⊎ (r ≡ err (coded Code.invalid_argument))

abbrev supports : Capabilities → RpcType → Bool
supports c RpcType.create_delete_volume = c.create_delete
supports c RpcType.publish_unpublish_volume = c.publish_unpublish
supports c RpcType.expand_volume = c.expand
supports c RpcType.create_delete_snapshot = c.snapshot
supports c RpcType.clone_volume = c.clone
supports c RpcType.get_capacity = c.get_capacity
supports c RpcType.list_volumes = c.list_volumes
supports c RpcType.list_snapshots = c.list_snapshots

-- Past the first entries of the list.
All-right {ℓ κ} : {A : Type ℓ} (P : A → Type κ) (xs ys : List A) → All P (xs ++ ys) → All P ys
All-right P [] ys h = h
All-right P (x ∷ xs) ys h = All-right P xs ys h.1

module _ (t : RpcType) where
  absent : (b : Bool) (ys : List RpcType) → All (λ u. u ≢ t) (when b t ++ ys) → b ≡ false
  absent true ys h = absurd (h.0 refl)
  absent false ys h = refl

  skip :
      (b : Bool) (u : RpcType) (ys : List RpcType)
      → All (λ v. v ≢ t) (when b u ++ ys)
      → All (λ v. v ≢ t) ys
  skip b u ys = All-right _ (when b u) ys

unsupported :
    (c : Capabilities) (t : RpcType)
    → All (λ u. u ≢ t) (controller_capabilities c)
    → supports c t ≡ false
unfolding controller_capabilities
unsupported c RpcType.create_delete_volume h = absent _ c.create_delete _ h
unsupported c RpcType.publish_unpublish_volume h =
    absent _ c.publish_unpublish _ (skip _ c.create_delete RpcType.create_delete_volume _ h)
unsupported c RpcType.expand_volume h = absent _ c.expand _ (
    skip _ c.publish_unpublish RpcType.publish_unpublish_volume _
      (skip _ c.create_delete RpcType.create_delete_volume _ h))
unsupported c RpcType.create_delete_snapshot h = absent _ c.snapshot _ (
    skip _ c.expand RpcType.expand_volume _ (
      skip _ c.publish_unpublish RpcType.publish_unpublish_volume _
        (skip _ c.create_delete RpcType.create_delete_volume _ h)))
unsupported c RpcType.clone_volume h = absent _ c.clone _ (
    skip _ c.snapshot RpcType.create_delete_snapshot _ (
      skip _ c.expand RpcType.expand_volume _ (
        skip _ c.publish_unpublish RpcType.publish_unpublish_volume _
          (skip _ c.create_delete RpcType.create_delete_volume _ h))))
unsupported c RpcType.get_capacity h = absent _ c.get_capacity _ (
    skip _ c.clone RpcType.clone_volume _ (
      skip _ c.snapshot RpcType.create_delete_snapshot _ (
        skip _ c.expand RpcType.expand_volume _ (
          skip _ c.publish_unpublish RpcType.publish_unpublish_volume _
            (skip _ c.create_delete RpcType.create_delete_volume _ h)))))
unsupported c RpcType.list_volumes h = absent _ c.list_volumes _ (
    skip _ c.get_capacity RpcType.get_capacity _ (
      skip _ c.clone RpcType.clone_volume _ (
        skip _ c.snapshot RpcType.create_delete_snapshot _ (
          skip _ c.expand RpcType.expand_volume _ (
            skip _ c.publish_unpublish RpcType.publish_unpublish_volume _
              (skip _ c.create_delete RpcType.create_delete_volume _ h))))))
unsupported c RpcType.list_snapshots h = absent _ c.list_snapshots [] (
    subst (All _) (sym (append-nil _)) (
      skip _ c.list_volumes RpcType.list_volumes _ (
        skip _ c.get_capacity RpcType.get_capacity _ (
          skip _ c.clone RpcType.clone_volume _ (
            skip _ c.snapshot RpcType.create_delete_snapshot _ (
              skip _ c.expand RpcType.expand_volume _ (
                skip _ c.publish_unpublish RpcType.publish_unpublish_volume _
                  (skip _ c.create_delete RpcType.create_delete_volume _ h))))))))

unusable :
    (cs : List (Option CsiCapability))
    → ¬ (All IsUsable cs)
    → (e : Error) × (to_volume_capabilities cs ≡ err e)
unusable [] h = absurd (h tt)
unusable (c ∷ cs) h = refused _ (to_volume_capabilities-Accepted c cs) refl
  where
    refused :
        (r : Result (List VolumeCapability))
        → Accepted (c ∷ cs) r
        → to_volume_capabilities (c ∷ cs) ≡ r
        → (e : Error) × (to_volume_capabilities (c ∷ cs) ≡ err e)
    refused (ok vs) a p = absurd (h a.0)
    refused (err e) a p = (e, p)

module _ {S : Type 0} (backend : ControllerBackend S) (caps : Capabilities) where
  -- While another handler works under the key of a request, the request is refused, with Aborted or
  -- with the error of a check that comes before the lock, and neither the locks nor the backend
  -- change.
  pub dispatch_busy :
      (r : Rpc) (key : Text) (s : Server S)
      → key_of r ≡ some key
      → has key s.locks.held ≡ true
      → IsRefusal (dispatch backend caps r s).0 × ((dispatch backend caps r s).1 ≡ s)
  unfolding dispatch locked acquire
  dispatch_busy (create_volume r) key s e busy = ground arith
  dispatch_busy _ key s e busy = ground arith

  -- A request of a capability that the service does not advertise is answered with Unimplemented,
  -- and neither the locks nor the backend change.
  pub dispatch_unadvertised :
      (r : Rpc) (t : RpcType) (s : Server S)
      → needs r ≡ some t
      → All (λ u. u ≢ t) (controller_capabilities caps)
      → dispatch backend caps r s ≡ (err (coded Code.unimplemented), s)
  unfolding dispatch
  dispatch_unadvertised list_volumes t s e h = ground (arith, unsupported caps t h)
  dispatch_unadvertised _ t s e h = ground (arith, unsupported caps t h)

  -- A create that asks for a capability with a multi-node or unknown mode, or with no access type,
  -- fails, and the backend does not change.
  pub create_multi_node :
      (r : CsiCreateVolume) (s : Server S)
      → ¬ (All IsUsable r.volume_capabilities)
      → ((x : Reply) → (dispatch backend caps (create_volume r) s).0 ≢ ok x)
        × ((dispatch backend caps (create_volume r) s).1.state ≡ s.state)
  unfolding dispatch locked acquire create_body
  create_multi_node r s h =
      let (e, failed) = unusable r.volume_capabilities h in (λ x. ground arith, ground arith)
