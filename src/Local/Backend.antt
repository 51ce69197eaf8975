-- ===== src/Local/Backend.antt =====
-- internal/driver/local/backend.go: the check of the configured pools, and the probe.
pub mod Pools
use nomad_csi_driver.Base.{
  ℕ, suc, zero, Text, Bool, true, false, ◌&&◌, ◌||◌, List, [], ◌∷◌, contains, nat_eq, text_eq, ◌==◌,
  if◌then◌else◌,
}
use nomad_csi_driver.Base.Map.{Map, has, insert}
use nomad_csi_driver.Driver.Errors.{
  Code, Error, coded, Result, ok, err, bind, Io, pure, fail, lift, attempt, ◌>>=◌,
}
use nomad_csi_driver.Driver.Types.{Capabilities}
use nomad_csi_driver.Host.Mounts.{Host, History}
use nomad_csi_driver.Host.Zfs.{pool_status}
use nomad_csi_driver.Local.ExternalId.{slash}
use nomad_csi_driver.Local.Params.{LocalConfig, PoolConfig}

abbrev pub refused : {A : Type 0} → Result A
refused = err (coded Code.invalid_argument)

-- The names so far, or an error.
unfoldable pub scan_pools : List PoolConfig → Map Text (Unit {0}) → Result (Map Text (Unit {0}))
scan_pools [] seen = ok seen
scan_pools (p ∷ ps) seen =
    let rest = scan_pools ps (insert p.name tt seen) in
    if p.name == [] || contains p.name slash
    then refused
    else if has p.name seen
    then refused
    else rest

default_among : Text → Map Text (Unit {0}) → Result (Unit {0})
default_among name seen = if name == [] then refused else if has name seen then ok tt else refused

unfoldable pub validate_pools : LocalConfig → Result (Unit {0})
unfolding scan_pools default_among
validate_pools cfg = elim cfg.pools [
  | [] ↦ refused
  | p ∷ ps ↦ bind (scan_pools (p ∷ ps) []) (default_among cfg.default_pool)
]

-- What the backend advertises.
abbrev pub capabilities : Capabilities
capabilities = record {
  create_delete = true;
  publish_unpublish = false;
  expand = true;
  snapshot = true;
  clone = true;
  get_capacity = true;
  list_volumes = true;
  list_snapshots = true;
  node_stage = true;
  node_expand = true;
  node_volume_stats = true;
  expand_online = true;
  topology = true;
}

unavailable_if_failed : {A : Type 0} → Result A → Result A
unavailable_if_failed (ok a) = ok a
unavailable_if_failed (err e) = err (coded Code.unavailable)

unfoldable pub count_usable : Host → List PoolConfig → Io History ℕ
unfolding unavailable_if_failed
count_usable host [] = pure 0
count_usable host (p ∷ ps) = do
  r ← attempt (pool_status host p.name)
  st ← lift (unavailable_if_failed r)
  rest ← count_usable host ps
  pure (if st.0 && st.1 then suc rest else rest)

none_usable : ℕ → Io History (Unit {0})
none_usable zero = fail (coded Code.failed_precondition)
none_usable (suc k) = pure tt

unfoldable pub probe : Host → LocalConfig → Io History (Unit {0})
unfolding count_usable none_usable
probe host cfg = do usable ← count_usable host cfg.pools; none_usable usable
