-- ===== src/Local/Backend/Pools.antt =====
-- internal/driver/local/backend.go: what validatePools grants.
use nomad_csi_driver.Base.{
  All-map, All-both, Text, true, false, ◌≡◌, ◌≢◌, refl, List, [], ◌∷◌, All, some, contains, nat_eq,
  text_eq, ◌==◌, arith, Bool-cases, inl, inr,
}
use nomad_csi_driver.Base.Map.{Map, has, lookup, insert, has-insert}
use nomad_csi_driver.Driver.Errors.{Code, coded, Result, ok, err, bind}
use nomad_csi_driver.Local.ExternalId.{slash}
use nomad_csi_driver.Local.Params.{LocalConfig, PoolConfig, find_pool, pool_by_name}
use nomad_csi_driver.Local.Backend.{scan_pools, default_among, validate_pools}

-- A pool of the configuration: its name is bare, and a lookup by its name finds it and no other.
abbrev pub IsFound : List PoolConfig → PoolConfig → Type 0
IsFound ps p = (p.name ≢ []) × (contains p.name slash ≡ false) × (find_pool p.name ps ≡ some p)

-- The scan went past the pool: it is found, and its name was not there before.
record Scanned (ps : List PoolConfig) (seen : Map Text (Unit {0})) : Type 0 where
  found : All (IsFound ps) ps
  fresh : All (λ p. has p.name seen ≡ false) ps

behind :
    (p q : PoolConfig) (ps : List PoolConfig) (seen : Map Text (Unit {0}))
    → IsFound ps q × (has q.name (insert p.name tt seen) ≡ false)
    → IsFound (p ∷ ps) q
unfolding find_pool
behind p q ps seen h = (
  h.0.0,
  h.0.1,
  ground (arith, h.0.2, has-insert p.name q.name tt seen, text_eq.beq_iff p.name q.name),
)

before_it :
    (p q : PoolConfig) (seen : Map Text (Unit {0}))
    → has q.name (insert p.name tt seen) ≡ false
    → has q.name seen ≡ false
before_it p q seen h = ground (arith, has-insert p.name q.name tt seen)

scan-Scanned :
    (ps : List PoolConfig) (seen m : Map Text (Unit {0}))
    → scan_pools ps seen ≡ ok m
    → Scanned ps seen
unfolding scan_pools find_pool
scan-Scanned [] seen m e = record { found = tt; fresh = tt }
scan-Scanned (p ∷ ps) seen m e =
    let rest = scan-Scanned ps (insert p.name tt seen) m (ground arith) in
    record {
      found = (
        (
          ground (arith, text_eq.beq_iff p.name []),
          ground arith,
          ground (arith, text_eq.beq_iff p.name p.name),
        ),
        All-map _ _ ps (λ q. behind p q ps seen) (All-both _ _ ps rest.found rest.fresh),
      );
      fresh = (ground arith, All-map _ _ ps (λ q. before_it p q seen) rest.fresh);
    }

-- The names that the scan gives are those of pools, or were there before.
scan_names :
    (name : Text) (ps : List PoolConfig) (seen m : Map Text (Unit {0}))
    → scan_pools ps seen ≡ ok m
    → has name m ≡ true
    → has name seen ≡ false
    → (p : PoolConfig) × (find_pool name ps ≡ some p)
unfolding scan_pools find_pool
scan_names name [] seen m e h fresh = absurd (ground arith)
scan_names name (p ∷ ps) seen m e h fresh = elim (Bool-cases (p.name == name)) [
  | inl same ↦ (p, rw same refl)
  | inr other ↦
      (let (q, found) =
          scan_names name ps (insert p.name tt seen) m (ground arith) h
            (ground (arith, has-insert p.name name tt seen)) in
        (q, rw other found))
]

-- If validatePools accepts a configuration, then every pool of it has a bare name, and the lookup by
-- that name finds the pool and no other; and the default pool is one of them.
pub validate_pools-IsFound :
    (cfg : LocalConfig)
    → validate_pools cfg ≡ ok tt
    → All (IsFound cfg.pools) cfg.pools
      × ((p : PoolConfig) × (pool_by_name cfg cfg.default_pool ≡ some p))
unfolding validate_pools default_among pool_by_name has lookup
validate_pools-IsFound cfg e = accepted cfg.pools e
  where
    defaulted :
        (ps : List PoolConfig) (r : Result (Map Text (Unit {0})))
        → scan_pools ps [] ≡ r
        → bind r (default_among cfg.default_pool) ≡ ok tt
        → All (IsFound ps) ps × ((p : PoolConfig) × (find_pool cfg.default_pool ps ≡ some p))
    defaulted ps (err x) q e = absurd (ground arith)
    defaulted ps (ok m) q e =
        ((scan-Scanned ps [] m q).found, scan_names cfg.default_pool ps [] m q (ground arith) refl)

    accepted :
        (ps : List PoolConfig)
        → (elim ps [
          | [] ↦ err (coded Code.invalid_argument)
          | p ∷ qs ↦ bind (scan_pools (p ∷ qs) []) (default_among cfg.default_pool)
        ])
          ≡ ok tt
        → All (IsFound ps) ps × ((p : PoolConfig) × (find_pool cfg.default_pool ps ≡ some p))
    accepted [] e = absurd (ground arith)
    accepted (p ∷ qs) e = defaulted (p ∷ qs) _ refl e
