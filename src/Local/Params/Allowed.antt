-- ===== src/Local/Params/Allowed.antt =====
-- internal/driver/local/params.go: what `resolveParams` accepts, and how it refuses.
use mathlib.Core.List.{Memᴰ}
use mathlib.Core.List.Memᴰ.{head, tail}
use nomad_csi_driver.Base.{
  ◌⊎◌, sym, arith, Bool-cases, inl, inr, ℤ, Text, Bool, true, false, ◌≡◌, refl, List, [], ◌∷◌,
  Option, none, some, codes, contains, nat_eq, text_eq, ◌==◌,
}
use nomad_csi_driver.Base.Classes.{text_beq_iff}
use nomad_csi_driver.Base.Map.{Map}
use nomad_csi_driver.Driver.Errors.{Code, coded, Result, ok, err, bind}
use nomad_csi_driver.Driver.Types.{AccessType, VolumeCapability}
use nomad_csi_driver.Local.Size.{parse_size_bytes}
use nomad_csi_driver.Local.Params.{
  PoolConfig, LocalConfig, VolumeParams, find_pool, pool_by_name, is_fs, checked_fs, wanted_fs,
  fs_by_type, resolve_access, sized_block, resolve_volblocksize, known_pool, checked_pool,
  resolve_local_pool, resolve_params,
}

-- A result with the property `P`, or InvalidArgument.
abbrev pub Grants : {A : Type 0} → (A → Type 0) → Result A → Type 0
Grants P (ok a) = P a
Grants P (err e) = e ≡ coded Code.invalid_argument

bind-Grants :
    {A B : Type 0} (P : A → Type 0) (Q : B → Type 0) (r : Result A) (f : A → Result B)
    → Grants P r
    → ((a : A) → P a → Grants Q (f a))
    → Grants Q (bind r f)
bind-Grants P Q (ok a) f g h = h a g
bind-Grants P Q (err e) f g h = g

-- A raw block device without a filesystem, or a filesystem that is supported.
abbrev pub IsAccess : Bool × Text → Type 0
IsAccess (true, fs) = fs ≡ []
IsAccess (false, fs) = (fs ≡ codes "ext4") ⊎ (fs ≡ codes "xfs")

-- A configured pool by its bare name.
pub record IsPool (cfg : LocalConfig) (name : Text) : Type 0 where
  pub bare : contains name b'/' ≡ false
  pub config : PoolConfig
  pub listed : Memᴰ config cfg.pools
  pub named : config.name ≡ name

pub record Allowed (cfg : LocalConfig) (vp : VolumeParams) : Type 0 where
  pub access : IsAccess (vp.block, vp.fs_type)
  pub bytes : ℤ
  pub reads : parse_size_bytes vp.volblocksize ≡ ok bytes
  pub pool : IsPool cfg vp.pool

-- What the search of the allowlist finds is an entry of it, by that name.
found :
    (name : Text) (ps : List PoolConfig) (c : PoolConfig)
    → find_pool name ps ≡ some c
    → Memᴰ c ps × (c.name ≡ name)
unfolding find_pool
found name [] c e = absurd (ground arith)
found name (p ∷ ps) c e = elim (Bool-cases (p.name == name)) [
  | inl same ↦
      (let here : p ≡ c = ground arith in
        (head (sym here), rw (sym here) ((text_beq_iff p.name name).0 same)))
  | inr other ↦
      (let rest : find_pool name ps ≡ some c = ground arith in
        let (m, n) = found name ps c rest in (tail m, n))
]

checked_fs-Grants : (fs : Text) → Grants IsAccess (checked_fs fs)
unfolding checked_fs is_fs
checked_fs-Grants fs = elim (Bool-cases (fs == codes "ext4")) [
  | inl a ↦ rw a (inl ((text_beq_iff fs (codes "ext4")).0 a))
  | inr a ↦ elim (Bool-cases (fs == codes "xfs")) [
    | inl b ↦ rw (a, b) (inr ((text_beq_iff fs (codes "xfs")).0 b))
    | inr b ↦ rw (a, b) refl
  ]
]

fs_by_type-Grants :
    (p : Map Text Text) (t : AccessType) (fs : Text) → Grants IsAccess (fs_by_type p t fs)
unfolding fs_by_type
fs_by_type-Grants p AccessType.block fs = refl
fs_by_type-Grants p AccessType.mount fs = checked_fs-Grants (wanted_fs p fs)

resolve_access-Grants :
    (p : Map Text Text) (caps : List VolumeCapability) → Grants IsAccess (resolve_access p caps)
unfolding resolve_access
resolve_access-Grants p [] = fs_by_type-Grants p AccessType.mount []
resolve_access-Grants p (c ∷ cs) = fs_by_type-Grants p c.access_type c.fs_type

-- A size with a unit, that is read.
abbrev Parses : Text → Type 0
Parses v = (n : ℤ) × (parse_size_bytes v ≡ ok n)

sized_block-Grants :
    (v : Text) (r : Result ℤ) → parse_size_bytes v ≡ r → Grants Parses (sized_block v r)
unfolding sized_block
sized_block-Grants v (ok n) e = (n, e)
sized_block-Grants v (err x) e = refl

resolve_volblocksize-Grants :
    (cfg : LocalConfig) (p : Map Text Text) → Grants Parses (resolve_volblocksize cfg p)
unfolding resolve_volblocksize
resolve_volblocksize-Grants cfg p = sized_block-Grants _ _ refl

known_pool-Grants :
    (cfg : LocalConfig) (v : Text) (o : Option PoolConfig)
    → contains v b'/' ≡ false
    → pool_by_name cfg v ≡ o
    → Grants (IsPool cfg) (known_pool v o)
unfolding known_pool pool_by_name
known_pool-Grants cfg v none b e = refl
known_pool-Grants cfg v (some c) b e =
    let (m, n) = found v cfg.pools c e in record { bare = b; config = c; listed = m; named = n }

checked_pool-Grants : (cfg : LocalConfig) (v : Text) → Grants (IsPool cfg) (checked_pool cfg v)
unfolding checked_pool
checked_pool-Grants cfg v = elim (Bool-cases (contains v b'/')) [
  | inl e ↦ rw e refl
  | inr e ↦ rw e (known_pool-Grants cfg v (pool_by_name cfg v) e refl)
]

-- `resolveParams`, for every configuration, parameters and capabilities, either refuses with
-- InvalidArgument, or answers settings with a raw block device or one of ext4 and xfs, with a
-- volblocksize that parseSizeBytes reads, and with a pool of the allowlist whose name has no slash.
pub resolve_params-Allowed :
    (cfg : LocalConfig) (p : Map Text Text) (caps : List VolumeCapability)
    → Grants (Allowed cfg) (resolve_params cfg p caps)
unfolding resolve_params resolve_local_pool
resolve_params-Allowed cfg p caps =
    bind-Grants IsAccess (Allowed cfg) (resolve_access p caps) _ (resolve_access-Grants p caps)
      λ access a.
        bind-Grants Parses (Allowed cfg) (resolve_volblocksize cfg p) _
          (resolve_volblocksize-Grants cfg p)
          λ size sz.
            bind-Grants (IsPool cfg) (Allowed cfg) (resolve_local_pool cfg p) _
              (checked_pool-Grants cfg _)
              λ pool q. record { access = a; bytes = sz.0; reads = sz.1; pool = q }
