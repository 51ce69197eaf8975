-- ===== src/Qnap/Params.antt =====
-- internal/driver/qnap/params.go: the settings of a volume, its size and the name of its LUN.
pub mod Size
pub mod Names
use nomad_csi_driver.Base.{
  ℕ, zero, suc, ◌*◌, ◌/◌, ◌%◌, ◌^◌, ℤ, pos, negsuc, Text, Bool, true, false, not, ◌&&◌, ◌||◌, List,
  [], ◌∷◌, Option, none, some, codes, take, leb, ltb, eqb, ◌==◌, String, text_eq, int_eq,
  if◌then◌else◌,
}
use nomad_csi_driver.Base.Int.{◌-ℤ◌, ltb_ℤ, leb_ℤ}
use nomad_csi_driver.Base.Map.{Map, lookup}
use nomad_csi_driver.Driver.Errors.{Code, coded, Result, ok, err, bind}
use nomad_csi_driver.Driver.Types.{AccessType, VolumeCapability, CapacityRange}
use nomad_csi_driver.Go.Strconv.{atoi}
use nomad_csi_driver.Go.Runes.{map_runes}

abbrev pub gib : ℕ
gib = 2 ^ 30

unfoldable pub abs_diff : ℤ → ℤ → ℤ
abs_diff a b = if ltb_ℤ b a then a -ℤ b else b -ℤ a

-- What `config.QNAPConfig` gives to the controller.
pub record QnapConfig : Type 0 where
  pub default_pool_id : ℤ
  pub default_sector_size : ℤ
  pub interfaces : List ℤ
  pub portal_list : List Text

pub record VolumeParams : Type 0 where
  pub fs_type : Text
  pub block : Bool
  pub sector_size : ℤ
  pub pool_id : ℤ
  pub thin : Bool
  pub target_index : Option ℤ

-- m[k], the zero value where there is no entry.
abbrev pub get_or_empty : Text → Map Text Text → Text
get_or_empty k m = elim (lookup k m) [ none ↦ [] | some v ↦ v ]

-- `if v := p[key]; v != "" { … }`: the value, else what was there before.
abbrev pub or_else : Text → Text → Text
or_else v d = if v == [] then d else v

abbrev pub invalid {ℓ} : {A : Type ℓ} → Result A
invalid = err (coded Code.invalid_argument)

abbrev fs_of_caps : List VolumeCapability → Text
fs_of_caps [] = []
fs_of_caps (c ∷ _) = c.fs_type

unfoldable pub is_block : List VolumeCapability → Bool
is_block [] = false
is_block (c ∷ _) = elim c.access_type [ AccessType.block ↦ true | AccessType.mount ↦ false ]

-- The access type, and the filesystem of a mount.
unfoldable pub resolve_fs : Map Text Text → List VolumeCapability → Result (Bool × Text)
unfolding is_block
resolve_fs p caps =
    let fs = or_else (get_or_empty (codes "fsType") p) (or_else (fs_of_caps caps) (codes "ext4")) in
    if is_block caps
    then ok (true, [])
    else if fs == codes "ext4" || fs == codes "xfs"
    then ok (false, fs)
    else invalid

abbrev number_or : Text → ℤ → Result ℤ
number_or v d = if v == [] then ok d else elim (atoi v) [ none ↦ invalid | some n ↦ ok n ]

unfoldable pub resolve_sector : QnapConfig → Map Text Text → Result ℤ
resolve_sector cfg p =
    elim (number_or (get_or_empty (codes "sectorSize") p)
      (if cfg.default_sector_size == pos 0 then pos 512 else cfg.default_sector_size)) [
        | err e ↦ err e
        | ok n ↦ if n == pos 512 || n == pos 4096 then ok n else invalid
      ]

unfoldable pub resolve_pool : QnapConfig → Map Text Text → Result ℤ
resolve_pool cfg p = elim (number_or (get_or_empty (codes "pool") p) cfg.default_pool_id) [
  | err e ↦ err e
  | ok n ↦ if leb_ℤ n (pos 0) then invalid else ok n
]

one_of : Text → List String → Bool
one_of v [] = false
one_of v (s ∷ ss) = v == codes s || one_of v ss

-- strconv.ParseBool
unfoldable pub parse_bool : Text → Option Bool
unfolding one_of
parse_bool v =
    if one_of v ("1" ∷ "t" ∷ "T" ∷ "TRUE" ∷ "true" ∷ "True" ∷ [])
    then some true
    else if one_of v ("0" ∷ "f" ∷ "F" ∷ "FALSE" ∷ "false" ∷ "False" ∷ [])
    then some false
    else none

unfoldable pub resolve_thin : Map Text Text → Result Bool
resolve_thin p =
    let v = get_or_empty (codes "thin") p in
    if v == [] then ok true else elim (parse_bool v) [ none ↦ invalid | some b ↦ ok b ]

unfoldable pub resolve_params :
    QnapConfig → Map Text Text → List VolumeCapability → Result VolumeParams
resolve_params cfg p caps = bind (resolve_fs p caps) λ access. bind (resolve_sector cfg p) λ sector.
    bind (resolve_pool cfg p) λ pool. bind (resolve_thin p) λ thin.
      if get_or_empty (codes "targetIndex") p == []
      then ok (record {
        fs_type = access.1;
        block = access.0;
        sector_size = sector;
        pool_id = pool;
        thin = thin;
        target_index = none;
      })
      else invalid

-- The tests on a positive size of `n` bytes.
size_of_bytes : ℕ → ℤ → Result ℕ
size_of_bytes n limit =
    if not (eqb (n % gib) 0)
    then invalid
    else if ltb_ℤ (pos 0) limit && ltb_ℤ limit (pos n)
    then err (coded Code.out_of_range)
    else ok (n / gib)

abbrev positive_size : ℤ → ℤ → Result ℕ
positive_size (pos zero) limit = invalid
positive_size (negsuc n) limit = invalid
positive_size (pos (suc n)) limit = size_of_bytes (suc n) limit

unfoldable pub size_gib_exact : CapacityRange → Result ℕ
unfolding size_of_bytes
size_gib_exact cr = positive_size cr.required_bytes cr.limit_bytes

-- The runes that a LUN name keeps.
unfoldable pub is_lun_char : ℕ → Bool
is_lun_char r =
    (leb b'A' r && leb r b'Z')
    || (leb b'a' r && leb r b'z')
    || (leb b'0' r && leb r b'9')
    || eqb r b'_'
    || eqb r b'-'

unfoldable pub sanitize_lun_name : Text → Text
unfolding is_lun_char
sanitize_lun_name name = take 64 (map_runes is_lun_char b'-' name)
