-- ===== src/Local/ExternalId.antt =====
-- internal/driver/local/externalid.go: the volume and snapshot ids of the wire, with a dataset that
-- keeps its own slashes.
pub mod RoundTrip
pub mod Names
use nomad_csi_driver.Base.{
  ℕ, Text, Bool, true, false, not, ◌&&◌, ◌||◌, List, [], ◌∷◌, ◌++◌, Option, none, some, codes, eqb,
  leb, take, contains, nat_eq, text_eq, ◌==◌, if◌then◌else◌,
}
use nomad_csi_driver.Go.Runes.{map_runes}
use nomad_csi_driver.Go.Strings.{split_n}
use nomad_csi_driver.Driver.Errors.{Code, coded, Result, ok, err}

abbrev pub slash : ℕ
slash = b'/'

pub record ExternalId : Type 0 where
  pub node : Text
  pub dataset : Text

pub record SnapshotId : Type 0 where
  pub node : Text
  pub dataset : Text
  pub snap_name : Text

-- `strings.HasPrefix`, `HasSuffix` and `Contains`, of one byte and of two.
unfoldable pub starts_with : ℕ → Text → Bool
starts_with c [] = false
starts_with c (x ∷ s) = eqb x c

unfoldable pub ends_with : ℕ → Text → Bool
ends_with c [] = false
ends_with c (x ∷ []) = eqb x c
ends_with c (x ∷ y ∷ s) = ends_with c (y ∷ s)

unfoldable pub has_twice : ℕ → Text → Bool
has_twice c [] = false
has_twice c (x ∷ []) = false
has_twice c (x ∷ y ∷ s) = (eqb x c && eqb y c) || has_twice c (y ∷ s)

unfoldable pub valid_dataset : Text → Bool
unfolding starts_with ends_with has_twice
valid_dataset ds =
    contains ds slash
    && not (starts_with slash ds || ends_with slash ds || has_twice slash ds || has_twice b'.' ds)

unfoldable pub print_id : ExternalId → Text
print_id e = codes "local" ++ slash ∷ (codes "v1" ++ slash ∷ (e.node ++ slash ∷ e.dataset))

unfoldable pub id_of_parts : List Text → Result ExternalId
unfolding valid_dataset
id_of_parts (a ∷ v ∷ node ∷ ds ∷ []) =
    if a == codes "local" && v == codes "v1" && not (node == []) && valid_dataset ds
    then ok (record { node = node; dataset = ds })
    else err (coded Code.invalid_argument)
id_of_parts _ = err (coded Code.invalid_argument)

unfoldable pub parse_id : Text → Result ExternalId
unfolding id_of_parts
parse_id id = id_of_parts (split_n slash 3 id)

unfoldable pub print_snapshot_id : SnapshotId → Text
print_snapshot_id s =
    codes "locals"
    ++ slash ∷ (codes "v1" ++ slash ∷ (s.node ++ slash ∷ (s.dataset ++ slash ∷ s.snap_name)))

after_head : ℕ → ℕ → Text → Option (Text × Text) → Option (Text × Text)
after_head c x s (some (a, b)) = some (x ∷ a, b)
after_head c x s none = if eqb x c then some ([], s) else none

-- What is before and after the last byte of that kind: `LastIndexByte` and two slices.
unfoldable pub cut_last : ℕ → Text → Option (Text × Text)
unfolding after_head
cut_last c [] = none
cut_last c (x ∷ s) = after_head c x s (cut_last c s)

unfoldable pub with_cut : Text → Option (Text × Text) → Result SnapshotId
unfolding valid_dataset
with_cut node none = err (coded Code.invalid_argument)
with_cut node (some (ds, snap)) =
    if not (ds == []) && not (snap == []) && valid_dataset ds
    then ok (record { node = node; dataset = ds; snap_name = snap })
    else err (coded Code.invalid_argument)

unfoldable pub snapshot_of_parts : List Text → Result SnapshotId
unfolding cut_last with_cut
snapshot_of_parts (a ∷ v ∷ node ∷ rest ∷ []) =
    if a == codes "locals" && v == codes "v1" && not (node == []) && not (rest == [])
    then with_cut node (cut_last slash rest)
    else err (coded Code.invalid_argument)
snapshot_of_parts _ = err (coded Code.invalid_argument)

unfoldable pub parse_snapshot_id : Text → Result SnapshotId
unfolding snapshot_of_parts
parse_snapshot_id id = snapshot_of_parts (split_n slash 3 id)

-- `poolOf` and `lastSegment`
unfoldable pub pool_of : Text → Text
pool_of [] = []
pool_of (c ∷ ds) = let rest = pool_of ds in if eqb c slash then [] else c ∷ rest

unfoldable pub last_segment : Text → Text
unfolding cut_last
last_segment ds = elim (cut_last slash ds) [ none ↦ ds | some p ↦ p.1 ]

-- The runes that a name keeps.
unfoldable pub is_name_char : ℕ → Bool
is_name_char r =
    (leb b'A' r && leb r b'Z')
    || (leb b'a' r && leb r b'z')
    || (leb b'0' r && leb r b'9')
    || eqb r b'_'
    || eqb r b'-'
    || eqb r b'.'
    || eqb r b':'

unfoldable pub sanitize_name : Text → Text
unfolding is_name_char
sanitize_name name = take 200 (map_runes is_name_char b'-' name)
