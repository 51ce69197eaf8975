-- ===== src/Host/MountTable.antt =====
-- internal/mountutil/mountutil.go: ListMounts, with the parser of `findmnt -rn`.
use nomad_csi_driver.Base.{
  ℕ, pos, int_eq, ◌+◌, ◌-◌, ◌*◌, Text, Bool, false, ◌&&◌, ◌||◌, List, [], ◌∷◌, Option, none, some,
  codes, eqb, leb, text_eq, ◌==◌, if◌then◌else◌,
}
use nomad_csi_driver.Go.Strings.{split, split_n}
use nomad_csi_driver.Go.Trim.{trim_space}
use nomad_csi_driver.Driver.Errors.{exit, Result, ok, err, Io, lift, attempt, ◌>>=◌}
use nomad_csi_driver.Host.Mounts.{Host, History, run, call}

pub record Mount : Type 0 where
  pub target : Text
  pub source : Text

-- A digit of base 16, as `strconv.ParseUint` reads it.
abbrev pub hex_digit : ℕ → Option ℕ
hex_digit c =
    if leb b'0' c && leb c b'9'
    then some (c - b'0')
    else if leb b'a' c && leb c b'f'
    then some (c - b'a' + 10)
    else if leb b'A' c && leb c b'F'
    then some (c - b'A' + 10)
    else none

abbrev pub hex_byte : ℕ → ℕ → Option ℕ
hex_byte a b = elim (hex_digit a) [
  | none ↦ none
  | some m ↦ elim (hex_digit b) [ none ↦ none | some n ↦ some (m * 16 + n) ]
]

has_escape : Text → Bool
has_escape [] = false
has_escape (a ∷ []) = false
has_escape (a ∷ b ∷ s) = let rest = has_escape (b ∷ s) in eqb a 92 && eqb b b'x' || rest

escaped : ℕ → Text → Text → Option ℕ → Text
escaped a long short none = a ∷ short
escaped a long short (some v) = v ∷ long

-- The loop of `unescapeRaw`: 92 is the backslash.
unfoldable pub unescape : Text → Text
unfolding escaped
unescape (a ∷ x ∷ h ∷ l ∷ s) =
    let long = unescape s in
    let short = unescape (x ∷ h ∷ l ∷ s) in
    escaped a long short (if eqb a 92 && eqb x b'x' then hex_byte h l else none)
unescape (a ∷ b ∷ c ∷ []) = a ∷ b ∷ c ∷ []
unescape (a ∷ b ∷ []) = a ∷ b ∷ []
unescape (a ∷ []) = a ∷ []
unescape [] = []

unfoldable pub unescape_raw : Text → Text
unfolding has_escape unescape
unescape_raw s = if has_escape s then unescape s else s

mount_of : List Text → Mount
unfolding unescape_raw
mount_of (t ∷ s ∷ rest) = record { target = unescape_raw t; source = unescape_raw (trim_space s) }
mount_of (t ∷ []) = record { target = unescape_raw t; source = [] }
mount_of [] = record { target = []; source = [] }

parse_lines : List Text → List Mount
unfolding mount_of
parse_lines [] = []
parse_lines (l ∷ ls) =
    let rest = parse_lines ls in
    let line = trim_space l in if line == [] then rest else mount_of (split_n b' ' 1 line) ∷ rest

unfoldable pub parse_mounts : Text → List Mount
unfolding parse_lines
parse_mounts text = parse_lines (split 10 text)

unfoldable pub mounts_of_findmnt : Result Text → Result (List Mount)
unfolding parse_mounts
mounts_of_findmnt (ok out) = ok (parse_mounts out)
mounts_of_findmnt (err (exit n)) = if n == pos 1 then ok [] else err (exit n)
mounts_of_findmnt (err e) = err e

abbrev pub mounts_args : List Text
mounts_args = codes "findmnt" ∷ codes "-rn" ∷ codes "-o" ∷ codes "TARGET,SOURCE" ∷ []

unfoldable pub list_mounts : Host → Io History (List Mount)
unfolding mounts_of_findmnt
list_mounts host = do r ← attempt (call host (run mounts_args)); lift (mounts_of_findmnt r)
