-- ===== src/Local/Size.antt =====
-- internal/driver/local/params.go: sizes in int64, rounded up to whole blocks.
pub mod Rounding
use nomad_csi_driver.Base.{
  ℕ, zero, suc, ◌+◌, ◌-◌, ◌*◌, ◌/◌, ◌%◌, ◌^◌, ℤ, pos, negsuc, Text, Bool, true, false, ◌&&◌, ◌||◌,
  [], ◌∷◌, Option, none, some, reverse, eqb, ltb, text_eq, int_eq, ◌==◌, if◌then◌else◌,
}
use nomad_csi_driver.Base.Int.{◌+ℤ◌, ◌-ℤ◌, ltb_ℤ, leb_ℤ}
use nomad_csi_driver.Go.Strconv.{atoi}
use nomad_csi_driver.Go.Trim.{trim_space}
use nomad_csi_driver.Driver.Errors.{Code, coded, plain, Result, ok, err}
use nomad_csi_driver.Driver.Types.{CapacityRange}

-- A number in two's complement on 64 bits.
abbrev pub of_word : ℕ → ℤ
of_word m = if ltb m (2 ^ 63) then pos m else negsuc (2 ^ 64 - m - 1)

-- What int64 keeps of an integer.
abbrev pub wrap64 : ℤ → ℤ
wrap64 (pos n) = of_word (n % 2 ^ 64)
wrap64 (negsuc n) = of_word ((2 ^ 64 - (n + 1) % 2 ^ 64) % 2 ^ 64)

abbrev pub times : ℤ → ℤ → ℤ
times (pos a) (pos b) = pos (a * b)
times (pos a) (negsuc b) = pos 0 -ℤ pos (a * suc b)
times (negsuc a) (pos b) = pos 0 -ℤ pos (suc a * b)
times (negsuc a) (negsuc b) = pos (suc a * suc b)

-- Go's division, towards zero; by zero it panics, which is `none`.
unfoldable pub quotient : ℤ → ℤ → Option ℤ
quotient a (pos zero) = none
quotient (pos a) (pos (suc b)) = some (pos (a / suc b))
quotient (pos a) (negsuc b) = some (pos 0 -ℤ pos (a / suc b))
quotient (negsuc a) (pos (suc b)) = some (pos 0 -ℤ pos (suc a / suc b))
quotient (negsuc a) (negsuc b) = some (wrap64 (pos (suc a / suc b)))

-- The unit at the end, and the text in reverse without it.
unit_of : Text → ℕ × Text
unit_of [] = (1, [])
unit_of (c ∷ s) =
    if eqb c b'K' || eqb c b'k'
    then (2 ^ 10, s)
    else if eqb c b'M' || eqb c b'm'
    then (2 ^ 20, s)
    else if eqb c b'G' || eqb c b'g'
    then (2 ^ 30, s)
    else if eqb c b'T' || eqb c b't'
    then (2 ^ 40, s)
    else (1, c ∷ s)

sized : Option ℤ → ℕ → Result ℤ
sized none mult = err plain
sized (some n) mult = if leb_ℤ n (pos 0) then err plain else ok (wrap64 (times n (pos mult)))

unfoldable pub parse_size_bytes : Text → Result ℤ
unfolding unit_of sized
parse_size_bytes s =
    let t = trim_space s in
    if t == []
    then err plain
    else (let (mult, rev) = unit_of (reverse t) in sized (atoi (trim_space (reverse rev))) mult)

-- A call that may panic.
pub data Outcome : Type 0 where
  panics : Outcome
  answers : Result ℤ → Outcome

within_limit : ℤ → ℤ → Outcome
within_limit limit rounded =
    if ltb_ℤ (pos 0) limit && ltb_ℤ limit rounded
    then answers (err (coded Code.out_of_range))
    else answers (ok rounded)

of_quotient : ℤ → ℤ → Option ℤ → Outcome
unfolding within_limit
of_quotient block limit none = panics
of_quotient block limit (some q) = within_limit limit (wrap64 (times q block))

-- `(req + block - 1) / block * block`
round_up : ℤ → ℤ → Result ℤ → Outcome
unfolding of_quotient quotient
round_up req limit (err e) = answers (err (coded Code.invalid_argument))
round_up req limit (ok block) =
    of_quotient block limit (quotient (wrap64 (wrap64 (req +ℤ block) -ℤ pos 1)) block)

unfoldable pub round_up_to_block : CapacityRange → Text → Outcome
unfolding round_up parse_size_bytes
round_up_to_block cr volblocksize =
    if leb_ℤ cr.required_bytes (pos 0)
    then answers (err (coded Code.invalid_argument))
    else round_up cr.required_bytes cr.limit_bytes (parse_size_bytes volblocksize)
