-- ===== src/Go/Strconv.antt =====
-- `strconv.Atoi` and `ParseInt(s, 10, 64)`, and `%d` of fmt, on 64-bit integers.
pub mod RoundTrip
pub mod Range
use mathlib.Core.Logic.{dite}
use mathlib.Core.WellFounded.{Acc, WellFounded}
use native.Mathlib.Decide.{dec_lt}
use nomad_csi_driver.Base.{
  ℕ, zero, suc, ◌+◌, ◌-◌, ◌*◌, ◌/◌, ◌%◌, ◌^◌, ◌≤◌, ◌<◌, ℤ, pos, negsuc, Text, ◌≡◌, refl, Bool, ◌&&◌,
  List, [], ◌∷◌, Option, none, some, arith, codes, leb, ltb, not, eqb, if◌then◌else◌,
}

Acc-below : (k n : ℕ) → n < k → Acc ◌<◌ n
Acc-below zero n h = absurd (omega arith)
Acc-below (suc k) n h = Acc.intro n λ m lt. Acc-below k m (omega arith)

unfoldable pub lt_wf : WellFounded ◌<◌
unfolding Acc-below
lt_wf = record { apply = λ n. Acc-below (suc n) n (omega arith) }

pub tenth_lt : {n : ℕ} → 0 < n → n / 10 < n
tenth_lt h = omega arith

-- The decimal digits of `n`, none for 0, before `out`.
unfoldable pub digits_acc : (n : ℕ) → Acc ◌<◌ n → Text → Text
digits_acc n (Acc.intro _ smaller) out =
    dite (dec_lt 0 n)
      (λ h. digits_acc (n / 10) (smaller (n / 10) (tenth_lt h)) ((b'0' + n % 10) ∷ out)) (λ _. out)

unfoldable pub format_nat : ℕ → Text
unfolding digits_acc lt_wf dec_lt
format_nat n = if eqb n 0 then b'0' ∷ [] else digits_acc n (lt_wf.apply n) []

-- %d
unfoldable pub format_int : ℤ → Text
unfolding format_nat
format_int (pos n) = format_nat n
format_int (negsuc n) = b'-' ∷ format_nat (n + 1)

unfoldable pub is_digit : ℕ → Bool
is_digit c = leb b'0' c && leb c b'9'

-- The number that the digits write after `acc`; `none` at any other byte.
unfoldable pub scan : Text → ℕ → Option ℕ
unfolding is_digit
scan [] acc = some acc
scan (c ∷ s) acc = if is_digit c then scan s (acc * 10 + (c - b'0')) else none

unfoldable pub parse_nat : Text → Option ℕ
unfolding scan
parse_nat [] = none
parse_nat (c ∷ s) = scan (c ∷ s) 0

abbrev nonneg : Option ℕ → Option ℤ
nonneg none = none
nonneg (some n) = if ltb n (2 ^ 63) then some (pos n) else none

abbrev negated : Option ℕ → Option ℤ
negated none = none
negated (some zero) = some (pos 0)
negated (some (suc n)) = if ltb n (2 ^ 63) then some (negsuc n) else none

-- An error of Atoi, for syntax or range, is `none`.
unfoldable pub atoi : Text → Option ℤ
unfolding parse_nat
atoi [] = none
atoi (c ∷ s) =
    if eqb c b'-'
    then negated (parse_nat s)
    else if eqb c b'+'
    then nonneg (parse_nat s)
    else nonneg (parse_nat (c ∷ s))

-- The range of an `int` on a 64-bit machine.
abbrev pub IsInt64 : ℤ → Type 0
IsInt64 (pos n) = n < 2 ^ 63
IsInt64 (negsuc n) = n < 2 ^ 63

format_int_runs : format_int (negsuc 1206) ≡ codes "-1207"
unfolding format_int
format_int_runs = refl

atoi_runs : atoi (codes "+0042") ≡ some (pos 42)
unfolding atoi
atoi_runs = refl

-- The magnitude, cut off at what 64 bits hold; none for a character that is no digit.
magnitude : Text → ℕ → Option ℕ
unfolding is_digit
magnitude [] acc = some acc
magnitude (c ∷ s) acc =
    let next = acc * 10 + (c - b'0') in
    let rest = magnitude s next in
    if not (is_digit c) then none else if ltb next (2 ^ 64) then rest else some (2 ^ 64 - 1)

clamp_pos : Option ℕ → ℤ
clamp_pos none = pos 0
clamp_pos (some n) = if ltb n (2 ^ 63) then pos n else pos (2 ^ 63 - 1)

clamp_neg : Option ℕ → ℤ
clamp_neg none = pos 0
clamp_neg (some zero) = pos 0
clamp_neg (some (suc n)) = if ltb n (2 ^ 63) then negsuc n else negsuc (2 ^ 63 - 1)

digits_only : Text → Option ℕ
unfolding magnitude
digits_only [] = none
digits_only (c ∷ s) = magnitude (c ∷ s) 0

-- The number that ParseInt(s, 10, 64) gives where its error is dropped: 0 for a text that is no
-- number, and the nearest one for a number out of range.
unfoldable pub parse_int_value : Text → ℤ
unfolding digits_only clamp_pos clamp_neg
parse_int_value [] = pos 0
parse_int_value (c ∷ s) =
    if eqb c b'-'
    then clamp_neg (digits_only s)
    else if eqb c b'+'
    then clamp_pos (digits_only s)
    else clamp_pos (digits_only (c ∷ s))
