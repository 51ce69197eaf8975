-- ===== src/Go/Strconv/RoundTrip.antt =====
-- Atoi reads what %d writes.
use mathlib.Core.Logic.{dif_pos, dif_neg}
use mathlib.Core.WellFounded.{Acc}
use native.Mathlib.Bridge.{le_prop}
use native.Mathlib.Decide.{dec_lt}
use nomad_csi_driver.Base.{
  ℕ, zero, suc, ◌+◌, ◌-◌, ◌*◌, ◌/◌, ◌%◌, ◌≤◌, ◌<◌, ℤ, pos, negsuc, Text, ◌≡◌, ◌≢◌, ◌∙◌, refl, false,
  [], ◌∷◌, some, arith, All, eqb, ap,
}
use nomad_csi_driver.Go.Strconv.{
  digits_acc, lt_wf, format_nat, format_int, is_digit, scan, parse_nat, atoi, IsInt64, nonneg,
  negated,
}

-- Every byte is a decimal digit.
abbrev pub IsDigits : Text → Type 0
IsDigits = All (λ c. (b'0' ≤ c) × (c ≤ b'9'))

scan-digit : (d acc : ℕ) (s : Text) → d < 10 → scan ((b'0' + d) ∷ s) acc ≡ scan s (acc * 10 + d)
unfolding scan is_digit
scan-digit d acc s h = let e : b'0' + d - b'0' ≡ d = omega arith in rw e (ground arith)

scan-digits_acc : (n : ℕ) (w : Acc ◌<◌ n) (out : Text) → scan (digits_acc n w out) 0 ≡ scan out n
unfolding digits_acc
scan-digits_acc n (Acc.intro _ smaller) out = elim (dec_lt 0 n) [
  | yes p ↦
      let e : n / 10 * 10 + n % 10 ≡ n = omega arith in
      rw (dif_pos (dec_lt 0 n) le_prop p) (
        scan-digits_acc (n / 10) (smaller (n / 10) _) ((b'0' + n % 10) ∷ out)
        ∙ scan-digit (n % 10) (n / 10) out (omega arith)
        ∙ ap (scan out) e)
  | no p ↦ let e : n ≡ 0 = omega arith in rw (dif_neg (dec_lt 0 n) p, e)
]

IsDigits-digits_acc :
    (n : ℕ) (w : Acc ◌<◌ n) (out : Text) → IsDigits out → IsDigits (digits_acc n w out)
unfolding digits_acc
IsDigits-digits_acc n (Acc.intro _ smaller) out h = elim (dec_lt 0 n) [
  | yes p ↦
      rw (dif_pos (dec_lt 0 n) le_prop p)
        (IsDigits-digits_acc (n / 10) (smaller (n / 10) _) ((b'0' + n % 10) ∷ out) (omega arith, h))
  | no p ↦ rw (dif_neg (dec_lt 0 n) p) h
]

digits_acc-cons : (n : ℕ) (w : Acc ◌<◌ n) (c : ℕ) (out : Text) → digits_acc n w (c ∷ out) ≢ []
unfolding digits_acc
digits_acc-cons n (Acc.intro _ smaller) c out = elim (dec_lt 0 n) [
  | yes p ↦
      rw (dif_pos (dec_lt 0 n) le_prop p)
        (digits_acc-cons (n / 10) (smaller (n / 10) _) _ (c ∷ out))
  | no p ↦ rw (dif_neg (dec_lt 0 n) p) (λ e. cc)
]

digits_acc_nonempty : (n : ℕ) (w : Acc ◌<◌ n) → 0 < n → digits_acc n w [] ≢ []
unfolding digits_acc
digits_acc_nonempty n (Acc.intro _ smaller) h =
    rw (dif_pos (dec_lt 0 n) le_prop h) (digits_acc-cons (n / 10) (smaller (n / 10) _) _ [])

parse_nat-scan : (t : Text) → t ≢ [] → parse_nat t ≡ scan t 0
unfolding parse_nat
parse_nat-scan [] h = absurd (h refl)
parse_nat-scan (c ∷ s) h = refl

-- What `format_nat` writes: digits, at least one, that read back.
record Written (n : ℕ) (t : Text) : Type 0 where
  digits : IsDigits t
  nonempty : t ≢ []
  reads : parse_nat t ≡ some n

format_nat-suc : (n : ℕ) → format_nat (suc n) ≡ digits_acc (suc n) (lt_wf.apply (suc n)) []
unfolding format_nat
format_nat-suc n = let e : eqb (suc n) 0 ≡ false = ground arith in rw e

Written-zero : Written zero (format_nat zero)
unfolding format_nat parse_nat
Written-zero = record { digits = omega arith; nonempty = λ e. cc; reads = refl }

Written-digits_acc : (n : ℕ) (w : Acc ◌<◌ n) → 0 < n → Written n (digits_acc n w [])
Written-digits_acc n w h = record {
  digits = IsDigits-digits_acc n w [] tt;
  nonempty = digits_acc_nonempty n w h;
  reads =
      parse_nat-scan _ (digits_acc_nonempty n w h) ∙ scan-digits_acc n w [] ∙ (unfold scan in refl);
}

format_nat-Written : (n : ℕ) → Written n (format_nat n)
format_nat-Written zero = Written-zero
format_nat-Written (suc n) = rw (format_nat-suc n) (Written-digits_acc (suc n) _ (omega arith))

atoi-Written : (n : ℕ) (t : Text) → Written n t → atoi t ≡ nonneg (some n)
unfolding atoi
atoi-Written n [] w = absurd (w.nonempty refl)
atoi-Written n (c ∷ s) w = ground (arith, w.digits.0, w.reads)

atoi-minus-Written : (n : ℕ) (t : Text) → Written n t → atoi (b'-' ∷ t) ≡ negated (some n)
unfolding atoi
atoi-minus-Written n t w = ap negated w.reads

-- Atoi reads back what %d writes of a 64-bit integer.
pub atoi-format_int : (n : ℤ) → IsInt64 n → atoi (format_int n) ≡ some n
unfolding format_int
atoi-format_int (pos n) h = atoi-Written n _ (format_nat-Written n) ∙ ground arith
atoi-format_int (negsuc n) h =
    atoi-minus-Written (n + 1) _ (format_nat-Written (n + 1))
    ∙ (let e : n + 1 ≡ suc n = omega arith in rw e (ground arith))

-- What %d writes holds no slash.
NoSlash-digits : (t : Text) → IsDigits t → All (λ c. c ≢ b'/') t
NoSlash-digits [] h = tt
NoSlash-digits (c ∷ s) h = (omega arith, NoSlash-digits s h.1)

pub NoSlash-format_int : (n : ℤ) → All (λ c. c ≢ b'/') (format_int n)
unfolding format_int
NoSlash-format_int (pos n) = NoSlash-digits _ (format_nat-Written n).digits
NoSlash-format_int (negsuc n) = (omega arith, NoSlash-digits _ (format_nat-Written (n + 1)).digits)
