-- ===== src/Stats/Backoff.antt =====
-- internal/stats/registry.go: `backoff`, on Go's 64-bit durations.
use nomad_csi_driver.Base.{
  ℕ, zero, suc, ◌+◌, ◌-◌, ◌*◌, ◌^◌, ◌≤◌, ◌<◌, ℤ, pos, negsuc, ◌≡◌, ap, sym, ◌∙◌, true, false, arith,
  ltb, leb, if◌then◌else◌, Bool-cases, inl, inr,
}
use native.Mathlib.Nat.{pow-suc}
use nomad_csi_driver.Base.Int.{ltb_ℤ}

-- `d * 2` in int64.
abbrev double : ℤ → ℤ
double (pos n) = if ltb (n * 2) (2 ^ 63) then pos (n * 2) else negsuc (2 ^ 64 - n * 2 - 1)
double (negsuc n) =
    if leb (n * 2 + 2) (2 ^ 63) then negsuc (n * 2 + 1) else pos (2 ^ 64 - (n * 2 + 2))

-- The loop, with the rounds `fails - 1` that are left.
unfoldable pub backoff_loop : ℕ → ℤ → ℤ → ℤ
backoff_loop zero max d = d
backoff_loop (suc n) max d =
    let again = backoff_loop n max (double d) in if ltb_ℤ d max then again else d

-- `fails` counts from 0; a subtraction below 0 leaves no rounds, as `i < fails` does.
unfoldable pub backoff : ℤ → ℤ → ℕ → ℤ
unfolding backoff_loop
backoff base max fails = let d = backoff_loop (fails - 1) max base in if ltb_ℤ max d then max else d

abbrev pub least : ℕ → ℕ → ℕ
least m n = if ltb m n then m else n

pow : (d k : ℕ) → d * 2 ^ suc k ≡ d * 2 ^ k * 2
pow d k = grind (arith, pow-suc 2 k)

shuffle : (d p : ℕ) → d * 2 * p ≡ d * p * 2
shuffle d p = grind arith

grows : (d k : ℕ) → d ≤ d * 2 ^ k
grows d zero = omega arith
grows d (suc k) =
    let step : d * 2 ^ suc k ≡ d * 2 ^ k * 2 = pow d k in omega (arith, grows d k, step)

abbrev capped : ℕ → ℤ → ℤ
capped m d = if ltb_ℤ (pos m) d then pos m else d

loop-least :
    (k m d : ℕ)
    → m < 2 ^ 62
    → d < 2 ^ 63
    → capped m (backoff_loop k (pos m) (pos d)) ≡ pos (least m (d * 2 ^ k))
unfolding backoff_loop
loop-least zero m d h l = ground arith
loop-least (suc k) m d h l = elim (Bool-cases (ltb d m)) [
  | inl e ↦
      let fits : ltb (d * 2) (2 ^ 63) ≡ true = ground arith in
      let again : ltb (d + 0) (m + 0) ≡ true = ground arith in
      let power : d * 2 * 2 ^ k ≡ d * 2 ^ suc k = shuffle d (2 ^ k) ∙ sym (pow d k) in
      rw (again, fits, loop-least k m (d * 2) h (ground arith)) (ap (λ x. pos (least m x)) power)
  | inr e ↦
      let again : ltb (d + 0) (m + 0) ≡ false = ground arith in
      rw again (ground (arith, grows d (suc k)))
]

-- The wait after `fails` failures is the base doubled for each failure after the first, up to the
-- maximum, and the doubling does not wrap around when the maximum is below 2^62 ns (146 years).
pub backoff-least :
    (base max fails : ℕ)
    → max < 2 ^ 62
    → base < 2 ^ 63
    → backoff (pos base) (pos max) fails ≡ pos (least max (base * 2 ^ (fails - 1)))
unfolding backoff
backoff-least base max fails h l = loop-least (fails - 1) max base h l
