-- ===== src/Local/Capacity/Rules.antt =====
-- internal/driver/local/localops.go: questions for numbers, and what a create was told of its pool.
use nomad_csi_driver.Base.{
  ℤ, Text, true, false, ◌≡◌, refl, sym, ap, ◌∙◌, List, ◌∷◌, codes, Bool-cases, inl, inr, arith,
  subst, if◌then◌else◌,
}
use nomad_csi_driver.Base.{ℕ, pos, Option, none, some}
use nomad_csi_driver.Go.Trim.{trim_space}
use nomad_csi_driver.Go.Strconv.{atoi, IsInt64}
use nomad_csi_driver.Go.Strconv.Range.{atoi-IsInt64}
use nomad_csi_driver.Base.Int.{◌+ℤ◌, ◌-ℤ◌, ◌≤ℤ◌, ltb_ℤ}
use nomad_csi_driver.Local.Size.{wrap64}
use nomad_csi_driver.Driver.Errors.{Code, coded, Result, ok, err, Io, continue, lift, fail, pure}
use nomad_csi_driver.Driver.Keeps.{Keeps, succeeded}
use nomad_csi_driver.Host.Mounts.{Host, History, called, run, run_command, call}
use nomad_csi_driver.Host.Calls.{Told}
use nomad_csi_driver.Host.Zfs.{
  zfs, zpool, get_args, parse_int, of_decimal, number, pool_available, pool_size,
}
use nomad_csi_driver.Local.Params.{LocalConfig, reserve_for}
use nomad_csi_driver.Local.Capacity.{
  internal_of, or_internal, reserve_bytes, unreserved, check_capacity,
}
use nomad_csi_driver.Local.Capacity.Reserve.{
  IsReserve, reserve_bytes-IsReserve, after_reserve_lem, fits_of,
}

pub or_internal-Keeps :
    {S A : Type 0} {P : S → Type 0} (m : Io S A) → Keeps P m → Keeps P (or_internal m)
or_internal-Keeps m k = record { at = k.at }

-- The answer is this number.
abbrev pub IsNumber : ℤ → Result Text → Type 0
IsNumber n (ok out) = parse_int out ≡ ok n
IsNumber n (err e) = ⊥

-- A number was read: it is in the answer to the question.
pub record ToldNumber (args : List Text) (h h' : History) (n : ℤ) : Type 0 where
  pub answer : Result Text
  pub reads : IsNumber n answer
  pub latest : h' ≡ called (run args) answer ∷ h

-- The latest two answers give what a pool has after its reserve.
pub record HasRest (cfg : LocalConfig) (pool : Text) (rest : ℤ) (h : History) : Type 0 where
  pub before : History
  pub avail : ℤ
  pub total : ℤ
  pub told_avail : Result Text
  pub told_total : Result Text
  pub reads_avail : IsNumber avail told_avail
  pub reads_total : IsNumber total told_total
  pub latest :
      h
      ≡ called (run (zpool (get_args (codes "size") pool))) told_total
        ∷ (called (run (zfs (get_args (codes "available") pool))) told_avail ∷ before)
  pub reserve : ℤ
  pub is_reserve : IsReserve total (reserve_for cfg pool) reserve
  pub difference : rest ≡ wrap64 (avail -ℤ reserve)

-- That leaves room for the size; where both answers are amounts, the size and the reserve are within
-- what is available.
pub record HasRoom (cfg : LocalConfig) (pool : Text) (size : ℤ) (h : History) : Type 0 where
  pub rest : ℤ
  pub known : HasRest cfg pool rest h
  pub room : size ≤ℤ rest
  pub within :
      (a t : ℕ) → known.avail ≡ pos a → known.total ≡ pos t → size +ℤ known.reserve ≤ℤ pos a

IsNumber-IsInt64 : (n : ℤ) (r : Result Text) → IsNumber n r → IsInt64 n
unfolding parse_int of_decimal
IsNumber-IsInt64 n (ok out) e = read (atoi (trim_space out)) refl e
  where
    read : (o : Option ℤ) → atoi (trim_space out) ≡ o → of_decimal o ≡ ok n → IsInt64 n
    read none p e = absurd (ground arith)
    read (some m) p e = atoi-IsInt64 (trim_space out) n (ground arith)
IsNumber-IsInt64 n (err x) e = absurd e

-- The latest answer was this number.
pub Told-IsNumber :
    {args : List Text} {h h' : History} {n : ℤ}
    → ToldNumber args h h' n
    → Told (run args) (IsNumber n) h'
Told-IsNumber {args} {h' = h'} {n} t =
    subst (Told (run args) (IsNumber n)) (sym t.latest) (refl, t.reads)

module _ (host : Host) where
  read_number :
      (args : List Text) (h : History) (r : Result Text) (n : ℤ)
      → internal_of (continue r (λ out. lift (parse_int out)) (called (run args) r ∷ h)).0 ≡ ok n
      → ToldNumber args h (continue r (λ out. lift (parse_int out)) (called (run args) r ∷ h)).1 n
  read_number args h (err e) n p = absurd (ground arith)
  read_number args h (ok out) n p = record {
    answer = ok out;
    reads = of_internal (parse_int out) p;
    latest = refl;
  }
    where
      of_internal : (x : Result ℤ) → internal_of x ≡ ok n → x ≡ ok n
      of_internal (ok m) p = p
      of_internal (err e) p = absurd (ground arith)

  pub number_ok :
      (args : List Text) (h : History) (n : ℤ)
      → (or_internal (number host args) h).0 ≡ ok n
      → ToldNumber args h (or_internal (number host args) h).1 n
  unfolding number run_command call
  number_ok args h n p = read_number args h (host.answer h (run args)) n p

  module _ (cfg : LocalConfig) (pool : Text) where
    ok_inj : (a b : ℤ) → ok a ≡ ok b → a ≡ b
    ok_inj a b e = cc

    unreserved_ok :
        (h : History) (rest : ℤ)
        → (unreserved host cfg pool h).0 ≡ ok rest
        → HasRest cfg pool rest (unreserved host cfg pool h).1
    unfolding unreserved pool_available pool_size
    unreserved_ok h rest p =
        let one = succeeded (or_internal (pool_available host pool)) _ h rest p in
        let two = succeeded (or_internal (pool_size host pool)) _ _ rest one.did_second in
        let told = number_ok (zfs (get_args (codes "available") pool)) h one.first one.did_first in
        let again = number_ok (zpool (get_args (codes "size") pool)) _ two.first two.did_first in
        record {
          before = h;
          avail = one.first;
          total = two.first;
          told_avail = told.answer;
          told_total = again.answer;
          reads_avail = told.reads;
          reads_total = again.reads;
          latest =
              one.leaves
              ∙ (two.leaves
                  ∙ (again.latest
                      ∙ ap
                          (λ s.
                            called (run (zpool (get_args (codes "size") pool))) again.answer ∷ s)
                          told.latest));
          reserve = reserve_bytes two.first (reserve_for cfg pool);
          is_reserve = reserve_bytes-IsReserve two.first (reserve_for cfg pool);
          difference =
              sym (ok_inj _ _ two.did_second)
              ∙ after_reserve_lem one.first two.first (reserve_for cfg pool);
        }

    pub check_capacity_ok :
        (size : ℤ) (h : History)
        → (check_capacity host cfg pool size h).0 ≡ ok tt
        → HasRoom cfg pool size (check_capacity host cfg pool size h).1
    unfolding check_capacity
    check_capacity_ok size h p =
        let done = succeeded (unreserved host cfg pool) _ h tt p in
        let known = unreserved_ok h done.first done.did_first in
        elim (Bool-cases (ltb_ℤ done.first size)) [
          | inl short ↦ absurd (refused done.first size _ short done.did_second)
          | inr enough ↦ record {
            rest = done.first;
            known =
                subst (HasRest cfg pool done.first)
                  (sym (done.leaves ∙ kept done.first size _ enough)) known;
            room = ground arith;
            within =
                fits_of size done.first known.avail known.total (reserve_for cfg pool) known.reserve
                  (IsNumber-IsInt64 known.avail known.told_avail known.reads_avail)
                  (IsNumber-IsInt64 known.total known.told_total known.reads_total) known.is_reserve
                  known.difference (ground arith);
          }
        ]
      where
        refused :
            (rest size : ℤ) (s : History)
            → ltb_ℤ rest size ≡ true
            → ((if ltb_ℤ rest size then fail {A = Unit {0}} (coded Code.out_of_range) else pure tt)
                s).0
              ≡ ok tt
            → ⊥
        refused rest size s e q = ground arith

        kept :
            (rest size : ℤ) (s : History)
            → ltb_ℤ rest size ≡ false
            → ((if ltb_ℤ rest size then fail {A = Unit {0}} (coded Code.out_of_range) else pure tt)
                s).1
              ≡ s
        kept rest size s e = rw e refl
