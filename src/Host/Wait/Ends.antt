-- ===== src/Host/Wait/Ends.antt =====
-- internal/driver/local/node.go and internal/driver/qnap/node.go: a wait for a device ends, and how.
use nomad_csi_driver.Base.{
  ℕ, zero, suc, ◌+◌, ◌*◌, ◌/◌, ◌≤◌, ◌<◌, Text, ◌≡◌, ◌⊎◌, inl, inr, refl, false, Bool-cases,
  Option-cases, Option, none, some, arith,
}
use nomad_csi_driver.Driver.Errors.{Error, deadline_exceeded, Result, ok, err, Io, continue}
use nomad_csi_driver.Driver.Keeps.{
  Keeps, Keeps-if, Keeps-bind, Keeps-pure, Keeps-fail, keeps_rules, io_rules,
}
use nomad_csi_driver.Host.Mounts.{Host, History, call, eval_symlinks}
use nomad_csi_driver.Host.Wait.{Clock, is_late, select, looked, poll, wait, await, resolve_link}

-- Time does not run backwards, and a round that ends by its timer takes 250 milliseconds.
pub record IsPaced (clock : Clock) : Type 0 where
  pub monotone : clock.now 0 ≤ clock.now 1
  pub paced :
      (round : ℕ)
      → clock.stopped round ≡ none
      → clock.now (suc round) + 250 ≤ clock.now (suc (suc round))

-- The latest look answered this.
abbrev pub Latest : Io History (Option Text) → Result (Option Text) → History → Type 0
Latest look r h = (before : History) × (look before ≡ (r, h))

-- How a wait may end.
abbrev pub Ended : Clock → Io History (Option Text) → Result (Option Text) → History → Type 0
Ended clock look (ok none) h = ⊥
Ended clock look (ok (some real)) h = Latest look (ok (some real)) h
Ended clock look (err e) h =
    Latest look (err e) h
    ⊎ (Latest look (ok none) h
        × ((e ≡ deadline_exceeded) ⊎ ((round : ℕ) × (clock.stopped round ≡ some e))))

module _ (clock : Clock) (timeout : ℕ) (paced : IsPaced clock)
    (look : Io History (Option Text)) where
  abbrev EndsWell : Result (Option Text) × History → Type 0
  EndsWell r = Ended clock look r.0 r.1

  -- One round, with what comes next if it goes on.
  looked_ends :
      (round : ℕ) (r : Result (Option Text) × History) (h : History)
      (next : Io History (Option Text))
      → look h ≡ r
      → (is_late clock timeout round ≡ false → clock.stopped round ≡ none → EndsWell (next r.1))
      → EndsWell (continue r.0 (λ found. looked clock timeout round found next) r.1)
  unfolding looked select
  looked_ends round (ok (some real), h') h next e k = (h, e)
  looked_ends round (err x, h') h next e k = inl (h, e)
  looked_ends round (ok none, h') h next e k = elim (Bool-cases (is_late clock timeout round)) [
    | inl late ↦ rw late (inr ((h, e), inl refl))
    | inr early ↦ rw early (elim (Option-cases (clock.stopped round)) [
      | inl going ↦ rw going (k early going)
      | inr (x, stops) ↦ rw stops (inr ((h, e), inr (round, stops)))
    ])
  ]

  poll_ends :
      (left round : ℕ) (h : History)
      → clock.now 0 + 250 * round ≤ clock.now (suc round)
      → 250 * round ≤ timeout + 250
      → timeout + 250 < 250 * (left + round)
      → EndsWell (poll clock timeout left round look h)
  unfolding poll
  poll_ends zero round h late early enough = absurd (omega arith)
  poll_ends (suc left) round h late early enough =
      looked_ends round (look h) h (poll clock timeout left (suc round) look) refl
        (λ not_late going.
          poll_ends left (suc round) _ (omega (arith, paced.paced round going)) (ground arith)
            (omega arith))

-- If time does not run backwards and a round takes 250 milliseconds at least, then a wait ends,
-- within timeout / 250 + 2 rounds, in one of these ways: the latest look at the host found what was
-- waited for, and that is the result; the latest look failed, and its error is the result; or it
-- found nothing yet, and the result is the error of the deadline or of the context.
pub wait-Ended :
    (clocks : History → Clock) (timeout : ℕ) (look : Io History (Option Text)) (h : History)
    → IsPaced (clocks h)
    → Ended (clocks h) look (wait clocks timeout look h).0 (wait clocks timeout look h).1
unfolding wait
wait-Ended clocks timeout look h paced =
    poll_ends (clocks h) timeout paced look (timeout / 250 + 2) 0 h (omega (arith, paced.monotone))
      (omega arith) (omega arith)

-- A wait keeps what one look keeps.
module _ {P : History → Type 0} (look : Io History (Option Text)) (k : Keeps P look) where
  looked-Keeps :
      (clock : Clock) (timeout round : ℕ) (found : Option Text) (next : Io History (Option Text))
      → Keeps P next
      → Keeps P (looked clock timeout round found next)
  unfolding looked
  looked-Keeps clock timeout round (some real) next kn = Keeps-pure _
  looked-Keeps clock timeout round none next kn =
      Keeps-if _ _ _ (Keeps-fail _) (select-Keeps (clock.stopped round))
    where
      select-Keeps : (s : Option Error) → Keeps P (select clock timeout s next)
      select-Keeps (some e) = Keeps-fail e
      select-Keeps none = kn

  poll-Keeps :
      (clock : Clock) (timeout left round : ℕ) → Keeps P (poll clock timeout left round look)
  unfolding poll
  poll-Keeps clock timeout zero round = Keeps-pure none
  poll-Keeps clock timeout (suc left) round = Keeps-bind _ _ k (λ found.
      looked-Keeps clock timeout round found _ (poll-Keeps clock timeout left (suc round)))

  wait-Keeps : (clocks : History → Clock) (timeout : ℕ) → Keeps P (wait clocks timeout look)
  unfolding wait
  wait-Keeps clocks timeout = record {
    at = λ h p. (poll-Keeps (clocks h) timeout (timeout / 250 + 2) 0).at h p;
  }

  pub await-Keeps : (clocks : History → Clock) (timeout : ℕ) → Keeps P (await clocks timeout look)
  unfolding await
  await-Keeps clocks timeout = search (keeps_rules, wait-Keeps)

pub resolve_link-Keeps :
    {P : History → Type 0} (host : Host) (path : Text)
    → Keeps P (call host (eval_symlinks path))
    → Keeps P (resolve_link host path)
unfolding resolve_link
resolve_link-Keeps host path k = search (io_rules, k)
