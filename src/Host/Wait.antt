-- ===== src/Host/Wait.antt =====
-- internal/driver/local/node.go and internal/driver/qnap/node.go: the loops that poll until a device
-- appears, osWaitForPath and waitForMapWWID. Times are in milliseconds.
pub mod Ends
use nomad_csi_driver.Base.{
  ℕ, zero, suc, ◌+◌, ◌/◌, Text, Bool, ltb, Option, none, some, if◌then◌else◌,
}
use nomad_csi_driver.Driver.Errors.{
  Error, deadline_exceeded, Result, ok, err, Io, pure, fail, attempt, lift, ◌>>=◌,
}
use nomad_csi_driver.Host.Mounts.{Host, History, eval_symlinks, call}

-- The readings of the clock, the first one for the deadline; and how the select of a round ends:
-- with the error of the context, or after 250 milliseconds.
pub record Clock : Type 0 where
  pub now : ℕ → ℕ
  pub stopped : ℕ → Option Error

module _ (clock : Clock) (timeout : ℕ) where
  -- `time.Now().After(deadline)` in a round.
  abbrev pub is_late : ℕ → Bool
  is_late round = ltb (clock.now 0 + timeout) (clock.now (suc round))

  unfoldable pub select : Option Error → Io History (Option Text) → Io History (Option Text)
  select (some e) next = fail e
  select none next = next

  -- After a look that found something, or not yet.
  unfoldable pub looked : ℕ → Option Text → Io History (Option Text) → Io History (Option Text)
  unfolding select
  looked round (some real) next = pure (some real)
  looked round none next =
      if is_late round then fail deadline_exceeded else select (clock.stopped round) next

  -- The loop, with a bound on its rounds; `none` says that the bound was reached.
  unfoldable pub poll : ℕ → ℕ → Io History (Option Text) → Io History (Option Text)
  unfolding looked
  poll zero round look = pure none
  poll (suc left) round look = do found ← look; looked round found (poll left (suc round) look)

-- A round takes 250 milliseconds at least, so that there are no more rounds. The readings of the clock
-- are those of the history at which a wait begins.
unfoldable pub wait : (History → Clock) → ℕ → Io History (Option Text) → Io History (Option Text)
unfolding poll
wait clocks timeout look h = poll (clocks h) timeout (timeout / 250 + 2) 0 look h

before_bound : Option Text → Result Text
before_bound (some real) = ok real
before_bound none = err deadline_exceeded

-- What the callers see; the bound on the rounds is never reached.
unfoldable pub await : (History → Clock) → ℕ → Io History (Option Text) → Io History Text
unfolding wait before_bound
await clocks timeout look = do found ← wait clocks timeout look; lift (before_bound found)

abbrev pub if_ok : Result Text → Option Text
if_ok (ok real) = some real
if_ok (err e) = none

-- `filepath.EvalSymlinks`, tried once.
unfoldable pub resolve_link : Host → Text → Io History (Option Text)
unfolding call
resolve_link host path = do r ← attempt (call host (eval_symlinks path)); pure (if_ok r)

-- osWaitForPath of the local backend.
unfoldable pub os_wait_for_path : Host → (History → Clock) → ℕ → Text → Io History Text
unfolding await resolve_link
os_wait_for_path host clocks timeout path = await clocks timeout (resolve_link host path)
