-- ===== src/Host/Zfs/Commands.antt =====
-- internal/zfs/zfs.go: the commands that change something, and what a success shows.
use nomad_csi_driver.Base.{Text, ◌≡◌, refl, List, ◌∷◌, arith}
use nomad_csi_driver.Driver.Errors.{Result, ok, err, pure, continue}
use nomad_csi_driver.Driver.Keeps.{Keeps, io_rules}
use nomad_csi_driver.Host.Mounts.{Host, History, Call, called, run, run_pipe, call, run_command}
use nomad_csi_driver.Host.Calls.{Adds, one_more, Seen, earlier, Told}
use nomad_csi_driver.Host.Zfs.{silent, piped}
use nomad_csi_driver.Host.Zfs

abbrev pub IsOk : Result Text → Type 0
IsOk (ok out) = Unit
IsOk (err e) = ⊥

module _ (host : Host) (Allows : History → Call → Type 0) (start : History) where
  -- A command whose output is dropped.
  pub silent_at :
      (args : List Text) (h : History)
      → Allows h (run args)
      → Adds Allows start h
      → Adds Allows start (silent host args h).1
  unfolding silent run_command call
  silent_at args h allowed p = dropped (host.answer h (run args))
    where
      dropped :
          (r : Result Text)
          → Adds Allows start
              (continue r (λ out s. pure {A = Unit {0}} tt s) (called (run args) r ∷ h)).1
      dropped (ok out) = one_more (run args) (ok out) allowed p
      dropped (err e) = one_more (run args) (err e) allowed p

  pub silent-Adds :
      (args : List Text)
      → ((h : History) → Adds Allows start h → Allows h (run args))
      → Keeps (Adds Allows start) (silent host args)
  silent-Adds args allowed = record { at = λ h p. silent_at args h (allowed h p) p }

  pub piped_at :
      (producer consumer : List Text) (h : History)
      → Allows h (run_pipe producer consumer)
      → Adds Allows start h
      → Adds Allows start (piped host producer consumer h).1
  unfolding piped call
  piped_at producer consumer h allowed p = dropped (host.answer h (run_pipe producer consumer))
    where
      dropped :
          (r : Result Text)
          → Adds Allows start
              (continue r
                (λ out s. pure {A = Unit {0}} tt s)
                (called (run_pipe producer consumer) r ∷ h)).1
      dropped (ok out) = one_more (run_pipe producer consumer) (ok out) allowed p
      dropped (err e) = one_more (run_pipe producer consumer) (err e) allowed p

module _ (host : Host) where
  Told-IsOk :
      (c : Call) (h : History) (r : Result Text)
      → (continue r (λ out s. pure {A = Unit {0}} tt s) (called c r ∷ h)).0 ≡ ok tt
      → Told c IsOk (continue r (λ out s. pure {A = Unit {0}} tt s) (called c r ∷ h)).1
  Told-IsOk c h (ok out) e = (refl, tt)
  Told-IsOk c h (err x) e = absurd (ground arith)

  -- A command that succeeded is the latest call.
  pub silent_ok :
      (args : List Text) (h : History)
      → (silent host args h).0 ≡ ok tt
      → Told (run args) IsOk (silent host args h).1
  unfolding silent run_command call
  silent_ok args h e = Told-IsOk (run args) h (host.answer h (run args)) e

  pub piped_ok :
      (producer consumer : List Text) (h : History)
      → (piped host producer consumer h).0 ≡ ok tt
      → Told (run_pipe producer consumer) IsOk (piped host producer consumer h).1
  unfolding piped call
  piped_ok producer consumer h e =
      Told-IsOk (run_pipe producer consumer) h (host.answer h (run_pipe producer consumer)) e

  -- What was seen stays seen.
  module _ (P : History → Type 0) where
    call-Seen : (c : Call) → Keeps (Seen P) (call host c)
    unfolding call
    call-Seen c = record { at = λ h p. earlier (called c (host.answer h c)) p }

    silent-Seen : (args : List Text) → Keeps (Seen P) (silent host args)
    unfolding silent run_command
    silent-Seen args = search (io_rules, call-Seen)

    piped-Seen : (producer consumer : List Text) → Keeps (Seen P) (piped host producer consumer)
    unfolding piped
    piped-Seen producer consumer = search (io_rules, call-Seen)

    pub clone_independent-Seen :
        (src snap dest : Text) → Keeps (Seen P) (Zfs.clone_independent host src snap dest)
    unfolding Zfs.clone_independent Zfs.destroy_snapshot
    clone_independent-Seen src snap dest = search (io_rules, silent-Seen, piped-Seen)
