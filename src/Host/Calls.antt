-- ===== src/Host/Calls.antt =====
-- Which calls an operation adds to the history of a host, and what it saw before each of them.
use nomad_csi_driver.Base.{Text, Bool, false, ◌||◌, ◌≡◌, true, List, [], ◌∷◌, codes, text_eq, ◌==◌}
use nomad_csi_driver.Driver.Errors.{Result}
use nomad_csi_driver.Driver.Keeps.{Keeps}
use nomad_csi_driver.Host.Mounts.{Host, History, Call, Event, called, run, call, run_command}

-- Every call after `start` is one that `Allows` permits after what was called before it.
pub data Adds (Allows : History → Call → Type 0) (start : History) : History → Type 0 where
  none_yet : Adds Allows start start
  one_more :
      {h : History} (c : Call) (r : Result Text)
      → Allows h c
      → Adds Allows start h
      → Adds Allows start (called c r ∷ h)

-- Something held at some time before.
pub data Seen (P : History → Type 0) : History → Type 0 where
  now : {h : History} → P h → Seen P h
  earlier : {h : History} (e : Event) → Seen P h → Seen P (e ∷ h)

-- The latest call was this one, and its answer was as `P` says.
abbrev pub Told : Call → (Result Text → Type 0) → History → Type 0
Told c P [] = ⊥
Told c P (called d r ∷ h) = (d ≡ c) × P r

-- A command of zfs or zpool that only asks.
is_question : List Text → Bool
is_question (program ∷ verb ∷ _) = verb == codes "list" || verb == codes "get"
is_question _ = false

unfoldable pub asks : Call → Bool
unfolding is_question
asks (run args) = is_question args
asks _ = false

-- Every question is permitted.
pub record Reads (Allows : History → Call → Type 0) : Type 0 where
  pub at : (h : History) (c : Call) → asks c ≡ true → Allows h c

module _ (host : Host) (Allows : History → Call → Type 0) (start : History) where
  pub call-Adds :
      (c : Call)
      → ((h : History) → Adds Allows start h → Allows h c)
      → Keeps (Adds Allows start) (call host c)
  unfolding call
  call-Adds c allowed = record { at = λ h p. one_more c (host.answer h c) (allowed h p) p }

  pub run_command-Adds :
      (args : List Text)
      → ((h : History) → Adds Allows start h → Allows h (run args))
      → Keeps (Adds Allows start) (run_command host args)
  unfolding run_command
  run_command-Adds args allowed = call-Adds (run args) allowed

-- What was seen before the new calls stays seen.
pub Adds-Seen :
    {Allows : History → Call → Type 0} {P : History → Type 0} {start h : History}
    → Adds Allows start h
    → Seen P start
    → Seen P h
Adds-Seen none_yet p = p
Adds-Seen (one_more c r allowed before) p = earlier (called c r) (Adds-Seen before p)

pub Adds-trans :
    {Allows : History → Call → Type 0} {start mid h : History}
    → Adds Allows start mid
    → Adds Allows mid h
    → Adds Allows start h
Adds-trans p none_yet = p
Adds-trans p (one_more c r allowed before) = one_more c r allowed (Adds-trans p before)
