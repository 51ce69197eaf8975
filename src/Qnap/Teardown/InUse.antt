-- ===== src/Qnap/Teardown/InUse.antt =====
-- internal/driver/qnap/node.go: what UnstageVolume asks before it detaches, and what it saw if it goes on.
use nomad_csi_driver.Base.{
  Text, Bool, true, false, not, ◌&&◌, ◌||◌, ◌==◌, [], ◌++◌, codes, All, sym, ◌≢◌, ◌≡◌, refl, subst,
  List, ◌∷◌, text_eq, text_beq, contains, arith, Option, none, some, if◌then◌else◌,
}
use nomad_csi_driver.Driver.Errors.{Result, ok, err, continue, pure}
use nomad_csi_driver.Driver.Keeps.{Keeps, io_rules}
use nomad_csi_driver.Host.Mounts.{History, called, run, call}
use nomad_csi_driver.Host.Mounts.Harmless.{is_tame}
use nomad_csi_driver.Host.MountTable.{
  Mount, mounts_args, mounts_of_findmnt, parse_mounts, list_mounts,
}
use nomad_csi_driver.Host.Calls.{now, Told}
use nomad_csi_driver.Qnap.NodeState.{StageMeta, QnapNode}
use nomad_csi_driver.Qnap.Teardown.{
  uses, mapper_of, is_held, device_in_use, in_use_or, refuse_in_use,
}
use nomad_csi_driver.Qnap.Teardown.Finds.{IsElsewhere, IsUnused, SeenUnused, Fine, tame_call}

module _ (n : QnapNode) (path : Text) (m : StageMeta) where
  -- The test of deviceInUse says no only if every mount is elsewhere.
  uses-IsElsewhere :
      (ms : List Mount) → uses n path (mapper_of n m) ms ≡ false → All (IsElsewhere path m) ms
  unfolding uses
  uses-IsElsewhere [] e = tt
  uses-IsElsewhere (mt ∷ ms) e =
      (λ other. here mt other (ground arith), uses-IsElsewhere ms (ground arith))
    where
      here :
          (mt : Mount)
          → mt.target ≢ path
          → (not (mt.target == path)
              && (mt.source == path || (not (mapper_of n m == []) && mt.source == mapper_of n m)))
            ≡ false
          → (mt.source ≢ path) × (m.wwid ≢ [] → mt.source ≢ codes "/dev/mapper/" ++ m.wwid)
      here mt other e = (
        λ same. ground (arith, text_eq.beq_iff mt.target path, text_eq.beq_iff mt.source path),
        λ known same. ground (
          arith,
          text_eq.beq_iff mt.target path,
          text_eq.beq_iff m.wwid [],
          text_eq.beq_iff mt.source (codes "/dev/mapper/" ++ m.wwid),
          text_eq.beq_iff (codes "/dev/mapper/" ++ m.wwid) [],
        ),
      )

  -- What findmnt printed, if the test on it says no.
  told-IsUnused :
      (r : Result Text) (x : Result (List Mount))
      → mounts_of_findmnt r ≡ x
      → ((ms : List Mount) → x ≡ ok ms → uses n path (mapper_of n m) ms ≡ false)
      → IsUnused path m r
  unfolding mounts_of_findmnt
  told-IsUnused (ok out) x p free = uses-IsElsewhere (parse_mounts out) (free _ (sym p))
  told-IsUnused (err e) x p free = tt

module _ (n : QnapNode) (found : Option StageMeta) (path : Text) (start : History) where
  is_held-Fine : (dev : Text) → Keeps (Fine n found path start) (is_held n dev)
  unfolding is_held
  is_held-Fine dev = record { at = λ h p. p }

  in_use_or-Fine : (r : Result Bool) → Keeps (Fine n found path start) (in_use_or n r)
  unfolding in_use_or
  in_use_or-Fine (ok true) = search io_rules
  in_use_or-Fine (ok false) = search io_rules
  in_use_or-Fine (err e) = search io_rules

  list_mounts-Fine : Keeps (Fine n found path start) (list_mounts n.host)
  unfolding list_mounts is_tame contains text_beq
  list_mounts-Fine = search (io_rules, tame_call n found path start)

  pub refuse_in_use-Fine :
      (id : Option StageMeta) → Keeps (Fine n found path start) (refuse_in_use n path id)
  unfolding refuse_in_use device_in_use
  refuse_in_use-Fine none = search io_rules
  refuse_in_use-Fine (some m) =
      search (io_rules, list_mounts-Fine, is_held-Fine, in_use_or-Fine) depth 9

  -- What the guard makes of the table of mounts.
  abbrev verdict : StageMeta → Result (List Mount) → History → Result Bool × History
  verdict m x h =
      continue x
        (λ ms. if uses n path (mapper_of n m) ms then pure true else is_held n (mapper_of n m)) h

  ok_inj : (a b : List Mount) → ok a ≡ ok b → a ≡ b
  ok_inj a b e = cc

  held_seen :
      (m : StageMeta) (held : Bool) (h : History)
      → Told (run mounts_args) (IsUnused path m) h
      → (in_use_or n (ok held) h).0 ≡ ok tt
      → SeenUnused path m (in_use_or n (ok held) h).1
  unfolding in_use_or
  held_seen m true h told e = absurd (ground arith)
  held_seen m false h told e = now told

  used_seen :
      (m : StageMeta) (used : Bool) (h : History)
      → (used ≡ false → Told (run mounts_args) (IsUnused path m) h)
      → (let (r, h') = (if used then pure true else is_held n (mapper_of n m)) h in
          (in_use_or n r h').0)
        ≡ ok tt
      → (let (r, h') = (if used then pure true else is_held n (mapper_of n m)) h in
          SeenUnused path m (in_use_or n r h').1)
  unfolding is_held in_use_or
  used_seen m true h told e = absurd (ground arith)
  used_seen m false h told e = held_seen m _ h (told refl) e

  seen_of :
      (m : StageMeta) (r : Result Text) (x : Result (List Mount)) (h : History)
      → mounts_of_findmnt r ≡ x
      → (in_use_or n
          (verdict m x (called (run mounts_args) r ∷ h)).0
          (verdict m x (called (run mounts_args) r ∷ h)).1).0
        ≡ ok tt
      → SeenUnused path m
          (in_use_or n
            (verdict m x (called (run mounts_args) r ∷ h)).0
            (verdict m x (called (run mounts_args) r ∷ h)).1).1
  unfolding in_use_or is_held
  seen_of m r (err x) h p e =
      now (refl, told-IsUnused n path m r _ p (λ ms q. absurd (ground arith)))
  seen_of m r (ok ms) h p e =
      used_seen m (uses n path (mapper_of n m) ms) _
        (λ free. (
          refl,
          told-IsUnused n path m r _ p
              (λ ms' q. subst (λ l. uses n path (mapper_of n m) l ≡ false) (ok_inj ms ms' q) free),
        ))
        e

  -- Where the guard lets an unstage go on, it has just seen the table of mounts.
  pub refuse_in_use_ok :
      (m : StageMeta) (h : History)
      → (refuse_in_use n path (some m) h).0 ≡ ok tt
      → SeenUnused path m (refuse_in_use n path (some m) h).1
  unfolding refuse_in_use device_in_use list_mounts call
  refuse_in_use_ok m h e = seen_of m (n.host.answer h (run mounts_args)) _ h refl e
