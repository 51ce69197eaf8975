-- ===== src/Host/Mounts/Safety.antt =====
-- internal/mountutil/mountutil.go: no data is lost by a format, and what a success shows.
use nomad_csi_driver.Base.{
  pos, ◌≡◌, ◌≢◌, ◌⊎◌, inl, inr, refl, Text, Bool, true, false, List, [], ◌∷◌, codes, arith, text_eq,
  int_eq, ◌==◌, if◌then◌else◌,
}
use nomad_csi_driver.Go.Trim.{trim_space}
use nomad_csi_driver.Driver.Errors.{Error, exit, Result, ok, err, Io, fail, pure, continue, ◌>>=◌}
use nomad_csi_driver.Host.Mounts.{
  Host, History, Call, called, run, call, detect_filesystem, format_if_empty, format_found,
  fs_of_blkid, is_mounted, mounted_of_findmnt, bind_mount, ensure_target, unmount, umount,
  after_umount, unless_mounted, run_only,
}

-- The question whether a device carries a file system.
abbrev pub blkid : Text → Call
blkid device =
    run (codes "blkid" ∷ codes "-o" ∷ codes "value" ∷ codes "-s" ∷ codes "TYPE" ∷ device ∷ [])

-- blkid found nothing: it printed nothing, or ended with exit code 2.
abbrev pub is_blank : Result Text → Bool
is_blank (ok out) = trim_space out == []
is_blank (err (exit n)) = n == pos 2
is_blank (err e) = false

module _ (host : Host) (device fs_type : Text) (extra : List Text) (h : History) where
  -- A device that is not blank, or that blkid cannot tell of, is left alone: after blkid no further
  -- command is run on the host, with whatever arguments.
  pub format_if_empty-keeps_data :
      is_blank (host.answer h (blkid device)) ≡ false
      → (format_if_empty host device fs_type extra h).1
        ≡ called (blkid device) (host.answer h (blkid device)) ∷ h
  unfolding format_if_empty detect_filesystem fs_of_blkid format_found call
  format_if_empty-keeps_data found = cases (host.answer h (blkid device)) found
    where
      cases :
          (r : Result Text)
          → is_blank r ≡ false
          → (continue
              (fs_of_blkid host r)
              (format_found host device fs_type extra)
              (called (blkid device) r ∷ h)).1
            ≡ called (blkid device) r ∷ h
      cases (ok out) e = ground arith
      cases (err (exit n)) e = rw e refl
      cases (err x) e = refl

-- The latest command was this one, and it succeeded.
abbrev pub Ran : Call → History → Type 0
Ran c [] = ⊥
Ran c (called d (ok out) ∷ h) = d ≡ c
Ran c (called d (err e) ∷ h) = ⊥

-- A step that does not succeed without leaving such a history.
record Leaves (R : History → Type 0) (m : Io History (Unit {0})) : Type 0 where
  pub at : (h : History) → (m h).0 ≡ ok tt → R (m h).1

module _ {R : History → Type 0} where
  Leaves-fail : (e : Error) → Leaves R (fail e)
  Leaves-fail e = record { at = λ h p. ground arith }

  if-Leaves :
      (b : Bool) (m n : Io History (Unit {0}))
      → Leaves R m
      → Leaves R n
      → Leaves R (if b then m else n)
  if-Leaves true m n km kn = km
  if-Leaves false m n km kn = kn

  continue-leaves :
      {A : Type 0} (r : Result A) (f : A → Io History (Unit {0})) (h : History)
      → ((a : A) → Leaves R (f a))
      → (continue r f h).0 ≡ ok tt
      → R (continue r f h).1
  continue-leaves (ok a) f h k p = (k a).at h p
  continue-leaves (err e) f h k p = ground arith

  Leaves-bind :
      {A : Type 0} (m : Io History A) (f : A → Io History (Unit {0}))
      → ((a : A) → Leaves R (f a))
      → Leaves R (m >>= f)
  Leaves-bind m f k = record { at = λ h p. continue-leaves (m h).0 f (m h).1 k p }

module _ (host : Host) where
  called-Ran :
      (c : Call) (a : Result Text) (h : History)
      → (continue a (λ o. pure {A = Unit {0}} tt) (called c a ∷ h)).0 ≡ ok tt
      → Ran c (continue a (λ o. pure {A = Unit {0}} tt) (called c a ∷ h)).1
  called-Ran c (ok out) h e = refl
  called-Ran c (err x) h e = ground arith

  run_only-Ran :
      (args : List Text) (h : History)
      → (run_only host args h).0 ≡ ok tt
      → Ran (run args) (run_only host args h).1
  unfolding run_only call
  run_only-Ran args h e = called-Ran (run args) (host.answer h (run args)) h e

  run_only-Leaves : (args : List Text) → Leaves (Ran (run args)) (run_only host args)
  run_only-Leaves args = record { at = run_only-Ran args }

  abbrev pub remount : Text → Call
  remount target = run (codes "mount" ∷ codes "-o" ∷ codes "remount,ro,bind" ∷ target ∷ [])

  -- A bind mount that was asked to be read-only does not succeed unless its last command was the
  -- read-only remount of the target, and that succeeded, also when the target was mounted before.
  pub bind_mount-read_only :
      (source target : Text) (is_dir : Bool) (h : History)
      → (bind_mount host source target is_dir true h).0 ≡ ok tt
      → Ran (remount target) (bind_mount host source target is_dir true h).1
  unfolding bind_mount
  bind_mount-read_only source target is_dir h e =
      (Leaves-bind (ensure_target host target is_dir) _ (λ o.
          Leaves-bind (is_mounted host target) _
            (λ m. Leaves-bind (bind_unless m source target) _ (λ o. run_only-Leaves _)))).at
        h e
    where
      bind_unless : Bool → Text → Text → Io History (Unit {0})
      bind_unless m source target =
          if m
          then pure tt
          else run_only host (codes "mount" ∷ codes "--bind" ∷ source ∷ target ∷ [])

  abbrev pub findmnt : Text → Call
  findmnt target =
      run (
        codes "findmnt" ∷ codes "-n" ∷ codes "-o" ∷ codes "TARGET" ∷ codes "--target" ∷ target ∷ [])

  -- findmnt found no mount at the target itself: it printed another mount point, or ended with exit
  -- code 1.
  abbrev pub FoundNone : Text → Result Text → Type 0
  FoundNone target (ok out) = trim_space out ≢ target
  FoundNone target (err (exit n)) = n ≡ pos 1
  FoundNone target (err e) = ⊥

  told_none :
      (target : Text) (r : Result Text)
      → mounted_of_findmnt host target r ≡ ok false
      → FoundNone target r
  unfolding mounted_of_findmnt
  told_none target (ok out) e = λ same. ground (arith, text_eq.beq_iff (trim_space out) target)
  told_none target (err (exit n)) e = ground (arith, int_eq.beq_iff n (pos 1))
  told_none target (err x) e = ground arith

  -- The latest command showed that the target is not mounted: a umount that succeeded, or a findmnt
  -- that found no mount at the target itself.
  abbrev pub ShowsUnmounted : Text → History → Type 0
  ShowsUnmounted target [] = ⊥
  ShowsUnmounted target (called c r ∷ h) =
      ((c ≡ findmnt target) × FoundNone target r)
      ⊎ Ran (run (codes "umount" ∷ target ∷ [])) (called c r ∷ h)

  module _ (target : Text) (h : History) where
    findmnt-shows :
        (q : Result Bool) (r : Result Text) (m n : Io History (Unit {0}))
        → mounted_of_findmnt host target r ≡ q
        → Leaves (ShowsUnmounted target) m
        → (continue q (λ b. if b then m else n) (called (findmnt target) r ∷ h)).0 ≡ ok tt
        → n ≡ pure tt
        → ShowsUnmounted target
            (continue q (λ b. if b then m else n) (called (findmnt target) r ∷ h)).1
    findmnt-shows (ok true) r m n p k e is_pure = k.at _ e
    findmnt-shows (ok false) r m n p k e is_pure = rw is_pure (inl (refl, told_none target r p))
    findmnt-shows (err x) r m n p k e is_pure = ground arith

    again-shows :
        (x : Error) (q : Result Bool) (r : Result Text)
        → mounted_of_findmnt host target r ≡ q
        → (unless_mounted host x q (called (findmnt target) r ∷ h)).0 ≡ ok tt
        → ShowsUnmounted target (unless_mounted host x q (called (findmnt target) r ∷ h)).1
    unfolding unless_mounted
    again-shows x (ok true) r p e = ground arith
    again-shows x (ok false) r p e = inl (refl, told_none target r p)
    again-shows x (err y) r p e = ground arith

  module _ (target : Text) (h : History) where
    after-shows :
        (r : Result Text)
        → (after_umount host target r (called (run (codes "umount" ∷ target ∷ [])) r ∷ h)).0 ≡ ok tt
        → ShowsUnmounted target
            (after_umount host target r (called (run (codes "umount" ∷ target ∷ [])) r ∷ h)).1
    unfolding after_umount is_mounted call
    after-shows (ok out) e = inr refl
    after-shows (err x) e =
        let h' = called (run (codes "umount" ∷ target ∷ [])) (err x) ∷ h in
        let r = host.answer h' (findmnt target) in
        again-shows target h' x (mounted_of_findmnt host target r) r refl e

  umount-Leaves : (target : Text) → Leaves (ShowsUnmounted target) (umount host target)
  unfolding umount call
  umount-Leaves target = record {
    at = λ h e. after-shows target h (host.answer h (run (codes "umount" ∷ target ∷ []))) e;
  }

  -- Unmount does not succeed unless its latest command showed that the target is not mounted: a umount
  -- that succeeded, or a findmnt that printed another mount point or ended with exit code 1.
  pub unmount-ShowsUnmounted :
      (target : Text) (h : History)
      → (unmount host target h).0 ≡ ok tt
      → ShowsUnmounted target (unmount host target h).1
  unfolding unmount is_mounted call
  unmount-ShowsUnmounted target h e =
      let r = host.answer h (findmnt target) in
      findmnt-shows target h (mounted_of_findmnt host target r) r (umount host target) (pure tt)
        refl (umount-Leaves target) e refl
