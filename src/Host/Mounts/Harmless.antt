-- ===== src/Host/Mounts/Harmless.antt =====
-- internal/mountutil/mountutil.go: which commands the operations run, and that none but a format of a
-- blank device makes a file system.
use nomad_csi_driver.Base.{
  Text, Bool, true, false, ◌≡◌, ◌⊎◌, inl, inr, refl, List, [], ◌∷◌, codes, text_eq, text_beq,
  contains, ◌==◌, arith, Bool-cases, int_eq,
}
use nomad_csi_driver.Go.Trim.{trim_space}
use nomad_csi_driver.Driver.Errors.{Error, exit, plain, Result, ok, err, pure, fail, ◌>>=◌}
use nomad_csi_driver.Driver.Keeps.{Keeps, Keeps-if, Keeps-pure, Keeps-fail, then_at, io_rules}
use nomad_csi_driver.Host.Calls.{Adds, one_more, Told, call-Adds}
use nomad_csi_driver.Host.Mounts.{
  Host, History, Call, called, run, run_pipe, mkdir_all, stat, create, eval_symlinks, glob, call,
  detect_filesystem, fs_of_blkid, mkfs_command, format, format_found, format_if_empty, is_mounted,
  run_only, mount, make_dir, after_stat, ensure_target, bind_mount, unless_mounted, after_umount,
  umount, unmount,
}
use nomad_csi_driver.Host.Mounts.Safety.{blkid, is_blank}

-- The commands that neither make a file system nor attach or detach a device.
abbrev tame_programs : List Text
tame_programs =
    codes "blkid"
    ∷ codes "findmnt"
    ∷ codes "mount"
    ∷ codes "umount"
    ∷ codes "zpool"
    ∷ codes "multipathd"
    ∷ []

unfoldable pub is_tame : Call → Bool
is_tame (run (program ∷ args)) = contains tame_programs program
is_tame (run []) = false
is_tame (run_pipe from to) = false
is_tame (mkdir_all path) = true
is_tame (stat path) = true
is_tame (create path) = true
is_tame (eval_symlinks path) = true
is_tame (glob path) = true

-- A command that makes a file system on the device, with no arguments of the caller's.
abbrev pub Formats : Text → List Text → Type 0
Formats device args =
    (args ≡ codes "mkfs.ext4" ∷ codes "-F" ∷ device ∷ [])
    ⊎ (args ≡ codes "mkfs.xfs" ∷ codes "-f" ∷ device ∷ [])

-- Every call of a tame command, and of the operating system, is permitted.
pub record Harmless (Allows : History → Call → Type 0) : Type 0 where
  pub at : (h : History) (c : Call) → is_tame c ≡ true → Allows h c

module _ (host : Host) (Allows : History → Call → Type 0) (harmless : Harmless Allows)
    (start : History) where
  pub harmless-Adds : (c : Call) → is_tame c ≡ true → Keeps (Adds Allows start) (call host c)
  harmless-Adds c e = call-Adds host Allows start c (λ h p. harmless.at h c e)

  run_only-Adds :
      (args : List Text)
      → is_tame (run args) ≡ true
      → Keeps (Adds Allows start) (run_only host args)
  unfolding run_only
  run_only-Adds args e = search (io_rules, harmless-Adds (run args) e)

  module _ (path : Text) where
    pub detect_filesystem-Adds : Keeps (Adds Allows start) (detect_filesystem host path)
    unfolding detect_filesystem is_tame contains text_beq
    detect_filesystem-Adds = search (io_rules, harmless-Adds (blkid path) refl)

    is_mounted-Adds : Keeps (Adds Allows start) (is_mounted host path)
    unfolding is_mounted is_tame contains text_beq
    is_mounted-Adds = search (io_rules, harmless-Adds)

    pub mount-Adds :
        (device fs_type : Text) (flags : List Text)
        → Keeps (Adds Allows start) (mount host device path fs_type flags)
    unfolding mount is_tame contains text_beq
    mount-Adds device fs_type flags =
        search (io_rules, is_mounted-Adds, harmless-Adds, run_only-Adds)

    ensure_target-Adds :
        (is_dir : Bool) → Keeps (Adds Allows start) (ensure_target host path is_dir)
    unfolding ensure_target make_dir is_tame
    ensure_target-Adds true = search (io_rules, harmless-Adds)
    ensure_target-Adds false = search (io_rules, harmless-Adds, after_stat-Adds)
      where
        after_stat-Adds : (r : Result Text) → Keeps (Adds Allows start) (after_stat host path r)
        after_stat-Adds (ok out) = search io_rules
        after_stat-Adds (err e) = search (io_rules, harmless-Adds)

    pub bind_mount-Adds :
        (source : Text) (is_dir readonly : Bool)
        → Keeps (Adds Allows start) (bind_mount host source path is_dir readonly)
    unfolding bind_mount is_tame contains text_beq
    bind_mount-Adds source is_dir readonly =
        search (io_rules, is_mounted-Adds, ensure_target-Adds, run_only-Adds)

    pub unmount-Adds : Keeps (Adds Allows start) (unmount host path)
    unfolding unmount umount is_tame contains text_beq
    unmount-Adds = search (io_rules, harmless-Adds, is_mounted-Adds, after_umount-Adds)
      where
        unless_mounted-Adds :
            (e : Error) (r : Result Bool) → Keeps (Adds Allows start) (unless_mounted host e r)
        unless_mounted-Adds e (ok m) = search io_rules
        unless_mounted-Adds e (err x) = search io_rules

        after_umount-Adds : (r : Result Text) → Keeps (Adds Allows start) (after_umount host path r)
        after_umount-Adds (ok out) = search io_rules
        after_umount-Adds (err e) = search (io_rules, is_mounted-Adds, unless_mounted-Adds)

  reads_blank : (r : Result Text) → fs_of_blkid host r ≡ ok [] → is_blank r ≡ true
  unfolding fs_of_blkid
  reads_blank (ok out) e = ground (arith, text_eq.beq_iff (trim_space out) [])
  reads_blank (err (exit n)) e = ground arith
  reads_blank (err x) e = ground arith

  module _ (device : Text)
      (allowed : (h : History) (args : List Text)
        → Told (blkid device) (λ r. is_blank r ≡ true) h
        → Formats device args
        → Allows h (run args)) where
    format_run :
        (h : History) (args : List Text)
        → Told (blkid device) (λ r. is_blank r ≡ true) h
        → Formats device args
        → Adds Allows start h
        → Adds Allows start ((call host (run args) >>= λ o. pure true) h).1
    unfolding call
    format_run h args told f p =
        let did : Adds Allows start (call host (run args) h).1 =
          one_more (run args) (host.answer h (run args)) (allowed h args told f) p in
        then_at (Adds Allows start) (call host (run args)) _ h did (λ o e. did)

    format-Adds :
        (fs_type : Text) (h : History)
        → Told (blkid device) (λ r. is_blank r ≡ true) h
        → Adds Allows start h
        → Adds Allows start (format host device fs_type [] h).1
    unfolding format mkfs_command
    format-Adds fs_type h told p = elim (Bool-cases (fs_type == codes "ext4")) [
      | inl e ↦ rw e (format_run h _ told (inl refl) p)
      | inr e ↦ elim (Bool-cases (fs_type == codes "xfs")) [
        | inl x ↦ rw (e, x) (format_run h _ told (inr refl) p)
        | inr x ↦ rw (e, x) p
      ]
    ]

    found-Adds :
        (fs_type existing : Text) (h : History)
        → Told (blkid device) (λ r. fs_of_blkid host r ≡ ok existing) h
        → Adds Allows start h
        → Adds Allows start (format_found host device fs_type [] existing h).1
    unfolding format_found text_beq
    found-Adds fs_type [] (called c r ∷ h) told p =
        format-Adds fs_type (called c r ∷ h) (told.0, reads_blank r told.1) p
    found-Adds fs_type [] [] told p = elim told [ ]
    found-Adds fs_type (x ∷ xs) h told p =
        (Keeps-if {P = Adds Allows start} (x ∷ xs == fs_type) (pure false) (fail plain)
            (Keeps-pure false) (Keeps-fail plain)).at
          h p

    detected :
        (h : History) (fs : Text)
        → (detect_filesystem host device h).0 ≡ ok fs
        → Told (blkid device) (λ r. fs_of_blkid host r ≡ ok fs) (detect_filesystem host device h).1
    unfolding detect_filesystem call
    detected h fs e = (refl, e)

    pub format_if_empty-Adds :
        (fs_type : Text) → Keeps (Adds Allows start) (format_if_empty host device fs_type [])
    unfolding format_if_empty
    format_if_empty-Adds fs_type = record {
      at = λ h p.
          let asked = (detect_filesystem-Adds device).at h p in
          then_at (Adds Allows start) (detect_filesystem host device)
            (format_found host device fs_type []) h asked
            (λ fs e. found-Adds fs_type fs _ (detected h fs e) asked);
    }
