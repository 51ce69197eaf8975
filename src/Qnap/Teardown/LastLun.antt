-- ===== src/Qnap/Teardown/LastLun.antt =====
-- internal/driver/qnap/node.go: lastLUNOnTarget, against what it is to say.
use nomad_csi_driver.Base.{
  ℤ, Text, true, ◌≡◌, ◌↔◌, ◌⊎◌, inl, inr, refl, List, [], ◌∷◌, All, arith, text_eq, int_eq, ◌==◌,
  Bool-cases, if◌then◌else◌,
}
use nomad_csi_driver.Base.Map.{Map, has, lookup, insert, has-insert}
use nomad_csi_driver.Host.Iscsi.{Session}
use nomad_csi_driver.Qnap.Teardown.{luns_of, is_only}

-- No session of the target has another LUN.
abbrev pub NoOther : Text → ℤ → List Session → Type 0
NoOther iqn lun = All (λ s. s.iqn ≡ iqn → s.lun ≡ lun)

module _ (iqn : Text) (lun : ℤ) where
  -- A set that holds this LUN alone, or nothing.
  abbrev Alone : Map ℤ (Unit {0}) → Type 0
  Alone m = (m ≡ []) ⊎ (m ≡ (lun, tt) ∷ [])

  Alone-is_only : (m : Map ℤ (Unit {0})) → Alone m → is_only lun m ≡ true
  unfolding is_only has lookup
  Alone-is_only m (inl e) = rw e refl
  Alone-is_only m (inr e) = rw e (ground (arith, int_eq.beq_iff lun lun))

  only_key : (m : Map ℤ (Unit {0})) (k : ℤ) → is_only lun m ≡ true → has k m ≡ true → k ≡ lun
  unfolding is_only has lookup
  only_key [] k e h = ground arith
  only_key ((j, u) ∷ []) k e h = ground (arith, int_eq.beq_iff j lun, int_eq.beq_iff j k)
  only_key (x ∷ y ∷ m) k e h = ground arith

  has_stays :
      (k : ℤ) (ss : List Session) (m : Map ℤ (Unit {0}))
      → has k m ≡ true
      → has k (luns_of iqn ss m) ≡ true
  unfolding luns_of
  has_stays k [] m h = h
  has_stays k (s ∷ ss) m h =
      has_stays k ss (if s.iqn == iqn then insert s.lun tt m else m)
        (ground (arith, has-insert s.lun k tt m))

  only-NoOther :
      (ss : List Session) (m : Map ℤ (Unit {0}))
      → is_only lun (luns_of iqn ss m) ≡ true
      → NoOther iqn lun ss
  unfolding luns_of
  only-NoOther [] m e = tt
  only-NoOther (s ∷ ss) m e = (
    λ same. only_key (luns_of iqn ss (if s.iqn == iqn then insert s.lun tt m else m)) s.lun e (
        has_stays s.lun ss (if s.iqn == iqn then insert s.lun tt m else m) (
          ground (
            arith,
            text_eq.beq_iff s.iqn iqn,
            has-insert s.lun s.lun tt m,
            int_eq.beq_iff s.lun s.lun,
          ))),
    only-NoOther ss _ e,
  )

  insert-Alone : (k : ℤ) (m : Map ℤ (Unit {0})) → k ≡ lun → Alone m → Alone (insert k tt m)
  unfolding insert
  insert-Alone k m e (inl p) = inr (rw (p, e) refl)
  insert-Alone k m e (inr p) = inr (rw (p, e) (ground (arith, int_eq.beq_iff lun lun)))

  luns_of-Alone :
      (ss : List Session) (m : Map ℤ (Unit {0}))
      → NoOther iqn lun ss
      → Alone m
      → Alone (luns_of iqn ss m)
  unfolding luns_of
  luns_of-Alone [] m h p = p
  luns_of-Alone (s ∷ ss) m h p = elim (Bool-cases (s.iqn == iqn)) [
    | inl e ↦ rw e (
        luns_of-Alone ss (insert s.lun tt m) h.1
          (insert-Alone s.lun m (h.0 (ground (arith, text_eq.beq_iff s.iqn iqn))) p))
    | inr e ↦ rw e (luns_of-Alone ss m h.1 p)
  ]

  -- The test on the set of a target's LUNs is true exactly when no session of the target has another
  -- LUN than this one; so it is true where the target has no session.
  pub is_only-NoOther :
      (ss : List Session) → (is_only lun (luns_of iqn ss []) ≡ true) ↔ NoOther iqn lun ss
  is_only-NoOther ss = (only-NoOther ss [], λ h. Alone-is_only _ (luns_of-Alone ss [] h (inl refl)))
