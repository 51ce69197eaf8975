-- ===== src/Qnap/Reconciler/Loop.antt =====
-- internal/driver/qnap/reconciler.go: the loop of a sweep over the targets.
use nomad_csi_driver.Base.{
  ℕ, ◌+◌, ◌≤◌, Text, Bool, true, false, ◌≡◌, refl, not, List, [], ◌∷◌, ◌++◌, Option, none, some,
  text_eq, ◌==◌, arith, All, ltb, map, Bool-cases, inl, inr, ◌⊎◌, if◌then◌else◌,
}
use nomad_csi_driver.Base.Map.{Map, lookup, has, lookup-insert, lookup-erase}
use nomad_csi_driver.Qnap.Reconciler.{
  Scene, TargetState, Targets, judge, judge_orphan, judge_all, forget_gone, sweep_targets,
}

module _ (sc : Scene) (grace : ℕ) (dead : Text → Bool) (P : Text → ℕ → Bool)
    (start : (iqn : Text) → dead iqn ≡ true → P iqn sc.now ≡ true) where
  -- Every timer is one of those that `P` allows.
  abbrev pub Timers : Map Text ℕ → Type 0
  Timers m = (iqn : Text) (t : ℕ) → lookup iqn m ≡ some t → P iqn t ≡ true

  -- A logout that is due: of an orphan whose timer ran out.
  abbrev pub Due : Text × Text → Type 0
  Due out = (t : ℕ) × (dead out.1 ≡ true) × (t + grace ≤ sc.now) × (P out.1 t ≡ true)

  orphan-Timers :
      (iqn : Text) (ts : TargetState) (since : Map Text ℕ) (o : Option ℕ)
      → dead iqn ≡ true
      → Timers since
      → Timers (judge_orphan sc grace iqn ts since o).0
  unfolding judge_orphan
  orphan-Timers iqn ts since none d h = λ j t f.
      ground (arith, start iqn d, h j t, lookup-insert iqn j sc.now since, text_eq.beq_iff iqn j)
  orphan-Timers iqn ts since (some first) d h =
      λ j t f. ground (arith, h j t, lookup-erase iqn j since)

  all-Due :
      (iqn : Text) (t : ℕ) (ps : Map Text (Unit {0}))
      → dead iqn ≡ true
      → t + grace ≤ sc.now
      → P iqn t ≡ true
      → All Due (map (λ p. (p.0, iqn)) ps)
  all-Due iqn t [] d late p = tt
  all-Due iqn t (q ∷ qs) d late p = ((t, d, late, p), all-Due iqn t qs d late p)

  orphan-Due :
      (iqn : Text) (ts : TargetState) (since : Map Text ℕ) (o : Option ℕ)
      → lookup iqn since ≡ o
      → dead iqn ≡ true
      → Timers since
      → All Due (judge_orphan sc grace iqn ts since o).1
  unfolding judge_orphan
  orphan-Due iqn ts since none f d h = tt
  orphan-Due iqn ts since (some first) f d h = elim (Bool-cases (ltb sc.now (first + grace))) [
    | inl e ↦ rw e tt
    | inr e ↦ rw e (all-Due iqn first ts.portals d (ground arith) (h iqn first f))
  ]

  judge-Timers :
      (iqn : Text) (ts : TargetState) (since : Map Text ℕ)
      → not ts.live ≡ dead iqn
      → Timers since
      → Timers (judge sc grace iqn ts since).0
  unfolding judge
  judge-Timers iqn ts since sound h = elim (Bool-cases ts.live) [
    | inl e ↦ rw e (λ j t f. ground (arith, h j t, lookup-erase iqn j since))
    | inr e ↦ rw e (orphan-Timers iqn ts since (lookup iqn since) (ground arith) h)
  ]

  judge-Due :
      (iqn : Text) (ts : TargetState) (since : Map Text ℕ)
      → not ts.live ≡ dead iqn
      → Timers since
      → All Due (judge sc grace iqn ts since).1
  unfolding judge
  judge-Due iqn ts since sound h = elim (Bool-cases ts.live) [
    | inl e ↦ rw e tt
    | inr e ↦ rw e (orphan-Due iqn ts since (lookup iqn since) refl (ground arith) h)
  ]

  All-append : (xs ys : List (Text × Text)) → All Due xs → All Due ys → All Due (xs ++ ys)
  All-append [] ys h k = k
  All-append (x ∷ xs) ys h k = (h.0, All-append xs ys h.1 k)

  abbrev pub Sound : Text × TargetState → Type 0
  Sound e = not e.1.live ≡ dead e.0

  judge_all-Timers :
      (ts : Targets) (since : Map Text ℕ)
      → All Sound ts
      → Timers since
      → Timers (judge_all sc grace ts since).0
  unfolding judge_all
  judge_all-Timers [] since sound h = h
  judge_all-Timers ((iqn, t) ∷ ts) since sound h =
      judge_all-Timers ts (judge sc grace iqn t since).0 sound.1
        (judge-Timers iqn t since sound.0 h)

  pub judge_all-Due :
      (ts : Targets) (since : Map Text ℕ)
      → All Sound ts
      → Timers since
      → All Due (judge_all sc grace ts since).1
  unfolding judge_all
  judge_all-Due [] since sound h = tt
  judge_all-Due ((iqn, t) ∷ ts) since sound h =
      All-append (judge sc grace iqn t since).1
        (judge_all sc grace ts (judge sc grace iqn t since).0).1 (judge-Due iqn t since sound.0 h)
        (judge_all-Due ts (judge sc grace iqn t since).0 sound.1
          (judge-Timers iqn t since sound.0 h))

  orphan_cleared :
      (j iqn : Text) (t : TargetState) (since : Map Text ℕ) (o : Option ℕ)
      → (iqn == j) ≡ false
      → lookup j since ≡ none
      → lookup j (judge_orphan sc grace iqn t since o).0 ≡ none
  unfolding judge_orphan
  orphan_cleared j iqn t since none other h = ground (arith, lookup-insert iqn j sc.now since)
  orphan_cleared j iqn t since (some first) other h = ground (arith, lookup-erase iqn j since)

  -- The loop leaves no timer of a target that is not an orphan.
  judge_cleared :
      (j iqn : Text) (t : TargetState) (since : Map Text ℕ)
      → dead j ≡ false
      → not t.live ≡ dead iqn
      → (lookup j since ≡ none) ⊎ ((iqn == j) ≡ true)
      → lookup j (judge sc grace iqn t since).0 ≡ none
  unfolding judge
  judge_cleared j iqn t since alive sound h = elim (Bool-cases t.live) [
    | inl e ↦ rw e (ground (arith, lookup-erase iqn j since))
    | inr e ↦ rw e (
        let other : (iqn == j) ≡ false = ground (arith, text_eq.beq_iff iqn j) in
        orphan_cleared j iqn t since (lookup iqn since) other (ground arith))
  ]

  judge_all_cleared :
      (j : Text) (ts : Targets) (since : Map Text ℕ)
      → dead j ≡ false
      → All Sound ts
      → (lookup j since ≡ none) ⊎ (has j ts ≡ true)
      → lookup j (judge_all sc grace ts since).0 ≡ none
  unfolding judge_all has lookup
  judge_all_cleared j [] since alive sound h = ground arith
  judge_all_cleared j ((iqn, t) ∷ ts) since alive sound h =
      judge_all_cleared j ts (judge sc grace iqn t since).0 alive sound.1 (elim h [
        | inl gone ↦ inl (judge_cleared j iqn t since alive sound.0 (inl gone))
        | inr there ↦ elim (Bool-cases (iqn == j)) [
          | inl e ↦ inl (judge_cleared j iqn t since alive sound.0 (inr e))
          | inr e ↦ inr (ground arith)
        ]
      ])

  lookup-forget :
      (j : Text) (ts : Targets) (m : Map Text ℕ)
      → lookup j (forget_gone sc grace ts m) ≡ (if has j ts then lookup j m else none)
  unfolding forget_gone lookup
  lookup-forget j ts [] = ground arith
  lookup-forget j ts ((i, t) ∷ m) = ground (arith, lookup-forget j ts m, text_eq.beq_iff i j)

  -- The sweep's timers are of orphans, and its logouts are due.
  pub sweep_targets-Timers :
      (ts : Targets) (since : Map Text ℕ)
      → All Sound ts
      → Timers since
      → (iqn : Text) (t : ℕ) → lookup iqn (sweep_targets sc grace ts since).0 ≡ some t
      → (dead iqn ≡ true) × (P iqn t ≡ true)
  unfolding sweep_targets
  sweep_targets-Timers ts since sound h iqn t f = ground (
    arith,
    lookup-forget iqn ts (judge_all sc grace ts since).0,
    judge_all-Timers ts since sound h iqn t,
    judge_all_cleared iqn ts since,
  )
