-- ===== src/Qnap/Reconciler/Grouping.antt =====
-- internal/driver/qnap/reconciler.go: what the grouping of sessions by target tells of a target.
use nomad_csi_driver.Base.{
  Text, Bool, true, false, ◌≡◌, refl, ◌&&◌, ◌||◌, List, [], ◌∷◌, some, text_eq, ◌==◌, arith, All,
  Bool-cases, inl, inr, ap, sym, ◌∙◌, not, is_some, if◌then◌else◌,
}
use nomad_csi_driver.Base.Map.{
  lookup, has, IsDistinct, insert-IsDistinct, All-lookup, lookup-insert, has-insert,
}
use nomad_csi_driver.Qnap.Portal.{portal_owned}
use nomad_csi_driver.Qnap.Reconciler.{
  Scene, IscsiSession, TargetState, Targets, group, keeps_alive, note_session, with_session,
  live_of,
}

module _ (sc : Scene) (srcs : List Text) where
  -- One of our sessions of the target keeps it alive.
  abbrev pub is_alive : Text → List IscsiSession → Bool
  is_alive iqn [] = false
  is_alive iqn (s ∷ ss) =
      portal_owned s.portal sc.ours && s.iqn == iqn && keeps_alive sc srcs s || is_alive iqn ss

  -- One of the sessions is ours and of the target.
  abbrev pub is_seen : Text → List IscsiSession → Bool
  is_seen iqn [] = false
  is_seen iqn (s ∷ ss) = portal_owned s.portal sc.ours && s.iqn == iqn || is_seen iqn ss

  note-live :
      (iqn : Text) (s : IscsiSession) (ts : Targets)
      → live_of sc (lookup iqn (note_session sc srcs s ts))
        ≡ live_of sc (lookup iqn ts)
          || portal_owned s.portal sc.ours && s.iqn == iqn && keeps_alive sc srcs s
  unfolding note_session
  note-live iqn s ts = elim (Bool-cases (portal_owned s.portal sc.ours)) [
    | inl e ↦ rw (e, lookup-insert s.iqn iqn (with_session sc srcs s (lookup s.iqn ts)) ts) same
    | inr e ↦ ground arith
  ]
    where
      same :
          live_of sc (
            if s.iqn == iqn then some (with_session sc srcs s (lookup s.iqn ts)) else lookup iqn ts)
          ≡ live_of sc (lookup iqn ts) || s.iqn == iqn && keeps_alive sc srcs s
      same = elim (Bool-cases (s.iqn == iqn)) [
        | inl e ↦ let path = text_eq.beq_iff s.iqn iqn in rw (e, path.0 e) refl
        | inr e ↦ rw e (ground arith)
      ]

  note-seen :
      (iqn : Text) (s : IscsiSession) (ts : Targets)
      → has iqn (note_session sc srcs s ts)
        ≡ has iqn ts || portal_owned s.portal sc.ours && s.iqn == iqn
  unfolding note_session
  note-seen iqn s ts =
      ground (arith, has-insert s.iqn iqn (with_session sc srcs s (lookup s.iqn ts)) ts)

  note-IsDistinct :
      (s : IscsiSession) (ts : Targets) → IsDistinct ts → IsDistinct (note_session sc srcs s ts)
  unfolding note_session
  note-IsDistinct s ts d =
      ground (arith, insert-IsDistinct s.iqn (with_session sc srcs s (lookup s.iqn ts)) ts d)

  group-IsDistinct :
      (ss : List IscsiSession) (ts : Targets) → IsDistinct ts → IsDistinct (group sc srcs ss ts)
  unfolding group
  group-IsDistinct [] ts d = d
  group-IsDistinct (s ∷ ss) ts d =
      group-IsDistinct ss (note_session sc srcs s ts) (note-IsDistinct s ts d)

  group-live :
      (iqn : Text) (ss : List IscsiSession) (ts : Targets)
      → live_of sc (lookup iqn (group sc srcs ss ts))
        ≡ live_of sc (lookup iqn ts) || is_alive iqn ss
  unfolding group
  group-live iqn [] ts = ground arith
  group-live iqn (s ∷ ss) ts =
      ground (arith, group-live iqn ss (note_session sc srcs s ts), note-live iqn s ts)

  pub group-seen :
      (iqn : Text) (ss : List IscsiSession) (ts : Targets)
      → has iqn (group sc srcs ss ts) ≡ has iqn ts || is_seen iqn ss
  unfolding group
  group-seen iqn [] ts = ground arith
  group-seen iqn (s ∷ ss) ts =
      ground (arith, group-seen iqn ss (note_session sc srcs s ts), note-seen iqn s ts)

  -- The target of an entry is not live exactly if our sessions show it as an orphan.
  abbrev pub IsSound : List IscsiSession → Text × TargetState → Type 0
  IsSound ss e = not e.1.live ≡ (is_seen e.0 ss && not (is_alive e.0 ss))

  pub group-IsSound : (ss : List IscsiSession) → All (IsSound ss) (group sc srcs ss [])
  unfolding lookup has
  group-IsSound ss =
      All-lookup (IsSound ss) (group sc srcs ss []) (group-IsDistinct ss [] tt) (λ iqn t found.
        let live : t.live ≡ is_alive iqn ss = ap (live_of sc) (sym found) ∙ group-live iqn ss [] in
        let seen : true ≡ is_seen iqn ss = ap is_some (sym found) ∙ group-seen iqn ss [] in
        rw (live, sym seen) refl)
