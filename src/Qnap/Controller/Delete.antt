-- ===== src/Qnap/Controller/Delete.antt =====
-- internal/driver/qnap/controller.go: DeleteVolume never touches what another volume holds.
use nomad_csi_driver.Base.{
  ℕ, Text, ◌≡◌, ◌≢◌, List, [], ◌∷◌, arith, text_eq, int_eq, Bool-cases, inl, inr, true, false, some,
  ◌==◌, beq_refl,
}
use nomad_csi_driver.Base.Map.{Map}
use nomad_csi_driver.Driver.Errors.{Result, ok, err, continue, ◌>>=◌}
use nomad_csi_driver.Qnap.Appliance.{
  Client, Lun, Target, QnapSnapshot, History, got_lun, got_target, listed_snapshots,
}
use nomad_csi_driver.Qnap.ExternalId.{ExternalId, parse_id}
use nomad_csi_driver.Qnap.Session.{
  State, record_call, get_lun, get_target, list_snapshots, unmap_lun, delete_lun, wait_for_lun_gone,
  delete_target,
}
use nomad_csi_driver.Qnap.Session.Keeps.{Keeps, IsSteady, in_session-Keeps}
use nomad_csi_driver.Qnap.Controller.{
  alias_is, mapped, delete_volume, delete_body, destroy_if_ours, destroy, after_delete, lun_gone,
  drop_target, target_is_ours,
}
use nomad_csi_driver.Qnap.Controller.Safety.{IsSafe, last_seen, last_alias, last_snapshots}

module _ (cl : Client) (e : ExternalId) where
  abbrev Safe : State → Type 0
  Safe s = IsSafe e s.history

  Safe-IsSteady : IsSteady Safe
  Safe-IsSteady = record { login = λ s r n h. h; reset = λ s h. h }

  after_delete-Safe : (sess : ℕ) (r : Result Unit) → Keeps Safe (after_delete cl sess e r)
  unfolding after_delete wait_for_lun_gone lun_gone get_lun
  after_delete-Safe sess (ok _) = record { at = λ s h. h }
  after_delete-Safe sess (err x) = record { at = λ s h. ground arith }

  -- With the LUN seen by its name and no snapshots listed.
  destroy-Safe :
      (sess : ℕ) (snaps : List QnapSnapshot) (s : State)
      → last_seen e.lun_index s.history ≡ some e.lun_name
      → last_snapshots e.lun_index s.history ≡ some snaps
      → Safe s
      → Safe (destroy cl sess e snaps s).1
  unfolding destroy unmap_lun delete_lun
  destroy-Safe sess [] s seen listed h = (after_delete-Safe sess _).at _ (ground arith)
  destroy-Safe sess (x ∷ xs) s seen listed h = h

  listed-Safe :
      (sess : ℕ) (r : Result (List QnapSnapshot)) (s : State)
      → last_seen e.lun_index s.history ≡ some e.lun_name
      → Safe s
      → Safe ((mapped (record_call (listed_snapshots e.lun_index) r) >>= destroy cl sess e) s).1
  listed-Safe sess (err x) s seen h = h
  listed-Safe sess (ok snaps) s seen h =
      destroy-Safe sess snaps _ seen (ground (arith, beq_refl e.lun_index)) h

  destroy_if_ours-Safe :
      (sess : ℕ) (l : Lun) (s : State)
      → e.lun_name ≢ []
      → last_seen e.lun_index s.history ≡ some l.name
      → Safe s
      → Safe (destroy_if_ours cl sess e (ok l) s).1
  unfolding destroy_if_ours list_snapshots
  destroy_if_ours-Safe sess l s named seen h = elim (Bool-cases (l.name == [])) [
    | inl gone ↦ rw gone h
    | inr there ↦ elim (Bool-cases (l.name == e.lun_name)) [
      | inr other ↦
          let n : (e.lun_name == []) ≡ false = ground (arith, text_eq.beq_iff e.lun_name []) in
          rw (there, n, other) h
      | inl ours ↦
          let n : (e.lun_name == []) ≡ false = ground (arith, text_eq.beq_iff e.lun_name []) in
          rw (there, n, ours)
            (listed-Safe sess (cl.list_snapshots s.history sess e.lun_index) s
              (ground (arith, text_eq.beq_iff l.name e.lun_name)) h)
    ]
  ]

  last_alias-got_target :
      (r : Result Target) (h : History)
      → alias_is e.lun_name r ≡ true
      → last_alias e.target_index (got_target e.target_index r ∷ h) ≡ some e.lun_name
  last_alias-got_target (ok t) h same =
      ground (arith, beq_refl e.target_index, text_eq.beq_iff t.alias e.lun_name)
  last_alias-got_target (err x) h same = cc

  drop_target-Safe : (sess : ℕ) → Keeps Safe (drop_target cl sess e)
  unfolding drop_target target_is_ours get_target delete_target
  drop_target-Safe sess = record {
    at = λ s h.
        ground
          (arith, last_alias-got_target (cl.get_target s.history sess e.target_index) s.history);
  }

  then_drop-Safe :
      (sess : ℕ) (r : Result Unit × State)
      → Safe r.1
      → Safe (continue r.0 (λ _. drop_target cl sess e) r.1).1
  then_drop-Safe sess (ok _, s) h = (drop_target-Safe sess).at s h
  then_drop-Safe sess (err x, s) h = h

  checked-Safe :
      (sess : ℕ) (r : Result Lun) (s : State)
      → e.lun_name ≢ []
      → Safe s
      → Safe
          (destroy_if_ours cl sess e r (record s { history = got_lun e.lun_index r ∷ s.history })).1
  checked-Safe sess (ok l) s named h =
      destroy_if_ours-Safe sess l _ named (ground (arith, beq_refl e.lun_index)) h
  checked-Safe sess (err x) s named h = unfold destroy_if_ours in h

  delete_body-Safe : (sess : ℕ) → e.lun_name ≢ [] → Keeps Safe (delete_body cl e sess)
  unfolding delete_body get_lun
  delete_body-Safe sess named = record {
    at = λ s h.
        let lun = cl.get_lun s.history sess e.lun_index in
        let seen = record s { history = got_lun e.lun_index lun ∷ s.history } in
        then_drop-Safe sess (destroy_if_ours cl sess e lun seen) (checked-Safe sess lun s named h);
  }

-- Whatever the appliance answers, however it fails and whenever the session is renewed: from a history
-- that is safe for it, DeleteVolume of a volume whose id has a LUN name deletes and unmaps only the LUN
-- at the volume's index, after the latest answers about that showed the volume's name and no snapshots,
-- and deletes only a target of the volume's own, after the latest answer about that showed the volume's
-- name as its alias.
pub delete_volume-IsSafe :
    (cl : Client) (id : Text) (secrets : Map Text Text) (e : ExternalId) (s : State)
    → parse_id id ≡ ok e
    → e.lun_name ≢ []
    → IsSafe e s.history
    → IsSafe e (delete_volume cl id secrets s).1.history
unfolding delete_volume
delete_volume-IsSafe cl id secrets e s parsed named h = rw parsed (
    (in_session-Keeps cl (Safe cl e) (Safe-IsSteady cl e) (delete_body cl e)
        (λ n. delete_body-Safe cl e n named)).at
      s h)
