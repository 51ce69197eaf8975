-- ===== src/Qnap/Controller/Modify.antt =====
-- internal/driver/qnap/controller.go: ExpandVolume and CreateSnapshot act on the volume's own LUN.
use nomad_csi_driver.Base.{
  ℕ, ◌*◌, ℤ, pos, Bool, Text, Option, ◌≡◌, ◌≢◌, [], ◌∷◌, arith, text_eq, int_eq, Bool-cases, inl,
  inr, true, false, some, ◌==◌, beq_refl,
}
use nomad_csi_driver.Base.Map.{Map}
use nomad_csi_driver.Driver.Errors.{Result, ok, err, Io, lift, pure, continue, ◌>>=◌, ◌>>◌}
use nomad_csi_driver.Driver.Types.{CapacityRange, CreateSnapshotRequest}
use nomad_csi_driver.Qnap.Appliance.{Client, Lun, got_lun}
use nomad_csi_driver.Qnap.ExternalId.{ExternalId, parse_id}
use nomad_csi_driver.Qnap.Params.{gib, size_gib_exact}
use nomad_csi_driver.Qnap.Session.{State, in_session, get_lun, resize_lun, wait_for_resize}
use nomad_csi_driver.Qnap.Session
use nomad_csi_driver.Qnap.Session.Keeps.{Keeps, Keeps-bind, Keeps-pure, IsSteady, in_session-Keeps}
use nomad_csi_driver.Qnap.Session.Yields.{Post, in_session-Post}
use nomad_csi_driver.Qnap.Controller.{
  mapped, expand_volume, create_snapshot, ensure_lun_is_ours, same_lun, resize_body,
}
use nomad_csi_driver.Qnap.Controller.Safety.{IsSafe, last_seen}

module _ (cl : Client) (e : ExternalId) where
  -- Safe, and the LUN was last seen under the volume's name.
  abbrev Seen : State → Type 0
  Seen s = IsSafe e s.history × (last_seen e.lun_index s.history ≡ some e.lun_name)

  Seen-IsSteady : IsSteady Seen
  Seen-IsSteady = record { login = λ s r n h. h; reset = λ s h. h }

  resize_body-Seen : (n sess : ℕ) → Keeps Seen (resize_body cl e.lun_index n sess)
  unfolding resize_body resize_lun wait_for_resize
  resize_body-Seen n sess = record { at = λ s h. ground arith }

  snapshot-Seen :
      (name : Text) (sess : ℕ) → Keeps Seen (Session.create_snapshot cl sess e.lun_index name)
  unfolding Session.create_snapshot
  snapshot-Seen name sess = record { at = λ s h. ground arith }

  abbrev Safe : State → Type 0
  Safe s = IsSafe e s.history

  Safe-IsSteady : IsSteady Safe
  Safe-IsSteady = record { login = λ s r n h. h; reset = λ s h. h }

  get_lun-Safe : (sess : ℕ) → Keeps Safe (get_lun cl sess e.lun_index)
  unfolding get_lun
  get_lun-Safe sess = record { at = λ s h. h }

  -- A LUN that was fetched was seen under the name that it has.
  abbrev Fetched : Lun → State → Type 0
  Fetched l s = last_seen e.lun_index s.history ≡ some l.name

  fetched :
      (r : Result Lun) (s : State)
      → Post Fetched (r, record s { history = got_lun e.lun_index r ∷ s.history })
  fetched (ok l) s = ground (arith, beq_refl e.lun_index)
  fetched (err x) s = tt

  get_lun-Fetched : (n : ℕ) (s : State) → Post Fetched (get_lun cl n e.lun_index s)
  unfolding get_lun
  get_lun-Fetched n s = fetched (cl.get_lun s.history n e.lun_index) s

  -- After the check: either it failed, or the LUN was seen under the volume's name.
  abbrev Checked : Result (Unit {0}) × State → Type 0
  Checked r = elim r.0 [ ok _ ↦ Seen r.1 | err x ↦ Safe r.1 ]

  same_lun-Checked :
      (r : Result Lun × State) → Post Fetched r → Safe r.1 → Checked (same_lun cl e r.0, r.1)
  same_lun-Checked (err x, s) q h = h
  same_lun-Checked (ok l, s) q h = elim (Bool-cases (l.name == e.lun_name)) [
    | inl same ↦ rw same (h, ground (arith, text_eq.beq_iff l.name e.lun_name))
    | inr other ↦ rw other h
  ]

  ensure-Checked : (s : State) → e.lun_name ≢ [] → Safe s → Checked (ensure_lun_is_ours cl e s)
  unfolding ensure_lun_is_ours
  ensure-Checked s named h =
      let n : (e.lun_name == []) ≡ false = ground (arith, text_eq.beq_iff e.lun_name []) in
      let fetch = λ (sess : ℕ). get_lun cl sess e.lun_index in
      rw n (
        same_lun-Checked (in_session cl fetch s)
          (in_session-Post Fetched cl fetch get_lun-Fetched s)
          ((in_session-Keeps cl Safe Safe-IsSteady fetch get_lun-Safe).at s h))

  -- What follows the check.
  then-Safe :
      {B : Type 0} (r : Result (Unit {0}) × State) (m : Io State B)
      → Checked r
      → Keeps Seen m
      → Safe (continue r.0 (λ _. m) r.1).1
  then-Safe (ok _, s) m h keeps = (keeps.at s h).0
  then-Safe (err x, s) m h keeps = h

  mapped-Seen : {A : Type 0} (m : Io State A) → Keeps Seen m → Keeps Seen (mapped m)
  mapped-Seen m keeps = record { at = keeps.at }

module _ (cl : Client) (e : ExternalId) (s : State) (named : e.lun_name ≢ [])
    (h : IsSafe e s.history) where
  -- From a history that is safe for a volume whose id has a LUN name, ExpandVolume resizes no LUN but
  -- the one at the volume's index, and that only while it was last seen under the volume's name, and
  -- unmaps or deletes nothing but what is safe for the volume.
  pub expand_volume-IsSafe :
      (id : Text) (cr : CapacityRange) (secrets : Map Text Text)
      → parse_id id ≡ ok e
      → IsSafe e (expand_volume cl id cr secrets s).1.history
  unfolding expand_volume
  expand_volume-IsSafe id cr secrets parsed = rw parsed (sized (size_gib_exact cr))
    where
      rest : ℕ → Io State (ℤ × Bool)
      rest n = do mapped (in_session cl (resize_body cl e.lun_index n)); pure (pos (n * gib), true)

      rest-Seen : (n : ℕ) → Keeps (Seen cl e) (rest n)
      rest-Seen n =
          Keeps-bind _ _
            (mapped-Seen cl e _
              (in_session-Keeps cl (Seen cl e) (Seen-IsSteady cl e) _ (resize_body-Seen cl e n)))
            (λ u. Keeps-pure _)

      sized :
          (r : Result ℕ)
          → IsSafe e ((lift r >>= λ n. ensure_lun_is_ours cl e >>= λ u. rest n) s).1.history
      sized (err x) = h
      sized (ok n) =
          then-Safe cl e (ensure_lun_is_ours cl e s) (rest n) (ensure-Checked cl e s named h)
            (rest-Seen n)

  -- CreateSnapshot snapshots no LUN but the one at the volume's index, and that only while it was
  -- last seen under the volume's name.
  pub create_snapshot-IsSafe :
      (parse_ansic : Text → Option ℤ) (r : CreateSnapshotRequest)
      → parse_id r.source_volume_id ≡ ok e
      → IsSafe e (create_snapshot cl parse_ansic r s).1.history
  unfolding create_snapshot
  create_snapshot-IsSafe parse_ansic r parsed = rw parsed (
      then-Safe cl e (ensure_lun_is_ours cl e s) _ (ensure-Checked cl e s named h) (
        Keeps-bind _ _
          (mapped-Seen cl e _
            (in_session-Keeps cl (Seen cl e) (Seen-IsSteady cl e) _ (snapshot-Seen cl e _)))
          (λ u. Keeps-pure _)))
