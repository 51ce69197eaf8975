-- ===== src/Qnap/Create/Rollback.antt =====
-- internal/driver/qnap/controller.go: CreateVolume changes nothing on the appliance but what it made.
use nomad_csi_driver.Base.{
  ℕ, ℤ, Text, Bool, true, ◌≡◌, List, [], ◌∷◌, Option, none, some, arith, int_eq, beq_refl, text_eq,
}
use nomad_csi_driver.Driver.Errors.{Result, ok, err, Io, continue, ◌>>=◌, pure}
use nomad_csi_driver.Driver.Types.{Volume, ContentSource, CreateVolumeRequest}
use nomad_csi_driver.Qnap.Appliance.{
  Client, Event, History, NewLun, LunRequest, created_lun, created_target,
}
use nomad_csi_driver.Qnap.Params.{QnapConfig, VolumeParams}
use nomad_csi_driver.Qnap.Session.{State, in_session, read_clock, record_call}
use nomad_csi_driver.Qnap.Session
use nomad_csi_driver.Qnap.Session.Keeps.{Keeps, keeps_rules, Keeps-bind, Keeps-pure}
use nomad_csi_driver.Qnap.Session.Yields.{Post, in_session-Post}
use nomad_csi_driver.Qnap.Controller.{mapped, attempt, map_qnap_error}
use nomad_csi_driver.Qnap.Create.Own.{IsOwn, made_lun, made_target}
use nomad_csi_driver.Qnap.Create.{
  create_volume, create_new, finish_create, provision_lun, copy_then_grow, create_mapped,
  target_or_new, resolve_target, or_create,
}
use nomad_csi_driver.Qnap.Create.Calls.{attempt-Keeps, given_rules, Keeps-learn}
use nomad_csi_driver.Qnap.Create.Steps.{
  make_fresh-Keeps, grow-Keeps, finish-Keeps, find_existing-Keeps,
}
use nomad_csi_driver.Qnap.Create.Calls.{Given}

module _ (cl : Client) (cfg : QnapConfig) where
  created :
      (r : LunRequest) (a : Result ℤ) (s : State)
      → Post (λ i s. made_lun i s.history ≡ true) (record_call (created_lun r) a s)
  created r (ok i) s = ground (arith, beq_refl i)
  created r (err e) s = tt

  create_lun-Post :
      (r : LunRequest) (n : ℕ) (s : State)
      → Post (λ i s. made_lun i s.history ≡ true) (Session.create_lun cl n r s)
  unfolding Session.create_lun
  create_lun-Post r n s = created r (cl.create_lun s.history n r) s

  created_target_ok :
      (name : Text) (ifs : List ℤ) (a : Result ℤ) (s : State)
      → Post (λ i s. made_target i s.history ≡ true) (record_call (created_target name ifs) a s)
  created_target_ok name ifs (ok i) s = ground (arith, beq_refl i)
  created_target_ok name ifs (err e) s = tt

  create_target-Post :
      (name : Text) (ifs : List ℤ) (n : ℕ) (s : State)
      → Post (λ i s. made_target i s.history ≡ true) (Session.create_target cl n name ifs s)
  unfolding Session.create_target
  create_target-Post name ifs n s =
      created_target_ok name ifs (cl.create_target s.history n name ifs) s

  module _ {A : Type 0} (Q : A → State → Type 0) where
    mapped_answer :
        (r : Result A) (t : State)
        → Post Q (r, t)
        → Post Q (elim r [ ok a ↦ ok a | err e ↦ err (map_qnap_error e) ], t)
    mapped_answer (ok a) t h = h
    mapped_answer (err e) t h = h

    mapped-Post : (m : Io State A) (s : State) → Post Q (m s) → Post Q (mapped m s)
    mapped-Post m s h = mapped_answer (m s).0 (m s).1 h

  pure-Post :
      {A B : Type 0} (Q : B → State → Type 0) (f : A → B) (r : Result A) (t : State)
      → Post (λ a s. Q (f a) s) (r, t)
      → Post Q (continue r (λ a. pure (f a)) t)
  pure-Post Q f (ok a) t h = h
  pure-Post Q f (err e) t h = h

  create_mapped-Post :
      (r : LunRequest) (s : State)
      → Post (λ i s. made_lun i s.history ≡ true) (create_mapped cl cfg r s)
  unfolding create_mapped
  create_mapped-Post r s =
      let made = λ (i : ℤ) (s : State). made_lun i s.history ≡ true in
      let call = λ (n : ℕ). Session.create_lun cl n r in
      mapped-Post made (in_session cl call) s (in_session-Post made cl call (create_lun-Post r) s)

  -- A target that CreateVolume calls its own is one that it made.
  abbrev IsOwnTarget : ℤ × Bool → History → Type 0
  IsOwnTarget t h = t.1 ≡ true → made_target t.0 h ≡ true

  target_or_new-Post :
      (name : Text) (o : Option ℤ) (s : State)
      → Post (λ t s. IsOwnTarget t s.history) (target_or_new cl cfg name o s)
  unfolding target_or_new
  target_or_new-Post name (some i) s = λ e. ground arith
  target_or_new-Post name none s =
      let made = λ (i : ℤ) (s : State). IsOwnTarget (i, true) s.history in
      let call = λ (n : ℕ). Session.create_target cl n name cfg.interfaces in
      let asked = mapped (in_session cl call) s in
      pure-Post (λ t s. IsOwnTarget t s.history) (λ i. (i, true)) asked.0 asked.1
        (mapped-Post made (in_session cl call) s (
          in_session-Post made cl call
            (λ n t.
              weaken (Session.create_target cl n name cfg.interfaces t)
                (create_target-Post name cfg.interfaces n t))
            s))
    where
      weaken :
          (r : Result ℤ × State)
          → Post (λ i s. made_target i s.history ≡ true) r
          → Post (λ i s. IsOwnTarget (i, true) s.history) r
      weaken (ok i, t) h = λ e. h
      weaken (err e, t) h = tt

  resolve_target-Post :
      (name : Text) (vp : VolumeParams) (s : State)
      → Post (λ t s. IsOwnTarget t s.history) (resolve_target cl cfg name vp s)
  unfolding resolve_target
  resolve_target-Post name vp s = target_or_new-Post name vp.target_index s

  module _ (K : History → Type 0) (mono : (e : Event) (h : History) → K h → K (e ∷ h)) where
    create_mapped-Keeps : (r : LunRequest) → Keeps (Given cl K mono) (create_mapped cl cfg r)
    unfolding create_mapped
    create_mapped-Keeps r = search (given_rules)

    target_or_new-Keeps :
        (name : Text) (o : Option ℤ) → Keeps (Given cl K mono) (target_or_new cl cfg name o)
    unfolding target_or_new
    target_or_new-Keeps name (some i) = search (given_rules)
    target_or_new-Keeps name none = search (given_rules)

    resolve_target-Keeps :
        (name : Text) (vp : VolumeParams) → Keeps (Given cl K mono) (resolve_target cl cfg name vp)
    unfolding resolve_target
    resolve_target-Keeps name vp = target_or_new-Keeps name vp.target_index

    copy-Keeps :
        (vp : VolumeParams) (name : Text) (t : ℤ) (n : ℕ) (origin : NewLun)
        → Keeps (Given cl K mono) (copy_then_grow cl cfg vp name t n origin)
    unfolding copy_then_grow
    copy-Keeps vp name t n origin =
        Keeps-learn cl K mono (λ i h. made_lun i h ≡ true) _ _ (create_mapped-Keeps _)
          (create_mapped-Post _)
          (λ i.
            Keeps-bind _ _
              (grow-Keeps cl (λ h. K h × (made_lun i h ≡ true))
                (λ e h k. (mono e h k.0, ground arith)) cfg i n (λ h k. k.1))
              (λ u. Keeps-pure i))

    provision-Keeps :
        (src : Option ContentSource) (vp : VolumeParams) (name : Text) (n : ℕ) (t : ℤ)
        → Keeps (Given cl K mono) (provision_lun cl cfg src vp name n t)
    unfolding provision_lun
    provision-Keeps none vp name n t = make_fresh-Keeps cl K mono cfg vp name t n
    provision-Keeps (some src) vp name n t = search (given_rules, copy-Keeps, make_fresh-Keeps)

  module _ (K : History → Type 0) (mono : (e : Event) (h : History) → K h → K (e ∷ h)) where
    create_new-Keeps :
        (r : CreateVolumeRequest) (vp : VolumeParams) (name : Text) (n : ℕ)
        → Keeps (Given cl K mono) (create_new cl cfg r vp name n)
    unfolding create_new
    create_new-Keeps r vp name n =
        Keeps-learn cl K mono IsOwnTarget _ _ (resolve_target-Keeps K mono name vp)
          (resolve_target-Post name vp) (λ t. made t)
      where
        more :
            (t : ℤ × Bool) (e : Event) (h : History)
            → K h × IsOwnTarget t h
            → K (e ∷ h) × IsOwnTarget t (e ∷ h)
        more t e h k = (mono e h k.0, λ own. let was = k.1 own in ground arith)

        made :
            (t : ℤ × Bool)
            → Keeps (Given cl (λ h. K h × IsOwnTarget t h) (more t)) (
                attempt (provision_lun cl cfg r.content_source vp name n t.0) >>= λ lun.
                finish_create cl cfg r.content_source vp n t.0 t.1 lun)
        made t =
            Keeps-bind _ _
              (attempt-Keeps cl (λ h. K h × IsOwnTarget t h) (more t) _
                (provision-Keeps (λ h. K h × IsOwnTarget t h) (more t) r.content_source vp name n
                  t.0))
              (λ lun.
                finish-Keeps cl (λ h. K h × IsOwnTarget t h) (more t) cfg r.content_source vp n t.0
                  t.1 lun (λ own h k. k.1 own))

    or_create-Keeps :
        (v : Option Volume) (m : Io State Volume)
        → Keeps (Given cl K mono) m
        → Keeps (Given cl K mono) (or_create cl cfg v m)
    or_create-Keeps (some v) m k = Keeps-pure v
    or_create-Keeps none m k = k

    create_volume-Keeps :
        (r : CreateVolumeRequest) → Keeps (Given cl K mono) (create_volume cl cfg r)
    unfolding create_volume
    create_volume-Keeps r =
        search (keeps_rules, or_create-Keeps, find_existing-Keeps, create_new-Keeps)

  -- However CreateVolume ends, with a volume or with an error at any call, the only calls by which
  -- it changed or deleted something on the appliance were resizes of LUNs and deletions of targets
  -- that were made in the same run.
  pub create_volume-IsOwn :
      (r : CreateVolumeRequest) (s : State)
      → s.history ≡ []
      → IsOwn (create_volume cl cfg r s).1.history
  create_volume-IsOwn r s start =
      ((create_volume-Keeps (λ h. Unit {0}) (λ e h k. tt) r).at s (rw start tt, tt)).0
