-- ===== src/Qnap/Attach/Cleanup.antt =====
-- internal/driver/qnap/node.go: a failed attach logs out again.
use nomad_csi_driver.Base.{
  Text, Bool, true, false, not, ◌&&◌, ◌≡◌, refl, List, [], ◌∷◌, codes, text_eq, ◌==◌, arith,
  if◌then◌else◌, subst,
}
use nomad_csi_driver.Driver.Errors.{Error, Result, ok, err, Io, pure, continue, ◌>>=◌}
use nomad_csi_driver.Host.Mounts.{History, called, run, call, run_command}
use nomad_csi_driver.Host.Iscsi.{node_args, logout}
use nomad_csi_driver.Host.Multipath.{flush_map}
use nomad_csi_driver.Qnap.NodeState.{QnapNode}
use nomad_csi_driver.Qnap.Attach.{
  AttachIdentity, ignored, log_out, cleanup_attach, undo, or_undo, map_device, attach_active,
  login_portals, attach_at,
}

-- The latest calls, the last one first, are the logouts from these portals, whatever they answered.
abbrev pub LoggedOut : Text → List Text → History → History → Type 0
LoggedOut iqn [] before h = h ≡ before
LoggedOut iqn (p ∷ ps) before h =
    (r : Result Text) × LoggedOut iqn ps
      (called (run (node_args p iqn (codes "--logout"))) r ∷ before) h

module _ (n : QnapNode) (iqn : Text) where
  log_out-LoggedOut :
      (portals : List Text) (h : History) → LoggedOut iqn portals h (log_out n iqn portals h).1
  unfolding log_out logout run_command call
  log_out-LoggedOut [] h = refl
  log_out-LoggedOut (p ∷ ps) h =
      (n.host.answer h (run (node_args p iqn (codes "--logout"))), log_out-LoggedOut ps _)

  -- Some history before the logouts.
  abbrev pub EndsLoggedOut : List Text → History → Type 0
  EndsLoggedOut portals h = (before : History) × LoggedOut iqn portals before h

  cleanup-EndsLoggedOut :
      (portals : List Text) (w : Text) (h : History)
      → EndsLoggedOut portals (cleanup_attach n portals iqn w h).1
  unfolding cleanup_attach
  cleanup-EndsLoggedOut portals w h = flushed (n.use_multipath && not (w == []))
    where
      flushed :
          (b : Bool)
          → EndsLoggedOut portals
              (((if b then ignored (flush_map n.host w) else pure tt) >>= λ x.
                  log_out n iqn portals)
                h).1
      flushed true = (_, log_out-LoggedOut portals _)
      flushed false = (h, log_out-LoggedOut portals h)

  -- A step with a cleanup that fails has logged out.
  record CleansUp {A : Type 0} (portals : List Text) (m : Io History A) : Type 0 where
    at : (h : History) (e : Error) → (m h).0 ≡ err e → EndsLoggedOut portals (m h).1

  or_undo-CleansUp :
      {A : Type 0} (portals : List Text) (w : Text) (m : Io History A)
      → CleansUp portals (or_undo n (cleanup_attach n portals iqn w) m)
  unfolding or_undo undo
  or_undo-CleansUp {A} portals w m = record { at = λ h e. undone (m h) e }
    where
      undone :
          (r : Result A × History) (e : Error)
          → (undo n (cleanup_attach n portals iqn w) r.0 r.1).0 ≡ err e
          → EndsLoggedOut portals (undo n (cleanup_attach n portals iqn w) r.0 r.1).1
      undone (ok a, h) e q = absurd (ground arith)
      undone (err x, h) e q = cleanup-EndsLoggedOut portals w h

  bind-CleansUp :
      {A B : Type 0} (portals : List Text) (m : Io History A) (f : A → Io History B)
      → CleansUp portals m
      → ((a : A) → CleansUp portals (f a))
      → CleansUp portals (m >>= f)
  bind-CleansUp {A} {B} portals m f km kf = record { at = λ h e. continued (m h) e (km.at h) }
    where
      continued :
          (r : Result A × History) (e : Error)
          → ((x : Error) → r.0 ≡ err x → EndsLoggedOut portals r.1)
          → (continue r.0 f r.1).0 ≡ err e
          → EndsLoggedOut portals (continue r.0 f r.1).1
      continued (ok a, h) e k q = (kf a).at h e q
      continued (err x, h) e k q = k x refl

  pure-CleansUp : {A : Type 0} (portals : List Text) (a : A) → CleansUp portals (pure a)
  pure-CleansUp portals a = record { at = λ h e q. absurd (ground arith) }

  if-CleansUp :
      {A : Type 0} (portals : List Text) (b : Bool) (m k : Io History A)
      → CleansUp portals m
      → CleansUp portals k
      → CleansUp portals (if b then m else k)
  if-CleansUp portals true m k cm ck = cm
  if-CleansUp portals false m k cm ck = ck

module _ (n : QnapNode) (active : List Text) (id : AttachIdentity) where
  map_device-CleansUp : (raw : Text) → CleansUp n id.iqn active (map_device n active id raw)
  unfolding map_device
  map_device-CleansUp raw = search (bind-CleansUp, or_undo-CleansUp, pure-CleansUp)

  attach_active-CleansUp : CleansUp n id.iqn active (attach_active n active id)
  unfolding attach_active
  attach_active-CleansUp =
      search (bind-CleansUp, or_undo-CleansUp, pure-CleansUp, if-CleansUp, map_device-CleansUp)

-- An attach that has logged in at some portals and then fails, because a device or its multipath map did
-- not appear or for any other reason, ends with a logout from each of those portals.
pub attach_at-cleans :
    (n : QnapNode) (id : AttachIdentity) (active : List Text) (h : History) (e : Error)
    → (login_portals n id.portals id.iqn h).0 ≡ ok active
    → (attach_at n id h).0 ≡ err e
    → EndsLoggedOut n id.iqn active (attach_at n id h).1
unfolding attach_at
attach_at-cleans n id active h e = logged_in (login_portals n id.portals id.iqn h)
  where
    logged_in :
        (r : Result (List Text) × History)
        → r.0 ≡ ok active
        → (continue r.0 (λ ps. attach_active n ps id) r.1).0 ≡ err e
        → EndsLoggedOut n id.iqn active (continue r.0 (λ ps. attach_active n ps id) r.1).1
    logged_in (ok ps, h') p q =
        let same : ps ≡ active = ground arith in
        subst (λ l. EndsLoggedOut n id.iqn l (attach_active n ps id h').1) same
          ((attach_active-CleansUp n ps id).at h' e q)
    logged_in (err x, h') p q = absurd (ground arith)
