-- ===== src/Qnap/Controller/Unchecked.antt =====
-- internal/driver/qnap/controller.go: a DeleteVolume that cannot look at its LUN reports success.
use nomad_csi_driver.Base.{ℕ, suc, Text, ◌≡◌, [], ◌∷◌, arith, text_eq, int_eq, true}
use nomad_csi_driver.Base.Map.{Map}
use nomad_csi_driver.Driver.Errors.{Error, ok, err}
use nomad_csi_driver.Qnap.Appliance.{Client, History, got_lun, deleted_lun}
use nomad_csi_driver.Qnap.ExternalId.{ExternalId, parse_id}
use nomad_csi_driver.Qnap.Session.{
  State, in_session, get_session, get_lun, get_target, delete_target,
}
use nomad_csi_driver.Qnap.Controller.{
  delete_volume, delete_body, destroy_if_ours, drop_target, target_is_ours,
}

-- How often DeleteLUN was called.
abbrev pub deletions : History → ℕ
deletions [] = 0
deletions (deleted_lun i r ∷ h) = suc (deletions h)
deletions (_ ∷ h) = deletions h

drop_target_ok :
    (cl : Client) (sess : ℕ) (e : ExternalId) (s : State)
    → ((drop_target cl sess e s).0 ≡ ok tt)
      × (deletions (drop_target cl sess e s).1.history ≡ deletions s.history)
unfolding drop_target target_is_ours get_target delete_target
drop_target_ok cl sess e s = ground arith

-- When GetLUN fails, for an expired session or any other reason, DeleteVolume with a cached session
-- answers success without a call of DeleteLUN, and it does not log in again.
pub delete_volume_unchecked :
    (cl : Client) (id : Text) (secrets : Map Text Text) (e : ExternalId) (x : Error) (s : State)
    → parse_id id ≡ ok e
    → cl.valid s.session ≡ true
    → cl.get_lun s.history s.session e.lun_index ≡ err x
    → ((delete_volume cl id secrets s).0 ≡ ok tt)
      × (deletions (delete_volume cl id secrets s).1.history ≡ deletions s.history)
unfolding delete_volume in_session get_session delete_body destroy_if_ours get_lun
delete_volume_unchecked cl id secrets e x s parsed cached failed = ground (
  arith,
  drop_target_ok cl s.session e (record s { history = got_lun e.lun_index (err x) ∷ s.history }),
)
