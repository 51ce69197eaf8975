-- ===== src/Qnap/Teardown/Detach.antt =====
-- internal/driver/qnap/node.go: the calls of a detach, after nothing else was seen to use the volume.
use nomad_csi_driver.Base.{
  Text, Bool, true, false, not, ◌&&◌, ◌≡◌, refl, sym, subst, List, [], ◌∷◌, text_eq, ◌==◌, some,
  if◌then◌else◌,
}
use nomad_csi_driver.Driver.Errors.{Result, ok, err, pure}
use nomad_csi_driver.Driver.Keeps.{Keeps, Keeps-if, Keeps-pure, then_at, io_rules}
use nomad_csi_driver.Host.Mounts.{History, called, run, call, run_command}
use nomad_csi_driver.Host.Calls.{one_more, Seen, now, earlier, Told}
use nomad_csi_driver.Host.Iscsi.{
  Session, sessions_args, sessions_of, parse_sessions, list_sessions, logout,
}
use nomad_csi_driver.Host.Multipath.{flush_args, flush_map}
use nomad_csi_driver.Qnap.Attach.{ignored, log_out}
use nomad_csi_driver.Qnap.NodeState.{StageMeta, QnapNode, portal_list}
use nomad_csi_driver.Qnap.Teardown.{only_or, last_lun_on_target, log_out_if_last, detach}
use nomad_csi_driver.Qnap.Teardown.LastLun.{is_only-NoOther}
use nomad_csi_driver.Qnap.Teardown.Finds.{IsLast, SeenUnused, UnstageCall, Fine}

module _ (n : QnapNode) (m : StageMeta) (path : Text) (start : History) where
  logout-Fine :
      (portal : Text) (h : History)
      → SeenUnused path m h
      → Seen (Told (run sessions_args) (IsLast m.iqn m.lun_number)) h
      → Fine n (some m) path start h
      → Fine n (some m) path start (logout n.host portal m.iqn h).1
  unfolding logout run_command call
  logout-Fine portal h unused last p =
      one_more _ (host_answer _ h) (UnstageCall.logs_out m portal refl unused last) p
    where
      host_answer : List Text → History → Result Text
      host_answer args h = n.host.answer h (run args)

  log_out-Fine :
      (portals : List Text) (h : History)
      → SeenUnused path m h
      → Seen (Told (run sessions_args) (IsLast m.iqn m.lun_number)) h
      → Fine n (some m) path start h
      → Fine n (some m) path start (log_out n m.iqn portals h).1
  unfolding log_out logout run_command call
  log_out-Fine [] h unused last p = p
  log_out-Fine (q ∷ qs) h unused last p =
      log_out-Fine qs _ (earlier _ unused) (earlier _ last) (logout-Fine q h unused last p)

  told-IsLast :
      (r : Result Text) (x : Result (List Session))
      → sessions_of r ≡ x
      → only_or n m.lun_number x m.iqn ≡ true
      → IsLast m.iqn m.lun_number r
  unfolding sessions_of only_or
  told-IsLast (ok out) x p only =
      (is_only-NoOther m.iqn m.lun_number (parse_sessions out)).0
        (subst (λ y. only_or n m.lun_number y m.iqn ≡ true) (sym p) only)
  told-IsLast (err e) x p only = tt

  log_out_if-Fine :
      (last : Bool) (r : Result Text) (h : History)
      → (last ≡ true → IsLast m.iqn m.lun_number r)
      → SeenUnused path m h
      → Fine n (some m) path start (called (run sessions_args) r ∷ h)
      → Fine n
          (some m)
          path
          start
          ((if last then log_out n m.iqn (portal_list m) else pure tt)
            (called (run sessions_args) r ∷ h)).1
  log_out_if-Fine true r h told unused p =
      log_out-Fine _ _ (earlier _ unused) (now (refl, told refl)) p
  log_out_if-Fine false r h told unused p = p

  log_out_if_last-Fine :
      (h : History)
      → SeenUnused path m h
      → Fine n (some m) path start h
      → Fine n (some m) path start (log_out_if_last n m h).1
  unfolding log_out_if_last last_lun_on_target list_sessions run_command call
  log_out_if_last-Fine h unused p =
      let r = n.host.answer h (run sessions_args) in
      log_out_if-Fine _ r h (told-IsLast r _ refl) unused (one_more _ r UnstageCall.lists p)

  -- What goes on to hold while a volume is detached.
  abbrev Detaching : History → Type 0
  Detaching h = SeenUnused path m h × Fine n (some m) path start h

  flush_call-Detaching : Keeps Detaching (call n.host (run (flush_args m.wwid)))
  unfolding call
  flush_call-Detaching = record {
    at = λ h d. (
      earlier _ d.0,
      one_more (run (flush_args m.wwid)) (n.host.answer h (run (flush_args m.wwid)))
          (UnstageCall.flushes m refl d.0) d.1,
    );
  }

  flush-Detaching : Keeps Detaching (ignored (flush_map n.host m.wwid))
  unfolding flush_map run_command
  flush-Detaching =
      let flushed : Keeps Detaching (flush_map n.host m.wwid) =
        search (io_rules, flush_call-Detaching) in
      record { at = flushed.at }

  pub detach-Fine :
      (h : History)
      → SeenUnused path m h
      → Fine n (some m) path start h
      → Fine n (some m) path start (detach n (some m) h).1
  unfolding detach
  detach-Fine h unused p =
      let flush_if =
        Keeps-if (n.use_multipath && not (m.wwid == [])) _ (pure tt) (flush-Detaching)
          (Keeps-pure tt) in
      let d = flush_if.at h (unused, p) in
      then_at (Fine n (some m) path start)
        (if n.use_multipath && not (m.wwid == [])
          then ignored (flush_map n.host m.wwid)
          else pure tt)
        (λ x. if m.iqn == [] then pure tt else log_out_if_last n m) h d.1
        (λ _ _. iqn_known (m.iqn == []) _ d.0 d.1)
    where
      iqn_known :
          (b : Bool) (h : History)
          → SeenUnused path m h
          → Fine n (some m) path start h
          → Fine n (some m) path start ((if b then pure tt else log_out_if_last n m) h).1
      iqn_known true h unused p = p
      iqn_known false h unused p = log_out_if_last-Fine h unused p
