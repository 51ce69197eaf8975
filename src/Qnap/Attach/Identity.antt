-- ===== src/Qnap/Attach/Identity.antt =====
-- internal/driver/qnap/node.go: resolveAttachIdentity guesses no LUN number.
use nomad_csi_driver.Base.{
  ℤ, pos, Text, Bool, true, false, not, ◌&&◌, ◌≡◌, ◌≢◌, refl, subst, ap, List, [], Option, none,
  some, arith, text_eq, ◌==◌, codes, if◌then◌else◌,
}
use nomad_csi_driver.Base.Map.{Map}
use nomad_csi_driver.Driver.Errors.{Result, ok, err, lift, pure, ◌>>=◌}
use nomad_csi_driver.Driver.Keeps.{succeeded}
use nomad_csi_driver.Go.Strconv.{atoi}
use nomad_csi_driver.Go.Trim.{trim_space}
use nomad_csi_driver.Qnap.ExternalId.{ExternalId, parse_id}
use nomad_csi_driver.Qnap.Params.{get_or_empty}
use nomad_csi_driver.Qnap.NodeState.{NodeState, QnapNode}
use nomad_csi_driver.Qnap.Attach.{
  AttachIdentity, lun_number_of, portals_or, number_of, iqn_or, rebuild, is_empty, split_portals,
  invalid_if_failed, resolve_attach_identity,
}

-- What the context says of the LUN number.
abbrev pub lun_text : Map Text Text → Text
lun_text vctx = trim_space (get_or_empty (codes "lun") vctx)

-- The number is the one in the context; or there is none, and the id says that the target is the
-- volume's own, and then it is 0.
abbrev pub IsKnownLun : Text → Text → ℤ → Type 0
IsKnownLun id raw lun =
    (raw ≢ [] → atoi raw ≡ some lun)
    × (raw ≡ []
        → (eid : ExternalId) × (parse_id id ≡ ok eid) × (eid.own_target ≡ true) × (lun ≡ pos 0))

read_number : (o : Option ℤ) (lun : ℤ) → number_of o ≡ ok lun → o ≡ some lun
read_number none lun e = ground arith
read_number (some k) lun e = ground arith

abbrev lun_or_0 : Result AttachIdentity → ℤ
lun_or_0 (ok a) = a.lun
lun_or_0 (err e) = pos 0

lun_number_of-IsKnownLun :
    (id raw : Text) (eid : ExternalId) (lun : ℤ)
    → parse_id id ≡ ok eid
    → lun_number_of raw eid ≡ ok lun
    → IsKnownLun id raw lun
unfolding lun_number_of
lun_number_of-IsKnownLun id raw eid lun p e = (
  λ given. read_number (atoi raw) lun (ground (arith, text_eq.beq_iff raw [])),
  λ lacking.
      (eid, p, ground (arith, text_eq.beq_iff raw []), ground (arith, text_eq.beq_iff raw [])),
)

module _ (n : QnapNode) (id : Text) where
  rebuild-IsKnownLun :
      (eid : ExternalId) (portals : List Text) (iqn raw : Text) (s : NodeState) (a : AttachIdentity)
      → parse_id id ≡ ok eid
      → (rebuild n eid portals iqn raw s).0 ≡ ok a
      → IsKnownLun id raw a.lun
  unfolding rebuild
  rebuild-IsKnownLun eid portals iqn raw s a p e =
      let got = succeeded (iqn_or n iqn eid) _ s a e in
      let reached = succeeded (lift (portals_or portals n.portals)) _ _ a got.did_second in
      let numbered = succeeded (lift (lun_number_of raw eid)) _ _ a reached.did_second in
      let same : numbered.first ≡ a.lun = ap lun_or_0 numbered.did_second in
      subst (IsKnownLun id raw) same
        (lun_number_of-IsKnownLun id raw eid numbered.first p numbered.did_first)

  -- The context says it all.
  stated-IsKnownLun :
      (portals : List Text) (iqn raw : Text) (s : NodeState) (a : AttachIdentity)
      → raw ≢ []
      → ((lift (number_of (atoi raw)) >>= λ lun.
            pure (record { portals = portals; iqn = iqn; lun = lun }))
          s).0
        ≡ ok a
      → IsKnownLun id raw a.lun
  stated-IsKnownLun portals iqn raw s a given e =
      let numbered = succeeded (lift (number_of (atoi raw))) _ s a e in
      let same : numbered.first ≡ a.lun = ap lun_or_0 numbered.did_second in
      (
        λ _.
            subst (λ l. atoi raw ≡ some l) same
              (read_number (atoi raw) numbered.first numbered.did_first),
        λ lacking. absurd (given lacking),
      )

  recovered-IsKnownLun :
      (r : Result ExternalId) (portals : List Text) (iqn raw : Text) (s : NodeState)
      (a : AttachIdentity)
      → parse_id id ≡ r
      → ((lift (invalid_if_failed r) >>= λ eid. rebuild n eid portals iqn raw) s).0 ≡ ok a
      → IsKnownLun id raw a.lun
  unfolding invalid_if_failed
  recovered-IsKnownLun (ok eid) portals iqn raw s a p e =
      rebuild-IsKnownLun eid portals iqn raw s a p e
  recovered-IsKnownLun (err x) portals iqn raw s a p e = absurd (ground arith)

  -- Where a volume is attached by a LUN number, that is the one in its context; or the context has
  -- none, the id can be read, and it says that the target is the volume's own, and the number is 0. A
  -- number for a shared target is never guessed.
  pub resolve_attach_identity-IsKnownLun :
      (vctx : Map Text Text) (s : NodeState) (a : AttachIdentity)
      → (resolve_attach_identity n id vctx s).0 ≡ ok a
      → IsKnownLun id (lun_text vctx) a.lun
  unfolding resolve_attach_identity
  resolve_attach_identity-IsKnownLun vctx s a =
      by_context (split_portals (get_or_empty (codes "portal") vctx))
        (get_or_empty (codes "iqn") vctx) (lun_text vctx)
    where
      by_context :
          (portals : List Text) (iqn raw : Text)
          → ((if not (is_empty portals) && not (iqn == []) && not (raw == [])
                then (lift (number_of (atoi raw)) >>= λ lun.
                    pure (record { portals = portals; iqn = iqn; lun = lun }))
                else (lift (invalid_if_failed (parse_id id)) >>= λ eid.
                    rebuild n eid portals iqn raw))
              s).0
            ≡ ok a
          → IsKnownLun id raw a.lun
      by_context portals iqn raw =
          decided (not (is_empty portals) && not (iqn == []) && not (raw == [])) refl
        where
          decided :
              (b : Bool)
              → (not (is_empty portals) && not (iqn == []) && not (raw == [])) ≡ b
              → ((if b
                    then (lift (number_of (atoi raw)) >>= λ lun.
                        pure (record { portals = portals; iqn = iqn; lun = lun }))
                    else (lift (invalid_if_failed (parse_id id)) >>= λ eid.
                        rebuild n eid portals iqn raw))
                  s).0
                ≡ ok a
              → IsKnownLun id raw a.lun
          decided true c =
              stated-IsKnownLun portals iqn raw s a (λ z. ground (arith, text_eq.beq_iff raw []))
          decided false c = recovered-IsKnownLun (parse_id id) portals iqn raw s a refl
