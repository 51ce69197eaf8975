-- ===== src/Local/Node/Identity.antt =====
-- internal/driver/local/node.go: what a lost volume context is rebuilt from.
use nomad_csi_driver.Base.{
  Text, ◌≡◌, ◌⊎◌, inl, inr, [], arith, text_eq, true, not, ◌&&◌, ◌==◌, if◌then◌else◌,
}
use nomad_csi_driver.Base.Map.{Map}
use nomad_csi_driver.Driver.Errors.{ok}
use nomad_csi_driver.Qnap.Params.{get_or_empty}
use nomad_csi_driver.Local.ExternalId.{ExternalId, parse_id, print_id, valid_dataset}
use nomad_csi_driver.Local.ExternalId.RoundTrip.{IsSegment, parse-print_local_id}
use nomad_csi_driver.Local.Node.{dataset_key, owner_key, rebuilt, resolve_volume_identity}

-- The context says this of the key, or nothing.
abbrev pub SaysOrLacks : Text → Text → Map Text Text → Type 0
SaysOrLacks key value m = (get_or_empty key m ≡ value) ⊎ (get_or_empty key m ≡ [])

-- From the id of a volume, whose node has a name without a slash and whose dataset passes
-- validDataset, and what is left of its context, each of the two entries kept, emptied or
-- lost, a stage or a publish finds the dataset and the owner that the id was made from.
pub resolve_volume_identity-print :
    (e : ExternalId) (vctx : Map Text Text)
    → IsSegment e.node
    → valid_dataset e.dataset ≡ true
    → SaysOrLacks dataset_key e.dataset vctx
    → SaysOrLacks owner_key e.node vctx
    → resolve_volume_identity (print_id e) vctx ≡ ok (e.dataset, e.node)
unfolding resolve_volume_identity rebuilt
resolve_volume_identity-print e vctx node valid d o =
    rebuilt_from _ _ d o (parse-print_local_id e node valid)
  where
    rebuilt_from :
        (x y : Text)
        → (x ≡ e.dataset) ⊎ (x ≡ [])
        → (y ≡ e.node) ⊎ (y ≡ [])
        → parse_id (print_id e) ≡ ok e
        → (if not (x == []) && not (y == [])
            then ok (x, y)
            else rebuilt x y (parse_id (print_id e)))
          ≡ ok (e.dataset, e.node)
    rebuilt_from x y (inl p) (inl q) parsed =
        ground (arith, text_eq.beq_iff x [], text_eq.beq_iff y [])
    rebuilt_from x y (inr p) (inl q) parsed =
        ground (arith, text_eq.beq_iff x [], text_eq.beq_iff y [])
    rebuilt_from x y (inl p) (inr q) parsed =
        ground (arith, text_eq.beq_iff x [], text_eq.beq_iff y [])
    rebuilt_from x y (inr p) (inr q) parsed =
        ground (arith, text_eq.beq_iff x [], text_eq.beq_iff y [])
