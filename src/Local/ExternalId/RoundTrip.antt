-- ===== src/Local/ExternalId/RoundTrip.antt =====
-- internal/driver/local/externalid.go: an id that is printed is read back.
use nomad_csi_driver.Base.{
  Text, true, false, ◌≡◌, ◌≢◌, refl, ap, ◌∙◌, [], ◌∷◌, ◌++◌, none, some, codes, arith, All, text_eq,
  ◌==◌, text_beq, contains,
}
use nomad_csi_driver.Go.Strings.{split_n, split_n-append}
use nomad_csi_driver.Driver.Errors.{ok}
use nomad_csi_driver.Local.ExternalId.{
  ExternalId, SnapshotId, slash, valid_dataset, parse_id, print_id, id_of_parts, parse_snapshot_id,
  print_snapshot_id, snapshot_of_parts, cut_last, after_head,
}

-- No slash, and not empty.
abbrev pub IsSegment : Text → Type 0
IsSegment s = (s ≢ []) × All (λ c. c ≢ slash) s

split-head :
    (a node rest : Text)
    → All (λ c. c ≢ slash) a
    → All (λ c. c ≢ slash) node
    → split_n slash 3 (a ++ slash ∷ (codes "v1" ++ slash ∷ (node ++ slash ∷ rest)))
      ≡ a ∷ codes "v1" ∷ node ∷ rest ∷ []
unfolding split_n
split-head a node rest h k =
    split_n-append slash 2 a (codes "v1" ++ slash ∷ (node ++ slash ∷ rest)) h
    ∙ ap (λ ps. a ∷ ps) (split_n-append slash 1 (codes "v1") (node ++ slash ∷ rest) (ground arith))
    ∙ ap (λ ps. a ∷ codes "v1" ∷ ps) (split_n-append slash 0 node rest k)

-- A volume id is read back as it was, for a node that is a segment and a dataset that is valid,
-- which may have any number of slashes.
pub parse-print_local_id :
    (e : ExternalId)
    → IsSegment e.node
    → valid_dataset e.dataset ≡ true
    → parse_id (print_id e) ≡ ok e
unfolding parse_id print_id text_beq
parse-print_local_id e node valid =
    let named : (e.node == []) ≡ false = ground (arith, text_eq.beq_iff e.node []) in
    ap id_of_parts (split-head (codes "local") e.node e.dataset (ground arith) node.1)
    ∙ rw (named, valid) refl

cut_last-none : (snap : Text) → All (λ c. c ≢ slash) snap → cut_last slash snap ≡ none
unfolding cut_last after_head
cut_last-none [] h = refl
cut_last-none (c ∷ snap) h = rw (cut_last-none snap h.1) (ground arith)

cut_last-append :
    (ds snap : Text)
    → All (λ c. c ≢ slash) snap
    → cut_last slash (ds ++ slash ∷ snap) ≡ some (ds, snap)
unfolding cut_last after_head
cut_last-append [] snap h = rw (cut_last-none snap h) refl
cut_last-append (c ∷ ds) snap h = rw (cut_last-append ds snap h) refl

append_named : (ds snap : Text) → ((ds ++ slash ∷ snap) == []) ≡ false
unfolding text_beq
append_named [] snap = refl
append_named (c ∷ ds) snap = refl

valid_named : (ds : Text) → valid_dataset ds ≡ true → (ds == []) ≡ false
unfolding valid_dataset text_beq contains
valid_named [] h = ground arith
valid_named (c ∷ ds) h = refl

-- A snapshot id is read back as it was, for a node and a snapshot name that are segments and a
-- dataset that is valid.
pub parse-print_local_snapshot_id :
    (s : SnapshotId)
    → IsSegment s.node
    → valid_dataset s.dataset ≡ true
    → IsSegment s.snap_name
    → parse_snapshot_id (print_snapshot_id s) ≡ ok s
unfolding parse_snapshot_id print_snapshot_id text_beq
parse-print_local_snapshot_id s node valid snap =
    let named : (s.node == []) ≡ false = ground (arith, text_eq.beq_iff s.node []) in
    let given : (s.snap_name == []) ≡ false = ground (arith, text_eq.beq_iff s.snap_name []) in
    ap snapshot_of_parts
      (split-head (codes "locals") s.node (s.dataset ++ slash ∷ s.snap_name) (ground arith) node.1)
    ∙ rw
        (
          named,
          append_named s.dataset s.snap_name,
          cut_last-append s.dataset s.snap_name snap.1,
          valid_named s.dataset valid,
          given,
          valid,
        )
        refl
