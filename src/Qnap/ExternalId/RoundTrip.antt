-- ===== src/Qnap/ExternalId/RoundTrip.antt =====
-- internal/driver/qnap/externalid.go: an id that is printed is read back.
use nomad_csi_driver.Base.{
  ◌≡◌, ◌≢◌, ◌∙◌, ap, refl, true, false, Bool, [], ◌∷◌, All, arith, codes, text_eq, text_beq, ◌==◌,
}
use nomad_csi_driver.Driver.Errors.{ok}
use nomad_csi_driver.Go.Strconv.{format_int, IsInt64}
use nomad_csi_driver.Go.Strconv.RoundTrip.{atoi-format_int, NoSlash-format_int}
use nomad_csi_driver.Go.Strings.{split, split-join}
use nomad_csi_driver.Qnap.ExternalId.{
  ExternalId, SnapshotId, slash, own_tag, print_id, id_of_parts, parse_id, print_snapshot_id,
  snapshot_of_parts, parse_snapshot_id,
}

NoSlash-own_tag : (b : Bool) → All (λ c. c ≢ b'/') (own_tag b)
NoSlash-own_tag true = omega arith
NoSlash-own_tag false = omega arith

split-print_id :
    (e : ExternalId)
    → All (λ c. c ≢ b'/') e.lun_name
    → split slash (print_id e)
      ≡ codes "qnap"
        ∷ codes "v1"
        ∷ format_int e.lun_index
        ∷ format_int e.target_index
        ∷ own_tag e.own_target
        ∷ e.lun_name
        ∷ []
unfolding print_id
split-print_id e h = split-join slash (codes "qnap") _ (
  omega arith,
  (
    omega arith,
    (
      NoSlash-format_int e.lun_index,
      (NoSlash-format_int e.target_index, (NoSlash-own_tag e.own_target, (h, tt))),
    ),
  ),
)

own_tag-t : (b : Bool) → (own_tag b == codes "t") ≡ b
unfolding text_beq
own_tag-t true = refl
own_tag-t false = refl

-- An id with 64-bit indices and a name without a slash is read back as it was, whatever the
-- ownership of the target.
pub parse-print_id :
    (e : ExternalId)
    → IsInt64 e.lun_index
    → IsInt64 e.target_index
    → All (λ c. c ≢ b'/') e.lun_name
    → parse_id (print_id e) ≡ ok e
unfolding parse_id text_beq
parse-print_id e l t h =
    ap id_of_parts (split-print_id e h)
    ∙ rw (atoi-format_int e.lun_index l, atoi-format_int e.target_index t)
        (ap (λ b. ok (record e { own_target = b })) (own_tag-t e.own_target))

split-print_snapshot_id :
    (s : SnapshotId)
    → split slash (print_snapshot_id s)
      ≡ codes "qnaps" ∷ codes "v1" ∷ format_int s.lun_index ∷ format_int s.snapshot_id ∷ []
unfolding print_snapshot_id
split-print_snapshot_id s = split-join slash (codes "qnaps") _ (
  omega arith,
  (omega arith, (NoSlash-format_int s.lun_index, (NoSlash-format_int s.snapshot_id, tt))),
)

-- A snapshot id with 64-bit numbers is read back as it was.
pub parse-print_snapshot_id :
    (s : SnapshotId)
    → IsInt64 s.lun_index
    → IsInt64 s.snapshot_id
    → parse_snapshot_id (print_snapshot_id s) ≡ ok s
unfolding parse_snapshot_id text_beq
parse-print_snapshot_id s l i =
    ap snapshot_of_parts (split-print_snapshot_id s)
    ∙ rw (atoi-format_int s.lun_index l, atoi-format_int s.snapshot_id i)

-- The wire form tells two such ids apart.
pub print_id-injective :
    (e f : ExternalId)
    → IsInt64 e.lun_index
    → IsInt64 e.target_index
    → All (λ c. c ≢ b'/') e.lun_name
    → IsInt64 f.lun_index
    → IsInt64 f.target_index
    → All (λ c. c ≢ b'/') f.lun_name
    → print_id e ≡ print_id f
    → e ≡ f
print_id-injective e f l t h l' t' h' p = cc (parse-print_id e l t h, parse-print_id f l' t' h')
