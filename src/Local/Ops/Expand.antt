-- ===== src/Local/Ops/Expand.antt =====
-- internal/driver/local/localops.go: localExpand never shrinks a volume, and stays within the limit.
use nomad_csi_driver.Base.{
  zero, suc, ℤ, pos, negsuc, Text, true, false, ◌≡◌, refl, [], ◌∷◌, ◌++◌, codes, Bool-cases, inl,
  inr, arith, int_eq, ◌==◌,
}
use nomad_csi_driver.Base.Classes.{int_beq_iff}
use nomad_csi_driver.Base.Int.{◌≤ℤ◌, ◌<ℤ◌, ltb_ℤ, eq_of_parts}
use nomad_csi_driver.Driver.Errors.{ok, ◌>>=◌}
use nomad_csi_driver.Driver.Keeps.{Keeps, then_at, io_rules}
use nomad_csi_driver.Go.Strconv.{format_int}
use nomad_csi_driver.Host.Mounts.{Host, History, Call, run}
use nomad_csi_driver.Host.Calls.{Adds, none_yet, Told, asks, Reads}
use nomad_csi_driver.Host.Zfs
use nomad_csi_driver.Host.Zfs.{zfs, get_args}
use nomad_csi_driver.Host.Zfs.Questions.{questions}
use nomad_csi_driver.Host.Zfs.Commands.{silent_at}
use nomad_csi_driver.Local.ExternalId.{ExternalId, parse_id}
use nomad_csi_driver.Local.Params.{LocalConfig}
use nomad_csi_driver.Local.Wire.{ExpandArgs}
use nomad_csi_driver.Local.Capacity.{or_internal}
use nomad_csi_driver.Local.Capacity.Rules.{or_internal-Keeps, IsNumber, Told-IsNumber, number_ok}
use nomad_csi_driver.Local.Ops.{local_expand, expand_by, expand_to, grow_to, over_limit, to_blocks}

abbrev pub size_of : Text → Call
size_of d = run (zfs (get_args (codes "volsize") d))

-- What growing the volume with this dataset may call: questions, and `zfs set volsize=…` of just
-- that dataset, to more than the size it was told right before, and within a limit that is set.
pub data ExpandCall (d : Text) (limit : ℤ) (h : History) (c : Call) : Type 0 where
  only_asks : asks c ≡ true → ExpandCall d limit h c
  grows :
      (cur size : ℤ)
      → c ≡ run (zfs (codes "set" ∷ (codes "volsize=" ++ format_int size) ∷ d ∷ []))
      → Told (size_of d) (IsNumber cur) h
      → cur <ℤ size
      → (pos 1 ≤ℤ limit → size ≤ℤ limit)
      → ExpandCall d limit h c

ExpandCall-Reads : (d : Text) (limit : ℤ) → Reads (ExpandCall d limit)
ExpandCall-Reads d limit = record { at = λ h c. ExpandCall.only_asks }

grows_more : (size cur : ℤ) → ltb_ℤ size cur ≡ false → (size == cur) ≡ false → cur <ℤ size
grows_more size cur e f =
    let same : size ≡ cur → (size == cur) ≡ true = (int_beq_iff size cur).1 in
    ground (arith, eq_of_parts size cur, same)

within : (limit size : ℤ) → over_limit limit size ≡ false → pos 1 ≤ℤ limit → size ≤ℤ limit
unfolding over_limit
within limit size e l = ground arith

module _ (host : Host) (cfg : LocalConfig) (parent_dataset node : Text) (start : History) (d : Text)
    (limit : ℤ) where
  asked_size : Keeps (Adds (ExpandCall d limit) start) (or_internal (Zfs.get_volsize host d))
  asked_size = search (or_internal-Keeps, questions, ExpandCall-Reads d limit)

  size-Told :
      (h : History) (cur : ℤ)
      → (or_internal (Zfs.get_volsize host d) h).0 ≡ ok cur
      → Told (size_of d) (IsNumber cur) (or_internal (Zfs.get_volsize host d) h).1
  unfolding Zfs.get_volsize
  size-Told h cur q = Told-IsNumber (number_ok host _ h cur q)

  module _ (cur size : ℤ) (fits : pos 1 ≤ℤ limit → size ≤ℤ limit) where
    set-Adds :
        (h : History)
        → Told (size_of d) (IsNumber cur) h
        → cur <ℤ size
        → Adds (ExpandCall d limit) start h
        → Adds (ExpandCall d limit) start (Zfs.set_volsize host d size h).1
    unfolding Zfs.set_volsize
    set-Adds h told more p =
        silent_at host (ExpandCall d limit) start _ h
          (ExpandCall.grows cur size refl told more fits) p

    grow_to-Adds :
        (h : History)
        → Told (size_of d) (IsNumber cur) h
        → Adds (ExpandCall d limit) start h
        → Adds (ExpandCall d limit) start (grow_to host cfg parent_dataset node d cur size h).1
    unfolding grow_to
    grow_to-Adds h told p = elim (Bool-cases (ltb_ℤ size cur)) [
      | inl e ↦ rw e p
      | inr e ↦ elim (Bool-cases (size == cur)) [
        | inl f ↦ rw (e, f) p
        | inr f ↦
            rw (e, f)
              (let set = set-Adds h told (grows_more size cur e f) p in
                then_at (Adds (ExpandCall d limit) start)
                  (or_internal (Zfs.set_volsize host d size))
                  (λ _. or_internal (Zfs.get_volsize host d)) h set (λ _ _. asked_size.at _ set))
      ]
    ]

  expand_to-Adds :
      (size : ℤ)
      → Keeps
          (Adds (ExpandCall d limit) start)
          (expand_to host cfg parent_dataset node d limit size)
  unfolding expand_to
  expand_to-Adds size = elim (Bool-cases (over_limit limit size)) [
    | inl e ↦ rw e (search (io_rules))
    | inr e ↦ rw e (record {
      at = λ h p.
          then_at (Adds (ExpandCall d limit) start) (or_internal (Zfs.get_volsize host d))
            (λ cur. grow_to host cfg parent_dataset node d cur size) h (asked_size.at h p)
            (λ cur q.
              grow_to-Adds cur size (within limit size e) _ (size-Told h cur q)
                (asked_size.at h p));
    })
  ]

  expand_by-Adds :
      (required block : ℤ)
      → Keeps
          (Adds (ExpandCall d limit) start)
          (expand_by host cfg parent_dataset node d required limit block)
  unfolding expand_by
  expand_by-Adds required (pos (suc block)) = expand_to-Adds (to_blocks required (suc block))
  expand_by-Adds required (pos zero) = search (io_rules)
  expand_by-Adds required (negsuc n) = search (io_rules)

  expand_dataset-Adds :
      (required : ℤ)
      → Keeps (Adds (ExpandCall d limit) start) (
          or_internal (Zfs.get_volblocksize host d) >>= λ block.
          expand_by host cfg parent_dataset node d required limit block)
  expand_dataset-Adds required =
      search (io_rules, or_internal-Keeps, questions, ExpandCall-Reads d limit, expand_by-Adds)

module _ (host : Host) (cfg : LocalConfig) (parent_dataset node : Text) (start : History) where
  -- Whatever the host answers, expanding the volume with a parsed id adds only questions and
  -- `zfs set volsize=…` of exactly its dataset, to more than the size that ZFS told right before and
  -- to no more than a limit that is set: a volume is never shrunk.
  pub local_expand-grows :
      (a : ExpandArgs) (eid : ExternalId)
      → parse_id a.volume_id ≡ ok eid
      → Adds
          (ExpandCall eid.dataset a.limit_bytes)
          start
          (local_expand host cfg parent_dataset node a start).1
  unfolding local_expand
  local_expand-grows a eid e = rw e (
      (expand_dataset-Adds host cfg parent_dataset node start eid.dataset a.limit_bytes
          a.required_bytes).at
        start none_yet)
