-- ===== src/Local/Create/Fresh.antt =====
-- internal/driver/local/localops.go: the calls of a new volume, of its mark and of what grows it.
use nomad_csi_driver.Base.{
  ℤ, Text, ◌≡◌, refl, [], ◌∷◌, codes, Bool-cases, inl, inr, arith, text_eq, if◌then◌else◌,
}
use nomad_csi_driver.Base.Int.{◌<ℤ◌, leb_ℤ}
use nomad_csi_driver.Driver.Errors.{ok, Io, pure, ◌>>◌}
use nomad_csi_driver.Driver.Keeps.{Keeps, then_at, io_rules}
use nomad_csi_driver.Host.Mounts.{Host, History, run}
use nomad_csi_driver.Host.Calls.{Adds, Told}
use nomad_csi_driver.Host.Zfs
use nomad_csi_driver.Host.Zfs.{zfs, at_snapshot, get_args, piped}
use nomad_csi_driver.Host.Zfs.Questions.{questions}
use nomad_csi_driver.Host.Zfs.Commands.{silent_at, silent-Adds, piped_at, piped_ok}
use nomad_csi_driver.Local.Params.{LocalConfig}
use nomad_csi_driver.Local.Wire.{CreateArgs}
use nomad_csi_driver.Local.Capacity.{or_internal, check_capacity, unreserved}
use nomad_csi_driver.Local.Capacity.Rules.{
  or_internal-Keeps, IsNumber, HasRoom, check_capacity_ok, Told-IsNumber, number_ok,
}
use nomad_csi_driver.Local.Create.{create_fresh, record_provenance, grow_if_needed}
use nomad_csi_driver.Local.Create.Calls.{CreateCall, CreateCall-Reads, copy_call}

module _ (host : Host) (cfg : LocalConfig) (parent_dataset node : Text) (start : History)
    (a : CreateArgs) (dataset : Text) where
  -- The new calls are those of the create.
  abbrev Fine : History → Type 0
  Fine = Adds (CreateCall cfg node a dataset) start

  check_capacity-Fine : Keeps Fine (check_capacity host cfg a.pool a.size_bytes)
  unfolding check_capacity unreserved
  check_capacity-Fine =
      search (io_rules, or_internal-Keeps, questions, CreateCall-Reads cfg node a dataset)

  -- After the check there is room.
  pub with_room :
      (m : Io History (Unit {0}))
      → ((h : History) → HasRoom cfg a.pool a.size_bytes h → Fine h → Fine (m h).1)
      → Keeps Fine (check_capacity host cfg a.pool a.size_bytes >> m)
  with_room m k = record {
    at = λ h p.
        then_at Fine (check_capacity host cfg a.pool a.size_bytes) (λ _. m) h
          (check_capacity-Fine.at h p)
          (λ _ q.
            k _ (check_capacity_ok host cfg a.pool a.size_bytes h q) (check_capacity-Fine.at h p));
  }

  pub record_provenance-Fine :
      (value : Text) → Keeps Fine (record_provenance host cfg parent_dataset node dataset value)
  unfolding record_provenance Zfs.set_user_prop
  record_provenance-Fine value = or_internal-Keeps _ (
      silent-Adds host (CreateCall cfg node a dataset) start _
        (λ h p. CreateCall.stamps value refl))

  pub asked_size : Keeps Fine (or_internal (Zfs.get_volsize host dataset))
  asked_size = search (or_internal-Keeps, questions, CreateCall-Reads cfg node a dataset)

  size-Told :
      (h : History) (cur : ℤ)
      → (or_internal (Zfs.get_volsize host dataset) h).0 ≡ ok cur
      → Told
          (run (zfs (get_args (codes "volsize") dataset)))
          (IsNumber cur)
          (or_internal (Zfs.get_volsize host dataset) h).1
  unfolding Zfs.get_volsize
  size-Told h cur q = Told-IsNumber (number_ok host _ h cur q)

  grow-Fine :
      (cur : ℤ) (h : History)
      → Told (run (zfs (get_args (codes "volsize") dataset))) (IsNumber cur) h
      → Fine h
      → Fine
          ((if leb_ℤ a.size_bytes cur
              then pure tt
              else or_internal (Zfs.set_volsize host dataset a.size_bytes))
            h).1
  unfolding Zfs.set_volsize
  grow-Fine cur h told p = elim (Bool-cases (leb_ℤ a.size_bytes cur)) [
    | inl e ↦ rw e p
    | inr e ↦ rw e (
        let more : cur <ℤ a.size_bytes = ground arith in
        silent_at host (CreateCall cfg node a dataset) start _ h
          (CreateCall.grows cur refl told more) p)
  ]

  pub grow_if_needed-Fine :
      Keeps Fine (grow_if_needed host cfg parent_dataset node dataset a.size_bytes)
  unfolding grow_if_needed
  grow_if_needed-Fine = record {
    at = λ h p.
        then_at Fine (or_internal (Zfs.get_volsize host dataset)) _ h (asked_size.at h p)
          (λ cur q. grow-Fine cur _ (size-Told h cur q) (asked_size.at h p));
  }

  -- A copy, and the drop of the snapshot that came with it.
  pub copied-Fine :
      (src snap : Text) (h : History)
      → CreateCall cfg node a dataset h (copy_call src snap dataset)
      → Fine h
      → Fine (Zfs.clone_independent host src snap dataset h).1
  unfolding Zfs.clone_independent Zfs.destroy_snapshot
  copied-Fine src snap h allowed p =
      let piped-Fine = piped_at host (CreateCall cfg node a dataset) start _ _ h allowed p in
      then_at Fine
        (piped host (zfs (codes "send" ∷ at_snapshot src snap ∷ []))
          (zfs (codes "recv" ∷ dataset ∷ [])))
        _ h piped-Fine
        (λ _ q.
          silent_at host (CreateCall cfg node a dataset) start _ _
            (CreateCall.drops_received src snap refl (piped_ok host _ _ h q)) piped-Fine)

  pub create_fresh-Fine : Keeps Fine (create_fresh host cfg parent_dataset node a dataset)
  unfolding create_fresh Zfs.create_zvol
  create_fresh-Fine =
      with_room (or_internal (Zfs.create_zvol host dataset a.size_bytes a.volblocksize))
        (λ h room p.
          silent_at host (CreateCall cfg node a dataset) start _ h (CreateCall.makes refl room) p)
