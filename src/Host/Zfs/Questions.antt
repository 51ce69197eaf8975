-- ===== src/Host/Zfs/Questions.antt =====
-- internal/zfs/zfs.go: the commands that only ask add only questions.
use nomad_csi_driver.Base.{Text, true, ◌≡◌, refl, List, [], ◌∷◌, codes, text_eq, text_beq}
use nomad_csi_driver.Driver.Keeps.{Keeps, io_rules}
use nomad_csi_driver.Host.Mounts.{Host, History, Call, run, run_command}
use nomad_csi_driver.Host.Calls.{Adds, asks, Reads, run_command-Adds}
use nomad_csi_driver.Host.Zfs
use nomad_csi_driver.Host.Zfs.{zfs, zpool, get_args, exists_args, list_args, number, silent, piped}

-- `Allows` permits every question.
module _ (host : Host) (Allows : History → Call → Type 0) (reads : Reads Allows)
    (start : History) where
  asked :
      (args : List Text)
      → asks (run args) ≡ true
      → Keeps (Adds Allows start) (run_command host args)
  asked args q = run_command-Adds host Allows start args (λ h p. reads.at h (run args) q)

  number-Adds :
      (args : List Text) → asks (run args) ≡ true → Keeps (Adds Allows start) (number host args)
  unfolding number
  number-Adds args q = search (io_rules, asked args q)

  module _ (d : Text) where
    pub get_volsize-Adds : Keeps (Adds Allows start) (Zfs.get_volsize host d)
    unfolding Zfs.get_volsize asks text_beq
    get_volsize-Adds = number-Adds _ refl

    pub get_volblocksize-Adds : Keeps (Adds Allows start) (Zfs.get_volblocksize host d)
    unfolding Zfs.get_volblocksize asks text_beq
    get_volblocksize-Adds = number-Adds _ refl

    pub get_creation-Adds : Keeps (Adds Allows start) (Zfs.get_creation host d)
    unfolding Zfs.get_creation asks text_beq
    get_creation-Adds = number-Adds _ refl

    pub pool_free-Adds : Keeps (Adds Allows start) (Zfs.pool_free host d)
    unfolding Zfs.pool_free asks text_beq
    pool_free-Adds = number-Adds _ refl

    pub pool_available-Adds : Keeps (Adds Allows start) (Zfs.pool_available host d)
    unfolding Zfs.pool_available asks text_beq
    pool_available-Adds = number-Adds _ refl

    pub pool_size-Adds : Keeps (Adds Allows start) (Zfs.pool_size host d)
    unfolding Zfs.pool_size asks text_beq
    pool_size-Adds = number-Adds _ refl

    pub dataset_exists-Adds : Keeps (Adds Allows start) (Zfs.dataset_exists host d)
    unfolding Zfs.dataset_exists asks text_beq
    dataset_exists-Adds = search (io_rules, asked (zfs (exists_args d)) refl)

    pub list_zvols-Adds : Keeps (Adds Allows start) (Zfs.list_zvols host d)
    unfolding Zfs.list_zvols asks text_beq
    list_zvols-Adds =
        search (io_rules, asked (zfs (list_args (codes "volume") (codes "name,volsize") d)) refl)

    pub list_snapshots-Adds : Keeps (Adds Allows start) (Zfs.list_snapshots host d)
    unfolding Zfs.list_snapshots asks text_beq
    list_snapshots-Adds = search (
      io_rules,
      asked (zfs (list_args (codes "snapshot") (codes "name,volsize,creation") d)) refl,
    )

    pub pool_status-Adds : Keeps (Adds Allows start) (Zfs.pool_status host d)
    unfolding Zfs.pool_status asks text_beq
    pool_status-Adds = search (
      io_rules,
      asked (zpool (codes "list" ∷ codes "-H" ∷ codes "-o" ∷ codes "health" ∷ d ∷ [])) refl,
    )

    pub get_user_prop-Adds :
        (prop : Text) → Keeps (Adds Allows start) (Zfs.get_user_prop host d prop)
    unfolding Zfs.get_user_prop asks text_beq
    get_user_prop-Adds prop = search (
      io_rules,
      asked (zfs (codes "get" ∷ codes "-H" ∷ codes "-o" ∷ codes "value" ∷ prop ∷ d ∷ [])) refl,
    )

  pub ruleset questions = (
    get_volsize-Adds, get_volblocksize-Adds, get_creation-Adds, pool_free-Adds, pool_available-Adds,
    pool_size-Adds, dataset_exists-Adds, list_zvols-Adds, list_snapshots-Adds, pool_status-Adds,
    get_user_prop-Adds,
  )
