-- ===== src/Csi/Conv/Accepted.antt =====
-- internal/csi/conv.go: which capabilities are accepted, and what comes of them.
use nomad_csi_driver.Base.{
  ◌≡◌, ◌≢◌, refl, arith, All, List, [], ◌∷◌, Option, none, some, length, text_eq, ap, suc,
}
use nomad_csi_driver.Driver.Errors.{Result, ok, err}
use nomad_csi_driver.Driver.Types.{AccessMode, VolumeCapability}
use nomad_csi_driver.Csi.Conv.{
  Mode, Access, CsiCapability, CsiSource, IsUsable, IsSingleNode, push, mode_of, to_access_mode,
  with_access, with_mode, to_volume_capability, convert_all, to_volume_capabilities,
  to_content_source, from_content_source,
}

abbrev ModeOutcome : Mode → Result AccessMode → Type 0
ModeOutcome m (ok a) = IsSingleNode m × (a ≢ AccessMode.unknown)
ModeOutcome m (err e) = ¬ (IsSingleNode m)

mode-Outcome : (m : Mode) → ModeOutcome m (to_access_mode m)
unfolding to_access_mode
mode-Outcome Mode.single_node_writer = (tt, λ e. cc)
mode-Outcome Mode.single_node_single_writer = (tt, λ e. cc)
mode-Outcome Mode.single_node_multi_writer = (tt, λ e. cc)
mode-Outcome Mode.single_node_reader_only = (tt, λ e. cc)
mode-Outcome Mode.multi_node_reader_only = λ h. h
mode-Outcome Mode.multi_node_single_writer = λ h. h
mode-Outcome Mode.multi_node_multi_writer = λ h. h
mode-Outcome Mode.unknown = λ h. h
mode-Outcome (Mode.other n) = λ h. h

-- How a conversion of one capability ends.
abbrev Outcome : Mode → Access → Result VolumeCapability → Type 0
Outcome m a (ok v) = IsSingleNode m × (a ≢ Access.unset) × (v.access_mode ≢ AccessMode.unknown)
Outcome m a (err e) = ¬ (IsSingleNode m × (a ≢ Access.unset))

with_mode-Outcome :
    (m : Mode) (a : Access) (r : Result AccessMode) → ModeOutcome m r → Outcome m a (with_mode r a)
unfolding with_mode with_access
with_mode-Outcome m a (err e) h = λ u. h u.0
with_mode-Outcome m Access.unset (ok b) h = λ u. u.1 refl
with_mode-Outcome m Access.block (ok b) h = (h.0, λ e. cc, h.1)
with_mode-Outcome m (Access.mount f g) (ok b) h = (h.0, λ e. cc, h.1)

-- The answer for a list, against the capabilities that were asked for.
abbrev pub Accepted : List (Option CsiCapability) → Result (List VolumeCapability) → Type 0
Accepted cs (ok vs) =
    All IsUsable cs × All (λ v. v.access_mode ≢ AccessMode.unknown) vs × (length vs ≡ length cs)
Accepted cs (err e) = ¬ (All IsUsable cs)

push-Accepted :
    (c : CsiCapability) (cs : List (Option CsiCapability)) (r : Result VolumeCapability)
    (rs : Result (List VolumeCapability))
    → Outcome (mode_of c) c.access r
    → Accepted cs rs
    → Accepted (some c ∷ cs) (push r rs)
push-Accepted c cs (err e) rs o a = λ u. o u.0
push-Accepted c cs (ok v) (err e) o a = λ u. a u.1
push-Accepted c cs (ok v) (ok vs) o a = (((o.0, o.1), a.0), (o.2, a.1), ap suc a.2)

convert_all-Accepted : (cs : List (Option CsiCapability)) → Accepted cs (convert_all cs)
unfolding convert_all to_volume_capability
convert_all-Accepted [] = (tt, tt, refl)
convert_all-Accepted (none ∷ cs) = λ u. u.0
convert_all-Accepted (some c ∷ cs) =
    push-Accepted c cs _ _ (with_mode-Outcome (mode_of c) c.access _ (mode-Outcome (mode_of c)))
      (convert_all-Accepted cs)

-- A non-empty list of capabilities is converted exactly when each names a single-node mode and an
-- access type; the backends then see as many capabilities, none of an unknown mode.
pub to_volume_capabilities-Accepted :
    (c : Option CsiCapability) (cs : List (Option CsiCapability))
    → Accepted (c ∷ cs) (to_volume_capabilities (c ∷ cs))
unfolding to_volume_capabilities
to_volume_capabilities-Accepted c cs = convert_all-Accepted (c ∷ cs)

-- A content source with an id survives the way to the backend and back.
pub from-to-content_source :
    (s : CsiSource)
    → s ≢ CsiSource.unset
    → s ≢ CsiSource.snapshot []
    → s ≢ CsiSource.volume []
    → from_content_source (to_content_source (some s)) ≡ some s
unfolding from_content_source to_content_source
from-to-content_source CsiSource.unset h k l = absurd (h refl)
from-to-content_source (CsiSource.snapshot id) h k l =
    ground (arith, text_eq.beq_iff id [], λ (e : id ≡ []). k (ap CsiSource.snapshot e))
from-to-content_source (CsiSource.volume id) h k l = ground (
  arith,
  text_eq.beq_iff id [],
  text_eq.beq_iff [] [],
  λ (e : id ≡ []). l (ap CsiSource.volume e),
)
