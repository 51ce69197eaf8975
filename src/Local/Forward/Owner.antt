-- ===== src/Local/Forward/Owner.antt =====
-- internal/driver/local/controller.go: where a request is asked for makes no difference, and only the
-- owner's host is touched.
use nomad_csi_driver.Base.{
  Text, Bool, true, false, ◌≡◌, ◌⊎◌, inl, inr, refl, sym, subst, Bool-cases, text_eq, ◌==◌,
}
use nomad_csi_driver.Base.Classes.{text_beq_iff}
use nomad_csi_driver.Driver.Errors.{Result, ok, err}
use nomad_csi_driver.Driver.FailsCoded.{IsCoded}
use nomad_csi_driver.Host.Mounts.{History}
use nomad_csi_driver.Local.Forward.{
  Method, Args, Node, Network, Cluster, Delivery, not_sent, refused, answer_lost, answered, serve,
  serve_at, with_history, exchange, resolved, forward, on_owner, over_wire,
}
use nomad_csi_driver.Local.Forward.Coded.{serve-FailsCoded}

over_wire-IsCoded : {A : Type 0} (r : Result A) → IsCoded r → over_wire r ≡ r
unfolding over_wire
over_wire-IsCoded (ok a) h = refl
over_wire-IsCoded (err e) (c, p) = rw p refl

-- The request is for this node, or its peer is found and answers.
abbrev pub Reaches : Network → Cluster → Text → Text → (m : Method) → Args m → Type 0
Reaches net s here owner m a =
    (owner ≡ here) ⊎ ((net.resolve s owner ≡ ok tt) × (net.delivery s owner m a ≡ answered))

module _ (nodes : Text → Node) (net : Network) (owner : Text) (m : Method) (a : Args m) where
  forward-serve :
      (s : Cluster)
      → net.resolve s owner ≡ ok tt
      → net.delivery s owner m a ≡ answered
      → forward nodes net false owner m a s ≡ serve_at nodes net owner m a s
  unfolding forward resolved exchange serve_at
  forward-serve s r d =
      let same : over_wire (serve (nodes owner) owner m a (s owner)).0
          ≡ (serve (nodes owner) owner m a (s owner)).0 =
        over_wire-IsCoded _ ((serve-FailsCoded (nodes owner) owner m a).at (s owner)) in
      rw (r, d, same) refl

  -- A request that was not forwarded, asked for at any node from where it reaches its owner, gives
  -- the answer, the error's code included, and the histories of all hosts, that the owner's own
  -- operation gives.
  pub on_owner-serve :
      (here : Text) (s : Cluster)
      → Reaches net s here owner m a
      → on_owner nodes net false here owner m a s ≡ serve_at nodes net owner m a s
  unfolding on_owner
  on_owner-serve here s (inl e) = rw e (rw ((text_beq_iff here here).1 refl) refl)
  on_owner-serve here s (inr (r, d)) = elim (Bool-cases (owner == here)) [
    | inl e ↦ rw e (rw ((text_beq_iff owner here).0 e) refl)
    | inr e ↦ rw e (forward-serve s r d)
  ]

  -- The history of a host after a request.
  module _ (P : Text → History → History → Type 0) (stays : (n : Text) (h : History) → P n h h)
      (serves : (h : History) → P owner h (serve (nodes owner) owner m a h).1) where
    served : (n : Text) (s : Cluster) → P n (s n) ((serve_at nodes net owner m a s).1 n)
    unfolding serve_at with_history
    served n s = elim (Bool-cases (n == owner)) [
      | inl e ↦ rw e (
          subst (λ x. P x (s x) (serve (nodes owner) owner m a (s owner)).1)
            (sym ((text_beq_iff n owner).0 e)) (serves (s owner)))
      | inr e ↦ rw e (stays n (s n))
    ]

    exchanged :
        (d : Delivery) (n : Text) (s : Cluster) → P n (s n) ((exchange nodes net owner m a d s).1 n)
    unfolding exchange
    exchanged (not_sent e) n s = stays n (s n)
    exchanged refused n s = stays n (s n)
    exchanged (answer_lost e) n s = served n s
    exchanged answered n s = served n s

    was_resolved :
        (r : Result (Unit {0})) (n : Text) (s : Cluster)
        → P n (s n) ((resolved nodes net owner m a r s).1 n)
    unfolding resolved
    was_resolved (ok u) n s = exchanged (net.delivery s owner m a) n s
    was_resolved (err e) n s = stays n (s n)

    forwarded :
        (b : Bool) (n : Text) (s : Cluster) → P n (s n) ((forward nodes net b owner m a s).1 n)
    unfolding forward
    forwarded true n s = stays n (s n)
    forwarded false n s = was_resolved (net.resolve s owner) n s

    -- What holds of the owner's operation holds of each host, whatever the network does: the others
    -- are left alone.
    pub on_owner-hosts :
        (b : Bool) (here n : Text) (s : Cluster)
        → P n (s n) ((on_owner nodes net b here owner m a s).1 n)
    unfolding on_owner
    on_owner-hosts b here n s = elim (Bool-cases (owner == here)) [
      | inl e ↦ rw e (
          subst (λ x. P n (s n) ((serve_at nodes net x m a s).1 n)) ((text_beq_iff owner here).0 e)
            (served n s))
      | inr e ↦ rw e (forwarded b n s)
    ]
