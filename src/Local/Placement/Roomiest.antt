-- ===== src/Local/Placement/Roomiest.antt =====
-- internal/driver/local/controller.go: `pickRoomiest` picks the most available bytes among the nodes with room.
use mathlib.Core.List.{Memᴰ}
use mathlib.Core.List.Memᴰ.{head, tail}
use mathlib.Core.Path.{subst}
use nomad_csi_driver.Base.{
  ℤ, pos, negsuc, Text, true, false, ◌≡◌, ◌≢◌, ◌⊎◌, inl, inr, refl, sym, ap, ◌∙◌, List, [], ◌∷◌,
  text_eq, int_eq, ◌==◌, arith, Bool-cases,
}
use nomad_csi_driver.Base.Classes.{int_beq_iff, text_beq_iff}
use nomad_csi_driver.Base.Int.{◌≤ℤ◌, ltb_ℤ}
use nomad_csi_driver.Driver.Errors.{Result, ok, err}
use nomad_csi_driver.Local.Wire.{StatsResult}
use nomad_csi_driver.Local.Placement.{
  Best, no_best, fits, better, consider, scan_peers, chosen, pick_among, pick_roomiest,
}

better-le :
    (b : Best) (n : Text) (st : StatsResult) → better b n st ≡ true → b.avail ≤ℤ st.avail_bytes
unfolding better
better-le b n st h = elim (Bool-cases (ltb_ℤ b.avail st.avail_bytes)) [
  | inl l ↦ ground arith
  | inr l ↦ elim (Bool-cases (st.avail_bytes == b.avail)) [
    | inl e ↦
        (let same = (int_beq_iff st.avail_bytes b.avail).0 e in
          subst (λ x. b.avail ≤ℤ x) (sym same) (omega arith))
    | inr e ↦ absurd (ground arith)
  ]
]

not_better-le :
    (b : Best) (n : Text) (st : StatsResult) → better b n st ≡ false → st.avail_bytes ≤ℤ b.avail
unfolding better
not_better-le b n st h = ground arith

le_trans : (a b c : ℤ) → a ≤ℤ b → b ≤ℤ c → a ≤ℤ c
le_trans a b c h k = omega (arith, h, k)

module _ (stats_for : Text → Result StatsResult) (size : ℤ) where
  -- The node answers that its pool has room, and has so much available.
  pub record Offers (node : Text) (avail : ℤ) : Type 0 where
    pub stats : StatsResult
    pub told : stats_for node ≡ ok stats
    pub online : stats.has_pool ≡ true
    pub room : size ≤ℤ stats.avail_bytes
    pub has : stats.avail_bytes ≡ avail

  fits-le :
      (st : StatsResult) → fits size st ≡ true → (st.has_pool ≡ true) × (size ≤ℤ st.avail_bytes)
  unfolding fits
  fits-le st f = (ground arith, ground arith)

  le-fits : (st : StatsResult) → st.has_pool ≡ true → size ≤ℤ st.avail_bytes → fits size st ≡ true
  unfolding fits
  le-fits st on room = ground arith

  consider-le :
      (b : Best) (p : Text) (r : Result StatsResult) → b.avail ≤ℤ (consider size b p r).avail
  unfolding consider
  consider-le b p (err e) = omega arith
  consider-le b p (ok st) = elim (Bool-cases (fits size st)) [
    | inl f ↦ elim (Bool-cases (better b p st)) [
      | inl e ↦ rw (f, e) (better-le b p st e)
      | inr e ↦ rw (f, e) (omega arith)
    ]
    | inr f ↦ rw f (omega arith)
  ]

  consider-beats :
      (b : Best) (p : Text) (st : StatsResult)
      → fits size st ≡ true
      → st.avail_bytes ≤ℤ (consider size b p (ok st)).avail
  unfolding consider
  consider-beats b p st f = elim (Bool-cases (better b p st)) [
    | inl e ↦ rw (f, e) (omega arith)
    | inr e ↦ rw (f, e) (not_better-le b p st e)
  ]

  consider-origin :
      (b : Best) (p : Text) (r : Result StatsResult)
      → stats_for p ≡ r
      → (consider size b p r ≡ b)
        ⊎ (((consider size b p r).node ≡ p) × Offers p (consider size b p r).avail)
  unfolding consider
  consider-origin b p (err e) told = inl refl
  consider-origin b p (ok st) told = elim (Bool-cases (fits size st)) [
    | inl f ↦ elim (Bool-cases (better b p st)) [
      | inl e ↦
          rw (f, e)
            (inr (
              refl,
              record {
                stats = st;
                told = told;
                online = (fits-le st f).0;
                room = (fits-le st f).1;
                has = refl;
              },
            ))
      | inr e ↦ rw (f, e) (inl refl)
    ]
    | inr f ↦ rw f (inl refl)
  ]

  told-beats :
      (b : Best) (p : Text) (r : Result StatsResult) (st : StatsResult)
      → r ≡ ok st
      → fits size st ≡ true
      → st.avail_bytes ≤ℤ (consider size b p r).avail
  told-beats b p r st e f = rw e (consider-beats b p st f)

  scan_peers-le : (ps : List Text) (b : Best) → b.avail ≤ℤ (scan_peers stats_for size ps b).avail
  unfolding scan_peers
  scan_peers-le [] b = omega arith
  scan_peers-le (p ∷ ps) b =
      let c = consider size b p (stats_for p) in
      le_trans b.avail c.avail (scan_peers stats_for size ps c).avail
        (consider-le b p (stats_for p)) (scan_peers-le ps c)

  scan_peers-beats :
      (ps : List Text) (b : Best) (n : Text) (a : ℤ)
      → Memᴰ n ps
      → Offers n a
      → a ≤ℤ (scan_peers stats_for size ps b).avail
  unfolding scan_peers
  scan_peers-beats [] b n a m o = elim m [ ]
  scan_peers-beats (p ∷ ps) b n a (head e) o =
      let c = consider size b p (stats_for p) in
      let told : stats_for p ≡ ok o.stats = subst (λ x. stats_for x ≡ ok o.stats) e o.told in
      let beats = told-beats b p (stats_for p) o.stats told (le-fits o.stats o.online o.room) in
      le_trans a c.avail (scan_peers stats_for size ps c).avail
        (subst (λ x. x ≤ℤ c.avail) o.has beats) (scan_peers-le ps c)
  scan_peers-beats (p ∷ ps) b n a (tail m) o =
      scan_peers-beats ps (consider size b p (stats_for p)) n a m o

  scan_peers-origin :
      (ps : List Text) (b : Best)
      → (scan_peers stats_for size ps b ≡ b)
        ⊎ (Memᴰ (scan_peers stats_for size ps b).node ps
            × Offers (scan_peers stats_for size ps b).node (scan_peers stats_for size ps b).avail)
  unfolding scan_peers
  scan_peers-origin [] b = inl refl
  scan_peers-origin (p ∷ ps) b =
      let c = consider size b p (stats_for p) in
      elim (scan_peers-origin ps c) [
        | inl e ↦ elim (consider-origin b p (stats_for p) refl) [
          | inl e2 ↦ inl (e ∙ e2)
          | inr (n, o) ↦ inr (head (ap (λ x. x.node) e ∙ n), rw (e, n) o)
        ]
        | inr (m, o) ↦ inr (tail m, o)
      ]

  -- A node of the list that offers room, and no node of the list that offers room has more.
  pub record IsRoomiest (ps : List Text) (node : Text) : Type 0 where
    pub avail : ℤ
    pub listed : Memᴰ node ps
    pub offers : Offers node avail
    pub most : (n : Text) (a : ℤ) → Memᴰ n ps → Offers n a → a ≤ℤ avail

  scan_peers-IsRoomiest :
      (ps : List Text)
      → (scan_peers stats_for size ps no_best).node ≢ []
      → IsRoomiest ps (scan_peers stats_for size ps no_best).node
  scan_peers-IsRoomiest ps named = elim (scan_peers-origin ps no_best) [
    | inl e ↦ absurd (named (ap (λ x. x.node) e))
    | inr (m, o) ↦ record {
      avail = _;
      listed = m;
      offers = o;
      most = λ n a. scan_peers-beats ps no_best n a;
    }
  ]

  chosen-IsRoomiest :
      (ps : List Text) (node : Text)
      → chosen (ok ps) stats_for (scan_peers stats_for size ps no_best) ≡ ok node
      → IsRoomiest ps node
  unfolding chosen
  chosen-IsRoomiest ps node h =
      elim (Bool-cases ((scan_peers stats_for size ps no_best).node == [])) [
        | inl e ↦ absurd (ground arith)
        | inr e ↦
            (let same : (scan_peers stats_for size ps no_best).node ≡ node = ground arith in
              let named : (scan_peers stats_for size ps no_best).node ≢ [] = λ z.
                ground (arith, (text_beq_iff (scan_peers stats_for size ps no_best).node []).1 z) in
              subst (IsRoomiest ps) same (scan_peers-IsRoomiest ps named))
      ]

  -- A node that pickRoomiest answers is one of the peers, told that it has the pool online with room for the size,
  -- and has the most available bytes among all the peers that told so.
  pub pick_roomiest-IsRoomiest :
      (ps : List Text) (node : Text)
      → pick_roomiest (ok ps) stats_for size ≡ ok node
      → IsRoomiest ps node
  unfolding pick_roomiest pick_among
  pick_roomiest-IsRoomiest [] node h = absurd (ground arith)
  pick_roomiest-IsRoomiest (p ∷ ps) node h = chosen-IsRoomiest (p ∷ ps) node h

  leads :
      (ps : List Text) (n : Text) (a : ℤ)
      → ((m : Text) → Memᴰ m ps → m ≢ [])
      → pos 0 ≤ℤ size
      → Memᴰ n ps
      → Offers n a
      → (scan_peers stats_for size ps no_best).node ≢ []
  leads ps n a names h m o = elim (scan_peers-origin ps no_best) [
    | inl e ↦
        (let beats = scan_peers-beats ps no_best n a m o in
          let low : a ≤ℤ negsuc 0 = subst (λ x. a ≤ℤ x.avail) e beats in
          let room : size ≤ℤ a = subst (λ x. size ≤ℤ x) o.has o.room in absurd (omega arith))
    | inr (w, q) ↦ names _ w
  ]

  -- For a size that is not negative and peers with names, one peer that tells that it has the pool online with room
  -- is enough for pickRoomiest to answer a node.
  pub pick_roomiest_answers :
      (ps : List Text) (n : Text) (a : ℤ)
      → ((m : Text) → Memᴰ m ps → m ≢ [])
      → pos 0 ≤ℤ size
      → Memᴰ n ps
      → Offers n a
      → (node : Text) × (pick_roomiest (ok ps) stats_for size ≡ ok node)
  unfolding pick_roomiest pick_among chosen
  pick_roomiest_answers [] n a names h m o = elim m [ ]
  pick_roomiest_answers (p ∷ ps) n a names h m o =
      let s = scan_peers stats_for size (p ∷ ps) no_best in
      elim (Bool-cases (s.node == [])) [
        | inl e ↦ absurd (leads (p ∷ ps) n a names h m o ((text_beq_iff s.node []).0 e))
        | inr e ↦ (s.node, rw e refl)
      ]
