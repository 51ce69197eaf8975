-- ===== src/Tests/PlacementTests.antt =====
-- internal/driver/local/controller.go: the placement of a volume at concrete inputs.
use mathlib.Core.List.{Memᴰ}
use mathlib.Core.List.Memᴰ.{head, tail}
use nomad_csi_driver.Base.{
  pos, Text, ◌≡◌, ◌≢◌, refl, true, List, [], ◌∷◌, codes, text_eq, text_beq, ◌==◌, arith,
  if◌then◌else◌,
}
use nomad_csi_driver.Driver.Errors.{Result, ok}
use nomad_csi_driver.Local.Wire.{StatsResult}
use nomad_csi_driver.Local.Placement.{pick_roomiest}
use nomad_csi_driver.Local.Placement.Roomiest.{
  IsRoomiest, Offers, pick_roomiest-IsRoomiest, pick_roomiest_answers,
}

abbrev nodes : List Text
nodes = codes "n1" ∷ codes "n2" ∷ []

-- The second node has the most available.
abbrev answers_of : Text → Result StatsResult
answers_of n =
    if n == codes "n2"
    then ok (record {
      node = codes "n2";
      has_pool = true;
      volume_count = pos 1;
      free_bytes = pos 9;
      avail_bytes = pos 9;
    })
    else ok (record {
      node = codes "n1";
      has_pool = true;
      volume_count = pos 0;
      free_bytes = pos 9;
      avail_bytes = pos 5;
    })

picks_n2 : pick_roomiest (ok nodes) answers_of (pos 3) ≡ ok (codes "n2")
unfolding pick_roomiest text_beq
picks_n2 = refl

pick_roomiest-IsRoomiest_example : IsRoomiest answers_of (pos 3) nodes (codes "n2")
pick_roomiest-IsRoomiest_example =
    pick_roomiest-IsRoomiest answers_of (pos 3) nodes (codes "n2") picks_n2

named : (m : Text) → Memᴰ m nodes → m ≢ []
named m (head e) = λ z. ground arith
named m (tail (head e)) = λ z. ground arith
named m (tail (tail x)) = elim x [ ]

n1-Offers : Offers answers_of (pos 3) (codes "n1") (pos 5)
unfolding text_beq
n1-Offers = record {
  stats = record {
    node = codes "n1";
    has_pool = true;
    volume_count = pos 0;
    free_bytes = pos 9;
    avail_bytes = pos 5;
  };
  told = refl;
  online = refl;
  room = omega arith;
  has = refl;
}

pick_roomiest_answers_example :
    (node : Text) × (pick_roomiest (ok nodes) answers_of (pos 3) ≡ ok node)
pick_roomiest_answers_example =
    pick_roomiest_answers answers_of (pos 3) nodes (codes "n1") (pos 5) named (omega arith)
      (head refl) n1-Offers
