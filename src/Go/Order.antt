-- ===== src/Go/Order.antt =====
-- Go's sort.Strings on the keys of a map.
use nomad_csi_driver.Base.{
  Text, Bool, true, false, ◌&&◌, ◌||◌, List, [], ◌∷◌, ltb, eqb, if◌then◌else◌, text_eq,
}
use nomad_csi_driver.Base.Map.{Map}

-- Byte by byte.
unfoldable pub text_leb : Text → Text → Bool
text_leb [] t = true
text_leb (c ∷ s) [] = false
text_leb (c ∷ s) (d ∷ t) = ltb c d || (eqb c d && text_leb s t)

insert_sorted : Text → List Text → List Text
unfolding text_leb
insert_sorted k [] = k ∷ []
insert_sorted k (j ∷ js) =
    let rest = insert_sorted k js in if text_leb k j then k ∷ j ∷ js else j ∷ rest

unfoldable pub sorted_keys : Map Text (Unit {0}) → List Text
unfolding insert_sorted
sorted_keys [] = []
sorted_keys ((k, u) ∷ m) = insert_sorted k (sorted_keys m)
