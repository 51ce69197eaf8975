-- ===== src/Go/Path.antt =====
-- Go's path/filepath on rooted paths: Clean and Join.
use nomad_csi_driver.Base.{
  eqb, Text, List, [], ◌∷◌, ◌++◌, codes, text_eq, ◌==◌, ◌||◌, if◌then◌else◌, reverse,
}
use nomad_csi_driver.Go.Strings.{split}

dropped_last : List Text → List Text
dropped_last [] = []
dropped_last (x ∷ xs) = xs

-- The elements so far, the last one first; the parent of the root is the root.
unfoldable pub clean_elements : List Text → List Text → List Text
unfolding dropped_last
clean_elements done [] = done
clean_elements done (p ∷ ps) =
    clean_elements
      (if p == [] || p == codes "."
        then done
        else if p == codes ".."
        then dropped_last done
        else p ∷ done)
      ps

unfoldable pub rooted : List Text → Text
rooted [] = []
rooted (p ∷ ps) = b'/' ∷ (p ++ rooted ps)

-- `filepath.Clean` of a path that starts with a slash.
unfoldable pub clean_rooted : Text → Text
unfolding clean_elements rooted
clean_rooted path = elim (clean_elements [] (split b'/' path)) [
  | [] ↦ b'/' ∷ []
  | p ∷ ps ↦ rooted (reverse (p ∷ ps))
]

-- `filepath.Join(dir, name)` for such a directory.
unfoldable pub join_rooted : Text → Text → Text
unfolding clean_rooted
join_rooted dir name = if name == [] then clean_rooted dir else clean_rooted (dir ++ b'/' ∷ name)

drop_slashes : Text → Text
drop_slashes [] = []
drop_slashes (c ∷ s) = if eqb c b'/' then drop_slashes s else c ∷ s

up_to_slash : Text → Text
up_to_slash [] = []
up_to_slash (c ∷ s) = let rest = up_to_slash s in if eqb c b'/' then [] else c ∷ rest

last_element : Text → Text → Text
unfolding up_to_slash
last_element whole [] = if whole == [] then codes "." else codes "/"
last_element whole (c ∷ rev) = reverse (up_to_slash (c ∷ rev))

-- `filepath.Base`
unfoldable pub base : Text → Text
unfolding drop_slashes last_element
base path = last_element path (drop_slashes (reverse path))
