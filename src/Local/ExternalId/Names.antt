-- ===== src/Local/ExternalId/Names.antt =====
-- internal/driver/local/externalid.go: `sanitizeName`.
use nomad_csi_driver.Base.{
  ℕ, ◌≤◌, ◌<◌, Text, ◌≡◌, ◌↔◌, ◌∙◌, ap, true, inl, inr, [], ◌∷◌, All, length, take, arith,
}
use mathlib.Core.Path.{subst}
use nomad_csi_driver.Base.Take.{All-take, length-take-le, take_all}
use nomad_csi_driver.Go.Runes.{IsMapped, map_runes-IsMapped, map_runes_kept}
use nomad_csi_driver.Local.ExternalId.{is_name_char, sanitize_name}

-- A character of a dataset's name, which a slash is not.
abbrev pub IsChar : ℕ → Type 0
IsChar c = (c < 0x80) × (is_name_char c ≡ true)

-- A component of a dataset: at most 200 of the characters that ZFS takes.
pub record IsComponent (t : Text) : Type 0 where
  pub short : length t ≤ 200
  pub chars : All IsChar t

char : (c : ℕ) → IsMapped is_name_char b'-' c → IsChar c
unfolding is_name_char
char c (inl e) = ground arith
char c (inr k) = k

all_chars : (t : Text) → All (IsMapped is_name_char b'-') t → All IsChar t
all_chars [] h = tt
all_chars (c ∷ t) h = (char c h.0, all_chars t h.1)

pub sanitize_name-IsComponent : (name : Text) → IsComponent (sanitize_name name)
unfolding sanitize_name
sanitize_name-IsComponent name = record {
  short = length-take-le 200 _;
  chars = all_chars _ (All-take _ 200 _ (map_runes-IsMapped is_name_char b'-' name));
}

sanitize_name_kept : (t : Text) → IsComponent t → sanitize_name t ≡ t
unfolding sanitize_name
sanitize_name_kept t h =
    ap (take 200) (map_runes_kept is_name_char b'-' t h.chars) ∙ take_all 200 t h.short

-- Every requested name, in any encoding, becomes at most 200 of the characters that ZFS takes in a
-- component of a dataset, and a text is such a component exactly when sanitizing keeps it.
pub sanitize_name_fixes :
    (name : Text)
    → IsComponent (sanitize_name name) × ((sanitize_name name ≡ name) ↔ IsComponent name)
sanitize_name_fixes name = (
  sanitize_name-IsComponent name,
  ((λ e. subst IsComponent e (sanitize_name-IsComponent name)), sanitize_name_kept name),
)
