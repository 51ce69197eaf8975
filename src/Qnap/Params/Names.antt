-- ===== src/Qnap/Params/Names.antt =====
-- internal/driver/qnap/params.go: `sanitizeLUNName`, and why its names are safe in a volume id.
use nomad_csi_driver.Base.{
  ℕ, ◌≤◌, ◌<◌, Text, ◌≡◌, ◌≢◌, ◌∙◌, ap, true, inl, inr, [], ◌∷◌, All, length, take, arith,
}
use nomad_csi_driver.Base.Take.{All-take, length-take-le, take_all}
use nomad_csi_driver.Go.Runes.{IsMapped, map_runes-IsMapped, map_runes_kept}
use nomad_csi_driver.Qnap.Params.{is_lun_char, sanitize_lun_name}

-- The name of a LUN: at most 64 of the characters that QNAP takes.
pub record IsLunName (t : Text) : Type 0 where
  pub short : length t ≤ 64
  pub chars : All (λ c. (c < 0x80) × (is_lun_char c ≡ true)) t

mapped_chars :
    (t : Text)
    → All (IsMapped is_lun_char b'-') t
    → All (λ c. (c < 0x80) × (is_lun_char c ≡ true)) t
unfolding is_lun_char
mapped_chars [] h = tt
mapped_chars (c ∷ t) h = (char c h.0, mapped_chars t h.1)
  where
    char : (c : ℕ) → IsMapped is_lun_char b'-' c → (c < 0x80) × (is_lun_char c ≡ true)
    char c (inl e) = ground arith
    char c (inr k) = k

pub sanitize_lun_name-IsLunName : (name : Text) → IsLunName (sanitize_lun_name name)
unfolding sanitize_lun_name
sanitize_lun_name-IsLunName name = record {
  short = length-take-le 64 _;
  chars = mapped_chars _ (All-take _ 64 _ (map_runes-IsMapped is_lun_char b'-' name));
}

-- The name of a LUN is kept as it is.
kept : (t : Text) → IsLunName t → sanitize_lun_name t ≡ t
unfolding sanitize_lun_name
kept t h = ap (take 64) (map_runes_kept is_lun_char b'-' t h.chars) ∙ take_all 64 t h.short

pub NoSlash-IsLunName :
    (t : Text) → All (λ c. (c < 0x80) × (is_lun_char c ≡ true)) t → All (λ c. c ≢ b'/') t
unfolding is_lun_char
NoSlash-IsLunName [] h = tt
NoSlash-IsLunName (c ∷ t) h = (λ e. ground arith, NoSlash-IsLunName t h.1)

-- Every requested name, in any encoding, becomes at most 64 of the characters that QNAP takes in a
-- LUN name, and sanitizing that a second time changes nothing.
pub sanitize_lun_name_idem :
    (name : Text)
    → IsLunName (sanitize_lun_name name)
      × (sanitize_lun_name (sanitize_lun_name name) ≡ sanitize_lun_name name)
sanitize_lun_name_idem name =
    (sanitize_lun_name-IsLunName name, kept _ (sanitize_lun_name-IsLunName name))
