-- ===== src/Text/Trim.antt =====
-- `strip_prefix`, `trim_start_matches` and `contains` of std.
-- `str::strip_prefix`
use fogros2_sgc.Base.{
  ℕ, zero, suc, Bool, false, ◌||◌, Option, none, some, [], ◌∷◌, if◌then◌else◌, nat_beq, length,
}
use fogros2_sgc.Text.{Text}

unfoldable pub strip_prefix : Text → Text → Option Text
strip_prefix [] s = some s
strip_prefix (b ∷ bs) [] = none
strip_prefix (b ∷ bs) (c ∷ cs) = let rest = strip_prefix bs cs in if nat_beq b c then rest else none

-- `str::trim_start_matches`, which strips as long as it can. A text of length n has room for n times.
unfoldable pub trim_from : ℕ → Text → Text → Text
unfolding strip_prefix
trim_from zero p s = s
trim_from (suc fuel) p s = elim (strip_prefix p s) [ none ↦ s | some rest ↦ trim_from fuel p rest ]

unfoldable pub trim_start_matches : Text → Text → Text
unfolding trim_from
trim_start_matches p s = trim_from (length s) p s

-- `str::contains` of a character
unfoldable pub has_char : ℕ → Text → Bool
has_char c [] = false
has_char c (b ∷ bs) = nat_beq b c || has_char c bs
