-- ===== src/Text/Blank.antt =====
-- `s.trim().is_empty()`: whether all characters of a UTF-8 text are white space. The states are the
-- bytes of a white-space character read so far.
use fogros2_sgc.Base.{
  ℕ, Bool, true, false, ◌&&◌, ◌||◌, [], ◌∷◌, Option, none, some, leb, nat_beq, if◌then◌else◌,
}
use fogros2_sgc.Text.{Text}

pub data Read : Type 0 where
  between after_c2 after_e1 after_e1_9a after_e2 after_e2_80 after_e2_81 after_e3 after_e3_80 : Read

unfoldable pub space_step : Read → ℕ → Option Read
space_step between b =
    if nat_beq b 0x20 || leb 9 b && leb b 13
    then some between
    else if nat_beq b 0xc2
    then some after_c2
    else if nat_beq b 0xe1
    then some after_e1
    else if nat_beq b 0xe2
    then some after_e2
    else if nat_beq b 0xe3
    then some after_e3
    else none
space_step after_c2 b = if nat_beq b 0x85 || nat_beq b 0xa0 then some between else none
space_step after_e1 b = if nat_beq b 0x9a then some after_e1_9a else none
space_step after_e1_9a b = if nat_beq b 0x80 then some between else none
space_step after_e2 b =
    if nat_beq b 0x80 then some after_e2_80 else if nat_beq b 0x81 then some after_e2_81 else none
space_step after_e2_80 b =
    if leb 0x80 b && leb b 0x8a || leb 0xa8 b && leb b 0xa9 || nat_beq b 0xaf
    then some between
    else none
space_step after_e2_81 b = if nat_beq b 0x9f then some between else none
space_step after_e3 b = if nat_beq b 0x80 then some after_e3_80 else none
space_step after_e3_80 b = if nat_beq b 0x80 then some between else none

unfoldable pub is_blank_from : Read → Text → Bool
unfolding space_step
is_blank_from between [] = true
is_blank_from _ [] = false
is_blank_from r (b ∷ bs) = elim (space_step r b) [ none ↦ false | some r' ↦ is_blank_from r' bs ]

unfoldable pub is_blank : Text → Bool
unfolding is_blank_from
is_blank = is_blank_from between
