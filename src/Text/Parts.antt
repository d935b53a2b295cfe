-- ===== src/Text/Parts.antt =====
-- Splitting and checking texts as the source does it: `str::split`, `chunks(2)`,
-- `str::from_utf8`, `trim().is_empty()`.
use fogros2_sgc.Base.{
  ℕ, zero, suc, ◌≡◌, refl, Bool, true, false, ◌&&◌, Option, none, some, List, [], ◌∷◌, ◌++◌, arith,
  if◌then◌else◌, ltb, leb, nat_beq,
}
use fogros2_sgc.Text.{Text}

-- Puts a byte in front of the first part.
abbrev pub prefix_head : ℕ → List Text → List Text
prefix_head c [] = (c ∷ []) ∷ []
prefix_head c (p ∷ ps) = (c ∷ p) ∷ ps

-- `s.split(sep)`, collected: one part more than there are separators.
unfoldable pub split : ℕ → Text → List Text
split sep [] = [] ∷ []
split sep (c ∷ cs) =
    let parts = split sep cs in if nat_beq c sep then [] ∷ parts else prefix_head c parts

unfoldable pub chunks2 : Text → List Text
chunks2 [] = []
chunks2 (a ∷ []) = (a ∷ []) ∷ []
chunks2 (a ∷ b ∷ cs) = (a ∷ b ∷ []) ∷ chunks2 cs

-- The continuation bytes that a leading byte of UTF-8 wants, with the range of the first.
unfoldable pub utf8_lead : ℕ → Option (ℕ × ℕ × ℕ)
utf8_lead b =
    if ltb b 0x80
    then some (0, 0x80, 0xbf)
    else if leb 0xc2 b && leb b 0xdf
    then some (1, 0x80, 0xbf)
    else if nat_beq b 0xe0
    then some (2, 0xa0, 0xbf)
    else if nat_beq b 0xed
    then some (2, 0x80, 0x9f)
    else if leb 0xe1 b && leb b 0xef
    then some (2, 0x80, 0xbf)
    else if nat_beq b 0xf0
    then some (3, 0x90, 0xbf)
    else if leb 0xf1 b && leb b 0xf3
    then some (3, 0x80, 0xbf)
    else if nat_beq b 0xf4
    then some (3, 0x80, 0x8f)
    else none

-- Whether the bytes end well, with `need` continuation bytes due and the next in `lo` to `hi`.
unfoldable pub utf8_from : ℕ → ℕ → ℕ → Text → Bool
unfolding utf8_lead
utf8_from need lo hi [] = nat_beq need 0
utf8_from zero lo hi (b ∷ bs) = elim (utf8_lead b) [
  | none ↦ false
  | some (need, lo', hi') ↦ utf8_from need lo' hi' bs
]
utf8_from (suc need) lo hi (b ∷ bs) =
    let rest = utf8_from need 0x80 0xbf bs in if leb lo b && leb b hi then rest else false

-- `std::str::from_utf8(bytes).is_ok()`
unfoldable pub is_utf8 : Text → Bool
unfolding utf8_from
is_utf8 bs = utf8_from 0 0x80 0xbf bs

-- `std::str::from_utf8(bytes).ok()`
unfoldable pub from_utf8 : Text → Option Text
unfolding is_utf8
from_utf8 bs = if is_utf8 bs then some bs else none

abbrev pub IsAscii : Text → Type 0
IsAscii [] = Unit {0}
IsAscii (b ∷ bs) = (ltb b 0x80 ≡ true) × IsAscii bs

utf8_lead-ascii : (b : ℕ) → ltb b 0x80 ≡ true → utf8_lead b ≡ some (0, 0x80, 0xbf)
unfolding utf8_lead
utf8_lead-ascii b h = rw h

pub utf8_from-IsAscii : (bs : Text) (lo hi : ℕ) → IsAscii bs → utf8_from 0 lo hi bs ≡ true
unfolding utf8_from
utf8_from-IsAscii [] lo hi h = refl
utf8_from-IsAscii (b ∷ bs) lo hi h =
    rw (utf8_lead-ascii b h.0, utf8_from) (utf8_from-IsAscii bs 0x80 0xbf h.1)

-- No byte of the text is the separator.
abbrev pub Avoids : ℕ → Text → Type 0
Avoids sep [] = Unit {0}
Avoids sep (c ∷ cs) = (nat_beq c sep ≡ false) × Avoids sep cs

pub split-Avoids : (sep : ℕ) (s : Text) → Avoids sep s → split sep s ≡ s ∷ []
unfolding split
split-Avoids sep [] h = refl
split-Avoids sep (c ∷ cs) h = rw (h.0, split-Avoids sep cs h.1)

pub split-append :
    (sep : ℕ) (s t : Text) → Avoids sep s → split sep (s ++ sep ∷ t) ≡ s ∷ split sep t
unfolding split
split-append sep [] t h = ground arith
split-append sep (c ∷ cs) t h = rw (h.0, split-append sep cs t h.1)

pub is_utf8-IsAscii : (bs : Text) → IsAscii bs → is_utf8 bs ≡ true
unfolding is_utf8
is_utf8-IsAscii bs h = utf8_from-IsAscii bs 0x80 0xbf h

pub from_utf8-IsUtf8 : (bs : Text) → is_utf8 bs ≡ true → from_utf8 bs ≡ some bs
unfolding from_utf8
from_utf8-IsUtf8 bs h = rw h
