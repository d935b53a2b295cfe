-- ===== src/Routing/Fanout.antt =====
-- core/src/routing.rs, `fanout`: the variable FANOUT_FACTOR, if it is a number from 1 to 1024, and
-- otherwise DEFAULT_FANOUT. The source reads it once.
use fogros2_sgc.Base.{
  ℕ, ◌+◌, ◌-◌, ◌*◌, ◌^◌, ◌≤◌, ◌&&◌, [], ◌∷◌, Option, none, some, arith, ltb, leb, nat_beq,
  if◌then◌else◌,
}
use fogros2_sgc.Text.{Text}

abbrev pub default_fanout : ℕ
default_fanout = 3

-- The digits of `str::parse::<usize>`, with overflow checked at each step.
unfoldable pub add_decimals : ℕ → Text → Option ℕ
add_decimals acc [] = some acc
add_decimals acc (c ∷ cs) =
    let n = acc * 10 + (c - b'0') in
    let rest = add_decimals n cs in
    if leb b'0' c && leb c b'9' && ltb n (2 ^ 64) then rest else none

-- One leading `+` is allowed before digits.
unfoldable pub parse_usize : Text → Option ℕ
unfolding add_decimals
parse_usize [] = none
parse_usize (c ∷ []) = add_decimals 0 (c ∷ [])
parse_usize (c ∷ d ∷ cs) =
    if nat_beq c b'+' then add_decimals 0 (d ∷ cs) else add_decimals 0 (c ∷ d ∷ cs)

-- `.filter(|n| (1..=1024).contains(n)).unwrap_or(DEFAULT_FANOUT)`
abbrev pub in_range_or_default : Option ℕ → ℕ
in_range_or_default none = default_fanout
in_range_or_default (some n) = if leb 1 n && leb n 1024 then n else default_fanout

unfoldable pub fanout : Option Text → ℕ
unfolding parse_usize
fanout none = default_fanout
fanout (some v) = in_range_or_default (parse_usize v)

-- The fanout lies between 1 and 1024, whatever the variable holds.
pub fanout_bounds : (v : Option Text) → (1 ≤ fanout v) × (fanout v ≤ 1024)
unfolding fanout
fanout_bounds none = omega arith
fanout_bounds (some v) = ground arith
