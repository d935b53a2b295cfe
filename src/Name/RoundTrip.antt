-- ===== src/Name/RoundTrip.antt =====
-- Printing a name or a connection and parsing it gives it back.
use fogros2_sgc.Base.{
  ℕ, suc, ◌+◌, ◌*◌, ◌/◌, ◌%◌, ◌<◌, ◌≤◌, ◌≡◌, refl, ap, sym, ◌∙◌, true, false, List, [], ◌∷◌, ◌++◌,
  some, nat_beq, arith, ◌↔◌,
}
use fogros2_sgc.Base.Result.{ok}
use fogros2_sgc.Text.{Text}
use fogros2_sgc.Text.Parts.{split, is_utf8, is_utf8-IsAscii, Avoids, split-Avoids, split-append}
use fogros2_sgc.Name.{
  GdpName, IsBytes, name_eq, hex_digit, hex_byte, show_name, to_digit, add_digits, from_str_radix,
  set_byte, fill, parse_name, Connection, show_connection, connection_from_str, connection_id,
}

to_digit-hex_digit : (d : ℕ) → d < 16 → to_digit (hex_digit d) ≡ some d
unfolding to_digit hex_digit
to_digit-hex_digit d h = ground arith

hex_digit_bounds : (d : ℕ) → d < 16 → (48 ≤ hex_digit d) × (hex_digit d < 128)
unfolding hex_digit
hex_digit_bounds d h = ground arith

add_digits-pair :
    (x y : ℕ) → x < 16 → y < 16 → add_digits 0 (hex_digit x ∷ hex_digit y ∷ []) ≡ ok (x * 16 + y)
unfolding add_digits
add_digits-pair x y h k = ground (arith, to_digit-hex_digit x h, to_digit-hex_digit y k)

from_str_radix-hex_byte : (b : ℕ) → b < 256 → from_str_radix (hex_byte b) ≡ ok b
unfolding from_str_radix hex_byte
from_str_radix-hex_byte b h = ground (
  arith,
  hex_digit_bounds (b / 16) (omega arith),
  add_digits-pair (b / 16) (b % 16) (omega arith) (omega arith),
)

is_utf8-hex_byte : (b : ℕ) → b < 256 → is_utf8 (hex_byte b) ≡ true
unfolding hex_byte
is_utf8-hex_byte b h = is_utf8-IsAscii (hex_byte b) (
  ground (arith, hex_digit_bounds (b / 16) (omega arith)),
  (ground (arith, hex_digit_bounds (b % 16) (omega arith)), tt),
)

fill-hex_byte :
    (i : ℕ) (g : GdpName) (b : ℕ) (chunks : List Text)
    → b < 256
    → fill i g (hex_byte b ∷ chunks) ≡ fill (suc i) (set_byte g i b) chunks
unfolding fill
fill-hex_byte i g b chunks h =
    rw (is_utf8-hex_byte b h, fill) (rw (from_str_radix-hex_byte b h, fill))

fill-nil : (i : ℕ) (g : GdpName) → fill i g [] ≡ ok g
unfolding fill
fill-nil i g = refl

abbrev unset : GdpName
unset = record { byte0 = 0; byte1 = 0; byte2 = 0; byte3 = 0 }

fill_all :
    (g : GdpName)
    → IsBytes g
    → fill 0 unset (hex_byte g.byte0 ∷ hex_byte g.byte1 ∷ hex_byte g.byte2 ∷ hex_byte g.byte3 ∷ [])
      ≡ ok g
fill_all g h =
    simp (fill-hex_byte, h.small0, h.small1, h.small2, h.small3, fill-nil) (unfold set_byte in refl)

-- A name of four bytes is read back from its hexadecimal form.
pub parse_name-show_name : (g : GdpName) → IsBytes g → parse_name (show_name g) ≡ ok g
unfolding parse_name show_name
parse_name-show_name g h = fill_all g h

-- Two names of four bytes with the same form are equal.
pub show_name-injective :
    (g h : GdpName) → IsBytes g → IsBytes h → show_name g ≡ show_name h → g ≡ h
show_name-injective g h p q e =
    cc (parse_name-show_name g p, parse_name-show_name h q, ap parse_name e)

pub name_eq_iff : (g h : GdpName) → (name_eq g h ≡ true) ↔ (g ≡ h)
unfolding name_eq
name_eq_iff g h = ground arith

hex_digit_no_dash : (d : ℕ) → d < 16 → nat_beq (hex_digit d) b'-' ≡ false
hex_digit_no_dash d h = ground (arith, hex_digit_bounds d h)

hex_byte-Avoids : (b : ℕ) (s : Text) → b < 256 → Avoids b'-' s → Avoids b'-' (hex_byte b ++ s)
unfolding hex_byte
hex_byte-Avoids b s h a =
    (hex_digit_no_dash (b / 16) (omega arith), (hex_digit_no_dash (b % 16) (omega arith), a))

pub show_name-Avoids : (g : GdpName) → IsBytes g → Avoids b'-' (show_name g)
unfolding show_name
show_name-Avoids g h =
    let last = hex_byte-Avoids g.byte3 [] h.small3 tt in
    let third = hex_byte-Avoids g.byte2 (hex_byte g.byte3 ++ []) h.small2 last in
    let second =
      hex_byte-Avoids g.byte1 (hex_byte g.byte2 ++ (hex_byte g.byte3 ++ [])) h.small1 third in
    hex_byte-Avoids g.byte0 (hex_byte g.byte1 ++ (hex_byte g.byte2 ++ (hex_byte g.byte3 ++ [])))
      h.small0 (unfold hex_byte in second)

split-show_connection :
    (c : Connection)
    → IsBytes c.publisher
    → IsBytes c.subscriber
    → split b'-' (show_connection c) ≡ show_name c.publisher ∷ show_name c.subscriber ∷ []
unfolding show_connection
split-show_connection c p q =
    split-append b'-' (show_name c.publisher) (show_name c.subscriber)
      (show_name-Avoids c.publisher p)
    ∙ ap (◌∷◌ (show_name c.publisher))
        (split-Avoids b'-' (show_name c.subscriber) (show_name-Avoids c.subscriber q))

-- A connection of two names of four bytes is read back from its printed form.
pub connection_from_str-show :
    (c : Connection)
    → IsBytes c.publisher
    → IsBytes c.subscriber
    → connection_from_str (show_connection c) ≡ ok c
unfolding connection_from_str
connection_from_str-show c p q = rw (
  split-show_connection c p q,
  parse_name-show_name c.publisher p,
  parse_name-show_name c.subscriber q,
)

split-connection_id :
    (t : GdpName) (c : Connection)
    → IsBytes t
    → IsBytes c.publisher
    → IsBytes c.subscriber
    → split b'-' (connection_id t c)
      ≡ show_name t ∷ show_name c.publisher ∷ show_name c.subscriber ∷ []
unfolding connection_id
split-connection_id t c h p q =
    split-append b'-' (show_name t) (show_connection c) (show_name-Avoids t h)
    ∙ ap (◌∷◌ (show_name t)) (split-show_connection c p q)

-- Equal connection identifiers, all names of four bytes, are of one topic and one connection.
pub connection_id-injective :
    (t u : GdpName) (c d : Connection)
    → IsBytes t
    → IsBytes u
    → IsBytes c.publisher
    → IsBytes c.subscriber
    → IsBytes d.publisher
    → IsBytes d.subscriber
    → connection_id t c ≡ connection_id u d
    → (t ≡ u) × (c ≡ d)
connection_id-injective t u c d ht hu p q r s e =
    let parts =
      sym (split-connection_id t c ht p q) ∙ ap (split b'-') e ∙ split-connection_id u d hu r s in
    (
      show_name-injective t u ht hu (cc parts),
      cc (
        show_name-injective c.publisher d.publisher p r (cc parts),
        show_name-injective c.subscriber d.subscriber q s (cc parts),
      ),
    )
