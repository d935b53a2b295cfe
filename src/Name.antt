-- ===== src/Name.antt =====
-- core/src/structs.rs, `GDPName` and `Connection` with their `Display`, `ToString` and `FromStr`,
-- and core/src/connection_store.rs. A byte is a number below 256.
pub mod RoundTrip
pub mod Bytes
use fogros2_sgc.Base.{
  ℕ, zero, suc, ◌+◌, ◌-◌, ◌*◌, ◌/◌, ◌%◌, ◌<◌, Bool, true, false, ◌&&◌, ◌||◌, List, [], ◌∷◌, ◌++◌,
  Option, none, some, ltb, leb, nat_beq, if◌then◌else◌, take,
}
use fogros2_sgc.Base.Result.{◌>>=◌, Result, ok, err, to_option}
use fogros2_sgc.Text.{Text}
use fogros2_sgc.Text.Parts.{split, chunks2, is_utf8}

pub record GdpName : Type 0 where
  pub byte0 : ℕ
  pub byte1 : ℕ
  pub byte2 : ℕ
  pub byte3 : ℕ

pub record IsBytes (g : GdpName) : Type 0 where
  pub small0 : g.byte0 < 256
  pub small1 : g.byte1 < 256
  pub small2 : g.byte2 < 256
  pub small3 : g.byte3 < 256

-- `#[derive(PartialEq)]`
unfoldable pub name_eq : GdpName → GdpName → Bool
name_eq g h =
    nat_beq g.byte0 h.byte0
    && nat_beq g.byte1 h.byte1
    && nat_beq g.byte2 h.byte2
    && nat_beq g.byte3 h.byte3

unfoldable pub hex_digit : ℕ → ℕ
hex_digit d = if ltb d 10 then b'0' + d else b'a' + (d - 10)

-- `{:02x}` of a byte
unfoldable pub hex_byte : ℕ → Text
unfolding hex_digit
hex_byte b = hex_digit (b / 16) ∷ hex_digit (b % 16) ∷ []

unfoldable pub show_name : GdpName → Text
unfolding hex_byte
show_name g = hex_byte g.byte0 ++ hex_byte g.byte1 ++ hex_byte g.byte2 ++ hex_byte g.byte3

pub data ParseIntError : Type 0 where
  empty invalid_digit pos_overflow : ParseIntError

-- `char::to_digit(16)`
unfoldable pub to_digit : ℕ → Option ℕ
to_digit c =
    if leb b'0' c && leb c b'9'
    then some (c - b'0')
    else if leb b'a' c && leb c b'f'
    then some (c - b'a' + 10)
    else if leb b'A' c && leb c b'F'
    then some (c - b'A' + 10)
    else none

-- The digits of `u8::from_str_radix(s, 16)`, with overflow checked at each step.
unfoldable pub add_digits : ℕ → Text → Result ParseIntError ℕ
unfolding to_digit
add_digits acc [] = ok acc
add_digits acc (c ∷ cs) = elim (to_digit c) [
  | none ↦ err invalid_digit
  | some d ↦ elim (ltb (acc * 16 + d) 256) [
    | true ↦ add_digits (acc * 16 + d) cs
    | false ↦ err pos_overflow
  ]
]

-- `u8::from_str_radix(s, 16)`: one leading `+` is allowed before digits, and a sign alone is not.
unfoldable pub from_str_radix : Text → Result ParseIntError ℕ
unfolding add_digits
from_str_radix [] = err empty
from_str_radix (c ∷ []) =
    if nat_beq c b'+' || nat_beq c b'-' then err invalid_digit else add_digits 0 (c ∷ [])
from_str_radix (c ∷ d ∷ cs) =
    if nat_beq c b'+' then add_digits 0 (d ∷ cs) else add_digits 0 (c ∷ d ∷ cs)

-- `bytes[i] = b`
unfoldable pub set_byte : GdpName → ℕ → ℕ → GdpName
set_byte g zero b = record g { byte0 = b }
set_byte g (suc zero) b = record g { byte1 = b }
set_byte g (suc (suc zero)) b = record g { byte2 = b }
set_byte g (suc (suc (suc i))) b = record g { byte3 = b }

-- The loop over the chunks: one that is no UTF-8 leaves its byte as it is.
unfoldable pub fill : ℕ → GdpName → List Text → Result ParseIntError GdpName
unfolding set_byte from_str_radix is_utf8
fill i g [] = ok g
fill i g (chunk ∷ chunks) = elim (is_utf8 chunk) [
  | true ↦ elim (from_str_radix chunk) [
    | ok b ↦ fill (suc i) (set_byte g i b) chunks
    | err e ↦ err e
  ]
  | false ↦ fill (suc i) g chunks
]

unfoldable pub parse_name : Text → Result ParseIntError GdpName
unfolding fill chunks2
parse_name s = fill 0 (record { byte0 = 0; byte1 = 0; byte2 = 0; byte3 = 0 }) (take 4 (chunks2 s))

pub record Connection : Type 0 where
  pub publisher : GdpName
  pub subscriber : GdpName

unfoldable pub show_connection : Connection → Text
unfolding show_name
show_connection c = show_name c.publisher ++ b'-' ∷ show_name c.subscriber

-- On two parts, each is parsed; `invalid_digit` is the error of `"invalid".parse::<i32>()`.
abbrev pub parse_parts : List Text → Result ParseIntError Connection
parse_parts (p ∷ s ∷ []) = do
  publisher ← parse_name p
  subscriber ← parse_name s
  ok (record { publisher = publisher; subscriber = subscriber })
parse_parts _ = err invalid_digit

unfoldable pub connection_from_str : Text → Result ParseIntError Connection
unfolding parse_name split
connection_from_str s = parse_parts (split b'-' s)

unfoldable pub parse_connection : Text → Option Connection
unfolding connection_from_str
parse_connection s = to_option (connection_from_str s)

unfoldable pub connection_id : GdpName → Connection → Text
unfolding show_connection
connection_id topic c = show_name topic ++ b'-' ∷ show_connection c

unfoldable pub is_node_involved : Connection → GdpName → Bool
unfolding name_eq
is_node_involved c me = name_eq c.publisher me || name_eq c.subscriber me
