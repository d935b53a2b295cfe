-- ===== src/Config/Address.antt =====
-- core/src/db.rs, `get_redis_address_and_port`, on a configuration that was fetched. `parse::<u16>` is
-- that of std: a digit is checked before the overflow.
use fogros2_sgc.Base.{
  ℕ, zero, suc, ◌+◌, ◌-◌, ◌*◌, ◌/◌, ◌%◌, ◌^◌, ◌<◌, ◌≡◌, refl, ap, subst, ◌∙◌, ◌⊎◌, inl, inr, true,
  false, ◌&&◌, List, [], ◌∷◌, ◌++◌, arith, if◌then◌else◌, ltb, leb, nat_beq, Bool-cases,
}
use fogros2_sgc.Text.{Text}
use native.Mathlib.Nat.{pow-suc}
use fogros2_sgc.Config.{is_empty, AppConfig, show_usize, digits_from, validate}
use fogros2_sgc.Config.Valid.{IsAccepted, validate_iff}
use fogros2_sgc.Name.{ParseIntError, empty, invalid_digit, pos_overflow}
use fogros2_sgc.Base.Result.{Result, ok, err}
use fogros2_sgc.Text.Parts.{split, Avoids, split-Avoids, split-append}

unfoldable pub add_port_digits : ℕ → Text → Result ParseIntError ℕ
add_port_digits acc [] = ok acc
add_port_digits acc (c ∷ cs) =
    let n = acc * 10 + (c - b'0') in
    elim (leb b'0' c && leb c b'9') [
      | false ↦ err invalid_digit
      | true ↦ elim (ltb n (2 ^ 16)) [ true ↦ add_port_digits n cs | false ↦ err pos_overflow ]
    ]

-- One leading `+` before more characters is dropped; a sign alone is no digit.
abbrev pub strip_plus : Text → Text
strip_plus [] = []
strip_plus (c ∷ []) = c ∷ []
strip_plus (c ∷ d ∷ cs) = if nat_beq c b'+' then d ∷ cs else c ∷ d ∷ cs

strip_plus-Avoids : (s : Text) → Avoids b'+' s → strip_plus s ≡ s
strip_plus-Avoids [] h = refl
strip_plus-Avoids (c ∷ []) h = refl
strip_plus-Avoids (c ∷ d ∷ cs) h = rw h.0 refl

unfoldable pub parse_u16 : Text → Result ParseIntError ℕ
unfolding add_port_digits
parse_u16 [] = err empty
parse_u16 (c ∷ cs) = add_port_digits 0 (strip_plus (c ∷ cs))

pub data AddressError : Type 0 where
  missing_port : Text → AddressError
  invalid_port : Text → ParseIntError → AddressError

-- The first two parts of the text; `split` gives at least one.
abbrev address_of : Text → List Text → Result AddressError (Text × ℕ)
address_of url [] = err (missing_port url)
address_of url (address ∷ []) = err (missing_port url)
address_of url (address ∷ port_str ∷ more) = elim (parse_u16 port_str) [
  | ok port ↦ ok (address, port)
  | err e ↦ err (invalid_port port_str e)
]

unfoldable pub get_redis_address_and_port : AppConfig → Result AddressError (Text × ℕ)
unfolding split parse_u16
get_redis_address_and_port config =
    address_of config.routing_server (split b':' config.routing_server)

digits_from-Avoids :
    (sep fuel n : ℕ) (out : Text)
    → sep < b'0' ⊎ (b'9' < sep)
    → Avoids sep out
    → Avoids sep (digits_from fuel n out)
unfolding digits_from
digits_from-Avoids sep zero n out h a = a
digits_from-Avoids sep (suc fuel) n out h a = elim (Bool-cases (ltb n 10)) [
  | inl small ↦ rw small (ground (arith, h), a)
  | inr big ↦
      rw big (digits_from-Avoids sep fuel (n / 10) ((b'0' + n % 10) ∷ out) h (ground (arith, h), a))
]

add_digit :
    (acc d : ℕ) (cs : Text)
    → d < 10
    → acc * 10 + d < 2 ^ 16
    → add_port_digits acc ((b'0' + d) ∷ cs) ≡ add_port_digits (acc * 10 + d) cs
unfolding add_port_digits
add_digit acc d cs h s =
    let low : leb 48 (48 + d) ≡ true = ground arith in
    let high : leb (48 + d) 57 ≡ true = ground (arith, h) in
    let fits : ltb (acc * 10 + (48 + d - 48)) (2 ^ 16) ≡ true = ground (arith, s) in
    rw (low, high, fits, add_port_digits) (ap (λ m. add_port_digits m cs) (omega arith))

-- Reading the digits of a number first gives the number.
digits_from-read :
    (fuel n : ℕ) (out : Text)
    → n < 10 ^ fuel
    → n < 2 ^ 16
    → add_port_digits 0 (digits_from fuel n out) ≡ add_port_digits n out
unfolding digits_from
digits_from-read zero n out f s = let none_left : n ≡ 0 = omega (arith, f) in rw none_left refl
digits_from-read (suc fuel) n out f s = elim (Bool-cases (ltb n 10)) [
  | inl small ↦ rw small (
      add_digit 0 n out (ground (arith, small)) (omega (arith, s))
      ∙ ap (λ m. add_port_digits m out) (omega arith))
  | inr big ↦
      let f' : n < 10 ^ fuel * 10 = subst (λ m. n < m) (pow-suc 10 fuel) f in
      rw big (
        digits_from-read fuel (n / 10) ((b'0' + n % 10) ∷ out) (omega (arith, f'))
          (omega (arith, s))
        ∙ (add_digit (n / 10) (n % 10) out (omega arith) (ground (arith, s))
            ∙ ap (λ m. add_port_digits m out) (omega arith)))
]

-- The digits of a number are no sign, so they are read as they stand.
digits_from-keep :
    (fuel n : ℕ) (out : Text)
    → Avoids b'+' out
    → strip_plus (digits_from fuel n out) ≡ digits_from fuel n out
digits_from-keep fuel n out h =
    strip_plus-Avoids (digits_from fuel n out)
      (digits_from-Avoids b'+' fuel n out (inl (omega arith)) h)

parse_u16-keep :
    (s : Text) → is_empty s ≡ false → strip_plus s ≡ s → parse_u16 s ≡ add_port_digits 0 s
unfolding parse_u16
parse_u16-keep [] h e = absurd (cc (h))
parse_u16-keep (c ∷ cs) h e = ap (add_port_digits 0) e

digits_from-is_empty :
    (fuel n : ℕ) (out : Text) → is_empty out ≡ false → is_empty (digits_from fuel n out) ≡ false
unfolding digits_from
digits_from-is_empty zero n out h = h
digits_from-is_empty (suc fuel) n out h = elim (Bool-cases (ltb n 10)) [
  | inl small ↦ rw small refl
  | inr big ↦ rw big (digits_from-is_empty fuel (n / 10) ((b'0' + n % 10) ∷ out) refl)
]

digits_from-some : (fuel n : ℕ) → is_empty (digits_from (suc fuel) n []) ≡ false
unfolding digits_from
digits_from-some fuel n = elim (Bool-cases (ltb n 10)) [
  | inl small ↦ rw small refl
  | inr big ↦ rw big (digits_from-is_empty fuel (n / 10) ((b'0' + n % 10) ∷ []) refl)
]

add_port_digits-end : (n : ℕ) → add_port_digits n [] ≡ ok n
unfolding add_port_digits
add_port_digits-end n = refl

pub show_usize-is_empty : (n : ℕ) → is_empty (show_usize n) ≡ false
unfolding show_usize
show_usize-is_empty n = digits_from-some 19 n

pub show_usize-Avoids : (sep n : ℕ) → sep < b'0' ⊎ (b'9' < sep) → Avoids sep (show_usize n)
unfolding show_usize
show_usize-Avoids sep n h = digits_from-Avoids sep 20 n [] h tt

-- `parse::<u16>` reads what `to_string` prints of a number below 2 ^ 16.
pub parse_u16-digits_from : (n : ℕ) → n < 2 ^ 16 → parse_u16 (digits_from 20 n []) ≡ ok n
parse_u16-digits_from n h =
    parse_u16-keep (digits_from 20 n []) (digits_from-some 19 n) (digits_from-keep 20 n [] tt)
    ∙ (digits_from-read 20 n [] (omega (arith, h)) h ∙ add_port_digits-end n)

split-host :
    (host digits : Text)
    → Avoids b':' host
    → Avoids b':' digits
    → split b':' (host ++ b':' ∷ digits) ≡ host ∷ digits ∷ []
split-host host digits h d =
    split-append b':' host digits h ∙ ap (λ more. host ∷ more) (split-Avoids b':' digits d)

address_of-port :
    (url host digits : Text) (port : ℕ)
    → parse_u16 digits ≡ ok port
    → address_of url (host ∷ digits ∷ []) ≡ ok (host, port)
address_of-port url host digits port e = rw (e, address_of) refl

parts-host :
    (host : Text) (port : ℕ)
    → Avoids b':' host
    → split b':' (host ++ b':' ∷ show_usize port) ≡ host ∷ digits_from 20 port [] ∷ []
unfolding show_usize
parts-host host port h =
    split-host host (digits_from 20 port []) h
      (digits_from-Avoids b':' 20 port [] (inr (omega arith)) tt)

-- Of a configured routing server `host:port`, with no colon in the host and a port below 2 ^ 16 in
-- decimal digits, the host and the port are read back.
pub address-printed :
    (config : AppConfig) (host : Text) (port : ℕ)
    → Avoids b':' host
    → port < 2 ^ 16
    → config.routing_server ≡ host ++ b':' ∷ show_usize port
    → get_redis_address_and_port config ≡ ok (host, port)
unfolding get_redis_address_and_port
address-printed config host port h small e =
    ap (λ url. address_of url (split b':' url)) e
    ∙ (ap (address_of (host ++ b':' ∷ show_usize port)) (parts-host host port h)
        ∙ address_of-port (host ++ b':' ∷ show_usize port) host (digits_from 20 port []) port
            (parse_u16-digits_from port small))

-- A configuration whose routing server is a text without a colon is accepted by `validate` if what
-- else it asks holds, and yet no address can be read from it.
pub accepted_without_port :
    (config : AppConfig)
    → IsAccepted config
    → Avoids b':' config.routing_server
    → (validate config ≡ ok tt)
      × (get_redis_address_and_port config ≡ err (missing_port config.routing_server))
unfolding get_redis_address_and_port
accepted_without_port config good h = (
  (validate_iff config).1 good,
  ap (address_of config.routing_server) (split-Avoids b':' config.routing_server h),
)
