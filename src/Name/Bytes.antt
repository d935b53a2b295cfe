-- ===== src/Name/Bytes.antt =====
-- A name that was parsed is made of bytes.
use fogros2_sgc.Base.{
  ℕ, zero, suc, ◌+◌, ◌*◌, ◌<◌, ◌≡◌, subst, inl, inr, ◌||◌, List, [], ◌∷◌, arith, ltb, nat_beq,
  Bool-cases, Option-cases, take,
}
use fogros2_sgc.Text.{Text}
use fogros2_sgc.Name.{
  GdpName, IsBytes, add_digits, from_str_radix, set_byte, fill, parse_name, to_digit,
}
use fogros2_sgc.Text.Parts.{chunks2, is_utf8}
use fogros2_sgc.Base.Result.{err, ok, Result, Result-cases}

-- What holds of a result, if it is no error.
abbrev OkOnly : {E A : Type 0} → (A → Type 0) → Result E A → Type 0
OkOnly P (ok a) = P a
OkOnly P (err e) = Unit {0}

add_digits-small : (acc : ℕ) (cs : Text) → acc < 256 → OkOnly (λ n. n < 256) (add_digits acc cs)
unfolding add_digits
add_digits-small acc [] h = h
add_digits-small acc (c ∷ cs) h = elim (Option-cases (to_digit c)) [
  | inl e ↦ rw (e, add_digits) tt
  | inr (d, e) ↦ elim (Bool-cases (ltb (acc * 16 + d) 256)) [
    | inl small ↦
        rw (e, add_digits)
          (rw (small, add_digits) (add_digits-small (acc * 16 + d) cs (ground (arith, small))))
    | inr big ↦ rw (e, add_digits) (rw (big, add_digits) tt)
  ]
]

from_str_radix-small : (s : Text) → OkOnly (λ n. n < 256) (from_str_radix s)
unfolding from_str_radix
from_str_radix-small [] = tt
from_str_radix-small (c ∷ []) = elim (Bool-cases (nat_beq c b'+' || nat_beq c b'-')) [
  | inl e ↦ rw e tt
  | inr e ↦ rw e (add_digits-small 0 (c ∷ []) (omega arith))
]
from_str_radix-small (c ∷ d ∷ cs) = elim (Bool-cases (nat_beq c b'+')) [
  | inl e ↦ rw e (add_digits-small 0 (d ∷ cs) (omega arith))
  | inr e ↦ rw e (add_digits-small 0 (c ∷ d ∷ cs) (omega arith))
]

set_byte-IsBytes : (g : GdpName) (i b : ℕ) → IsBytes g → b < 256 → IsBytes (set_byte g i b)
unfolding set_byte
set_byte-IsBytes g zero b h k = record {
  small0 = k;
  small1 = h.small1;
  small2 = h.small2;
  small3 = h.small3;
}
set_byte-IsBytes g (suc zero) b h k = record {
  small0 = h.small0;
  small1 = k;
  small2 = h.small2;
  small3 = h.small3;
}
set_byte-IsBytes g (suc (suc zero)) b h k = record {
  small0 = h.small0;
  small1 = h.small1;
  small2 = k;
  small3 = h.small3;
}
set_byte-IsBytes g (suc (suc (suc i))) b h k = record {
  small0 = h.small0;
  small1 = h.small1;
  small2 = h.small2;
  small3 = k;
}

fill-IsBytes :
    (i : ℕ) (g : GdpName) (chunks : List Text) → IsBytes g → OkOnly IsBytes (fill i g chunks)
unfolding fill
fill-IsBytes i g [] h = h
fill-IsBytes i g (chunk ∷ chunks) h = elim (Bool-cases (is_utf8 chunk)) [
  | inl good ↦ elim (Result-cases (from_str_radix chunk)) [
    | inl (b, e) ↦
        rw (good, fill)
          (rw (e, fill)
            (fill-IsBytes (suc i) (set_byte g i b) chunks (
              set_byte-IsBytes g i b h
                (subst (OkOnly (λ n. n < 256)) e (from_str_radix-small chunk)))))
    | inr (x, e) ↦ rw (good, fill) (rw (e, fill) tt)
  ]
  | inr bad ↦ rw (bad, fill) (fill-IsBytes (suc i) g chunks h)
]

pub parse_name-IsBytes : (s : Text) (g : GdpName) → parse_name s ≡ ok g → IsBytes g
unfolding parse_name
parse_name-IsBytes s g e = subst (OkOnly IsBytes) e (fill-IsBytes 0 _ (take 4 (chunks2 s)) zeros)
  where
    zeros : IsBytes (record { byte0 = 0; byte1 = 0; byte2 = 0; byte3 = 0 })
    zeros = omega arith
