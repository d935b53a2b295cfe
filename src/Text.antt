-- ===== src/Text.antt =====
-- Rust's `String` and `str`: the bytes of the UTF-8 text. `codes` writes the bytes of an ASCII
-- literal. A `HashSet<String>` is a list read through `contains`, and a `HashMap<String, V>` is an
-- association list read through `lookup`; no operation depends on the order of the entries.
pub mod Trim
pub mod Sets
pub mod SortedNames
pub mod Blank
pub mod Parts
use Prim.Native.Char.{code}
use Prim.Native.String
use Prim.Native.String.{String}
use fogros2_sgc.Base.{
  ℕ, ◌≡◌, refl, ◌↔◌, Bool, true, false, ◌&&◌, ◌||◌, List, [], ◌∷◌, arith, ltb, nat_beq,
}

abbrev pub Text : Type 0
Text = List ℕ

abbrev pub codes : String → Text
codes String.[] = []
codes (String.◌∷◌ c s) = code c ∷ codes s

infix 50 ◌==◌
unfoldable pub ◌==◌ : Text → Text → Bool
[] == [] = true
[] == (y ∷ ys) = false
(x ∷ xs) == [] = false
(x ∷ xs) == (y ∷ ys) = nat_beq x y && xs == ys

pub eq_iff : (a b : Text) → ((a == b) ≡ true) ↔ (a ≡ b)
unfolding ◌==◌
eq_iff [] [] = ground arith
eq_iff [] (y ∷ ys) = ground arith
eq_iff (x ∷ xs) [] = ground arith
eq_iff (x ∷ xs) (y ∷ ys) = ground (arith, eq_iff xs ys)

pub eq_refl : (a : Text) → (a == a) ≡ true
eq_refl a = (eq_iff a a).1 refl

-- `a ≤ b` in the order of `String`, bytewise and lexicographic.
unfoldable pub le_text : Text → Text → Bool
le_text [] ys = true
le_text (x ∷ xs) [] = false
le_text (x ∷ xs) (y ∷ ys) = ltb x y || nat_beq x y && le_text xs ys
