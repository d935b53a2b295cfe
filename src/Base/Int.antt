-- ===== src/Base/Int.antt =====
-- `i64` values as integers, their order, and the cast `as i64` of an unsigned count.
use Prim.Native.Nat.{ℕ, ◌-◌, ◌%◌, ◌^◌}
use mathlib.Core.Bool.{Bool, true, false}
use fogros2_sgc.Base.Tests.{ltb, if◌then◌else◌}

-- `negsuc n` is -(n + 1).
pub data ℤ : Type 0 where
  pos : ℕ → ℤ
  negsuc : ℕ → ℤ

abbrev pub ltb_ℤ : ℤ → ℤ → Bool
ltb_ℤ (pos a) (pos b) = ltb a b
ltb_ℤ (pos a) (negsuc b) = false
ltb_ℤ (negsuc a) (pos b) = true
ltb_ℤ (negsuc a) (negsuc b) = ltb b a

abbrev pub as_i64 : ℕ → ℤ
as_i64 n =
    let word = n % 2 ^ 64 in if ltb word (2 ^ 63) then pos word else negsuc (2 ^ 64 - word - 1)
