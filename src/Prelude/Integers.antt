-- ===== src/Prelude/Integers.antt =====
-- The signed integers, and the readings of a C++ `int`.
use Prim.Native.Nat.{ℕ, suc, ◌+◌, ◌-◌, ◌%◌, ◌^◌}
use mathlib.Core.Bool.{Bool, true, false}
use aidt.Prelude.Tests.{ltb, leb, if◌then◌else◌}

-- `negsuc n` is -(n + 1).
pub data ℤ : Type 0 where
  pos : ℕ → ℤ
  negsuc : ℕ → ℤ

abbrev pub sub_ℕ : ℕ → ℕ → ℤ
sub_ℕ a b = if leb b a then pos (a - b) else negsuc (b - a - 1)

infixl 65 ◌-ℤ◌
abbrev pub ◌-ℤ◌ : ℤ → ℤ → ℤ
pos a -ℤ pos b = sub_ℕ a b
pos a -ℤ negsuc b = pos (a + suc b)
negsuc a -ℤ pos b = negsuc (a + b)
negsuc a -ℤ negsuc b = sub_ℕ b a

abbrev pub ltb_ℤ : ℤ → ℤ → Bool
ltb_ℤ (pos a) (pos b) = ltb a b
ltb_ℤ (pos a) (negsuc b) = false
ltb_ℤ (negsuc a) (pos b) = true
ltb_ℤ (negsuc a) (negsuc b) = ltb b a

-- `static_cast<int>` of an unsigned value: its low 32 bits, read in two's complement.
abbrev pub to_int : ℕ → ℤ
to_int n = let w = n % 2 ^ 32 in if ltb w (2 ^ 31) then pos w else negsuc (2 ^ 32 - w - 1)

-- `static_cast<uint32_t>` of an `int`.
abbrev pub to_uint32 : ℤ → ℕ
to_uint32 (pos n) = n % 2 ^ 32
to_uint32 (negsuc n) = (2 ^ 32 - n % 2 ^ 32 - 1) % 2 ^ 32
