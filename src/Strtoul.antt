-- ===== src/Strtoul.antt =====
-- The C library's `strtoul` and `strtoull` in base 10, for an `unsigned long` of 64 bits: white
-- space, a sign, digits; a value out of range sets `errno`. (A NUL byte ends the digits, as it ends
-- the C string.)
use aidt.Prelude.{
  ℕ, ◌+◌, ◌-◌, ◌*◌, ◌%◌, ◌^◌, Bool, true, false, ◌&&◌, ◌||◌, [], ◌∷◌, Bytes, leb, nat_beq,
  if◌then◌else◌,
}

abbrev pub is_space : ℕ → Bool
is_space c = nat_beq c b' ' || leb 9 c && leb c 13

abbrev pub is_digit : ℕ → Bool
is_digit c = leb b'0' c && leb c b'9'

unfoldable pub skip_space : Bytes → Bytes
skip_space [] = []
skip_space (c ∷ s) = if is_space c then skip_space s else c ∷ s

unfoldable pub digits : ℕ → Bytes → ℕ
digits acc [] = acc
digits acc (c ∷ s) = if is_digit c then digits (acc * 10 + (c - b'0')) s else acc

pub record Parsed : Type 0 where
  pub value : ℕ
  pub range_error : Bool

unfoldable pub in_range : Bool → ℕ → Parsed
in_range negative n =
    if leb (2 ^ 64) n
    then record { value = 2 ^ 64 - 1; range_error = true }
    else record { value = if negative then (2 ^ 64 - n) % 2 ^ 64 else n; range_error = false }

unfoldable pub after_space : Bytes → Parsed
unfolding in_range digits
after_space [] = in_range false 0
after_space (c ∷ s) =
    if nat_beq c b'-'
    then in_range true (digits 0 s)
    else if nat_beq c b'+'
    then in_range false (digits 0 s)
    else in_range false (digits 0 (c ∷ s))

unfoldable pub strtoul : Bytes → Parsed
unfolding skip_space after_space
strtoul s = after_space (skip_space s)
