-- ===== src/Decimal.antt =====
-- `std::to_string` of an unsigned number.
pub mod Read
use aidt.Prelude.{
  ℕ, zero, suc, ℤ, pos, negsuc, ◌+◌, ◌/◌, ◌%◌, [], ◌∷◌, ◌++◌, Bytes, ltb, if◌then◌else◌,
}

-- The fuel is the number of digits at least; a number has fewer digits than it counts, and one more.
unfoldable pub digits_of : ℕ → ℕ → Bytes
digits_of zero n = []
digits_of (suc fuel) n =
    let rest = digits_of fuel (n / 10) ++ (b'0' + n % 10) ∷ [] in
    if ltb n 10 then (b'0' + n) ∷ [] else rest

unfoldable pub to_string : ℕ → Bytes
unfolding digits_of
to_string n = digits_of (suc n) n

-- `std::to_string` of a signed number.
pub int_to_string : ℤ → Bytes
unfolding to_string
int_to_string (pos n) = to_string n
int_to_string (negsuc n) = b'-' ∷ to_string (suc n)
