-- ===== src/Decimal/Read.antt =====
-- `std::to_string`, and the digits that `strtoul` reads.
use aidt.Prelude.{
  ℕ, zero, suc, ◌+◌, ◌*◌, ◌/◌, ◌%◌, ◌^◌, ◌≤◌, ◌<◌, ◌≡◌, ◌≢◌, ap, ◌∙◌, inl, inr, true, false, [],
  ◌∷◌, ◌++◌, append_assoc, append-nil, subst, sym, Bytes, ltb, Bool-cases, arith, All, All-append,
}
use aidt.Decimal.{digits_of, to_string}
use aidt.Strtoul.{is_digit, digits, in_range, after_space, skip_space, strtoul}

digits-digit :
    (acc d : ℕ) (t : Bytes) → d < 10 → digits acc ((b'0' + d) ∷ t) ≡ digits (acc * 10 + d) t
unfolding digits
digits-digit acc d t h = ground (arith, h)

digits-digits_of :
    (fuel n : ℕ) (t : Bytes) → n < fuel → digits 0 (digits_of fuel n ++ t) ≡ digits n t
unfolding digits_of
digits-digits_of zero n t h = absurd (omega (arith, h))
digits-digits_of (suc fuel) n t h = elim (Bool-cases (ltb n 10)) [
  | inl e ↦
      let small : n < 10 = ground (arith, e) in
      rw e (digits-digit 0 n t small ∙ ap (λ k. digits k t) (omega arith))
  | inr e ↦
      let big : 10 ≤ n = ground (arith, e) in
      rw (e) (
        ap (digits 0) (append_assoc (digits_of fuel (n / 10)) ((b'0' + n % 10) ∷ []) t)
        ∙ digits-digits_of fuel (n / 10) ((b'0' + n % 10) ∷ t) (omega (arith, h, big))
        ∙ digits-digit (n / 10) (n % 10) t (omega arith)
        ∙ ap (λ k. digits k t) (omega arith))
]

-- A text that `strtoul` reads as digits from its first byte on.
abbrev Leads : Bytes → Type 0
Leads [] = ⊥
Leads (c ∷ s) = is_digit c ≡ true

digits_of-Leads : (fuel n : ℕ) (t : Bytes) → n < fuel → Leads (digits_of fuel n ++ t)
unfolding digits_of
digits_of-Leads zero n t h = absurd (omega (arith, h))
digits_of-Leads (suc fuel) n t h = elim (Bool-cases (ltb n 10)) [
  | inl e ↦ let small : n < 10 = ground (arith, e) in rw (e) (ground (arith, small))
  | inr e ↦
      let big : 10 ≤ n = ground (arith, e) in
      rw (e, append_assoc (digits_of fuel (n / 10)) ((b'0' + n % 10) ∷ []) t)
        (digits_of-Leads fuel (n / 10) ((b'0' + n % 10) ∷ t) (omega (arith, h, big)))
]

strtoul-Leads : (s : Bytes) → Leads s → strtoul s ≡ in_range false (digits 0 s)
unfolding strtoul skip_space after_space
strtoul-Leads [] h = absurd h
strtoul-Leads (c ∷ s) h = ground (arith, h)

digits_of-digits : (fuel n : ℕ) → n < fuel → All (λ d. is_digit d ≡ true) (digits_of fuel n)
unfolding digits_of
digits_of-digits zero n h = absurd (omega (arith, h))
digits_of-digits (suc fuel) n h = elim (Bool-cases (ltb n 10)) [
  | inl e ↦ let small : n < 10 = ground (arith, e) in rw e (ground (arith, small), tt)
  | inr e ↦
      let big : 10 ≤ n = ground (arith, e) in
      rw e (
        All-append (λ d. is_digit d ≡ true) (digits_of fuel (n / 10)) ((b'0' + n % 10) ∷ [])
          (digits_of-digits fuel (n / 10) (omega (arith, h, big))) (ground arith, tt))
]

-- A number of 64 bits is read back from the digits that it is written with.
pub strtoul-to_string :
    (n : ℕ) → n < 2 ^ 64 → strtoul (to_string n) ≡ record { value = n; range_error = false }
unfolding to_string in_range digits
strtoul-to_string n h =
    let at = append-nil (digits_of (suc n) n) in
    strtoul-Leads (digits_of (suc n) n)
      (subst Leads at (digits_of-Leads (suc n) n [] (omega arith)))
    ∙ ap (λ s. in_range false (digits 0 s)) (sym at)
    ∙ ap (in_range false) (digits-digits_of (suc n) n [] (omega arith))
    ∙ ground (arith, h)

-- The digits are digits.
pub to_string-digits : (n : ℕ) → All (λ d. is_digit d ≡ true) (to_string n)
unfolding to_string
to_string-digits n = digits_of-digits (suc n) n (omega arith)

pub to_string-nonempty : (n : ℕ) → to_string n ≢ []
unfolding to_string
to_string-nonempty n e =
    subst Leads (append-nil (digits_of (suc n) n) ∙ e) (digits_of-Leads (suc n) n [] (omega arith))
