-- ===== src/Texts.antt =====
-- The members of `std::string` that the program calls.
use Prim.Native.Char.{code}
use Prim.Native.String.{String}
use aidt.Prelude.{
  ℕ, ◌≡◌, refl, sym, ap, ◌∙◌, Bool, true, false, List, [], ◌∷◌, ◌++◌, Bytes, nat_beq, nat_beq_iff,
  if◌then◌else◌, arith, Bool-cases, inl, inr,
}

unfoldable pub is_prefix : Bytes → Bytes → Bool
is_prefix [] s = true
is_prefix (c ∷ p) [] = false
is_prefix (c ∷ p) (d ∷ s) = if nat_beq c d then is_prefix p s else false

-- `s.find(p) != npos`
unfoldable pub contains : Bytes → Bytes → Bool
unfolding is_prefix
contains p [] = is_prefix p []
contains p (c ∷ s) = if is_prefix p (c ∷ s) then true else contains p s

-- The text up to the last byte that is not a slash: `s.substr(0, s.find_last_not_of("/") + 1)`, and
-- the empty text if there is none.
keep_unless_slash : ℕ → Bytes → Bytes
keep_unless_slash c [] = if nat_beq c b'/' then [] else c ∷ []
keep_unless_slash c (d ∷ t) = c ∷ d ∷ t

unfoldable pub trim_slashes : Bytes → Bytes
unfolding keep_unless_slash
trim_slashes [] = []
trim_slashes (c ∷ s) = keep_unless_slash c (trim_slashes s)

-- The loops that put a path together again from its parts.
abbrev pub join_parts : List Bytes → Bytes
join_parts [] = []
join_parts (part ∷ parts) = b'/' ∷ part ++ join_parts parts

pub is_prefix-append : (p s : Bytes) → is_prefix p (p ++ s) ≡ true
unfolding is_prefix
is_prefix-append [] s = refl
is_prefix-append (c ∷ p) s = ground (arith, is_prefix-append p s)

contains_of_prefix : (p s : Bytes) → is_prefix p s ≡ true → contains p s ≡ true
unfolding contains
contains_of_prefix p [] h = h
contains_of_prefix p (c ∷ s) h = rw h

-- A text contains every part of it.
pub contains-append : (front p back : Bytes) → contains p (front ++ (p ++ back)) ≡ true
unfolding contains
contains-append [] p back = contains_of_prefix p (p ++ back) (is_prefix-append p back)
contains-append (c ∷ front) p back = ground (arith, contains-append front p back)

-- A text that is the end of another one, after some text.
is_prefix_rest : (p s : Bytes) → is_prefix p s ≡ true → (back : Bytes) × (s ≡ p ++ back)
unfolding is_prefix
is_prefix_rest [] s h = (s, refl)
is_prefix_rest (c ∷ p) [] h = absurd cc
is_prefix_rest (c ∷ p) (d ∷ s) h = elim (Bool-cases (nat_beq c d)) [
  | inl e ↦
      let (back, split) = is_prefix_rest p s (rw (e, is_prefix) at h) in
      (back, ap (λ t. d ∷ t) split ∙ ap (λ x. x ∷ (p ++ back)) (sym ((nat_beq_iff c d).0 e)))
  | inr e ↦ let no : false ≡ true = rw (e, is_prefix) at h in absurd cc
]

-- What a text contains is a part of it.
pub contains_parts :
    (p s : Bytes) → contains p s ≡ true → (front back : Bytes) × (s ≡ front ++ (p ++ back))
unfolding contains
contains_parts p [] h = let (back, split) = is_prefix_rest p [] h in ([], back, split)
contains_parts p (c ∷ s) h = elim (Bool-cases (is_prefix p (c ∷ s))) [
  | inl e ↦ let (back, split) = is_prefix_rest p (c ∷ s) e in ([], back, split)
  | inr e ↦
      let (front, back, split) = contains_parts p s (rw (e, contains) at h) in
      (c ∷ front, back, ap (λ t. c ∷ t) split)
]

-- The bytes of a text.
abbrev pub codes : String → Bytes
codes String.[] = []
codes (String.◌∷◌ c s) = code c ∷ codes s
