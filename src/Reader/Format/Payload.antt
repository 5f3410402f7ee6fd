-- ===== src/Reader/Format/Payload.antt =====
-- What `Reader::sendMessage` of src/App/Reader.cpp sends for a line, when the format has one `%s`.
use aidt.Prelude.{
  ℕ, zero, suc, ◌+◌, ◌-◌, ◌^◌, ◌<◌, false, [], ◌∷◌, ◌++◌, Option, none, some, Bytes, length, take,
  nat_beq, All, length-append, ◌≡◌, refl, ap, ◌∙◌, arith, append_assoc, ◌≤◌,
}
use aidt.Reader.Format.{Memory, c_string, expand, buffer_size, payload}

-- No byte is 0.
abbrev pub IsText : Bytes → Type 0
IsText = All (λ c. nat_beq c 0 ≡ false)

-- No byte is 0, and none is a `%`.
abbrev pub IsPlain : Bytes → Type 0
IsPlain = All (λ c. (nat_beq c 0 ≡ false) × (nat_beq c b'%' ≡ false))

c_string-append : (s t : Bytes) → IsText s → c_string (s ++ t) ≡ s ++ c_string t
unfolding c_string
c_string-append [] t h = refl
c_string-append (c ∷ s) t h = ground (arith, c_string-append s t h.1, h.0)

c_string-text : (s : Bytes) → IsText s → c_string s ≡ s
unfolding c_string
c_string-text [] h = refl
c_string-text (c ∷ s) h = ground (arith, c_string-text s h.1, h.0)

plain-IsText : (s : Bytes) → IsPlain s → IsText s
plain-IsText [] h = tt
plain-IsText (c ∷ s) h = (h.0.0, plain-IsText s h.1)

expand-plain : (arg : Option Bytes) (s : Bytes) → IsPlain s → expand arg s ≡ some s
unfolding expand
expand-plain arg [] h = refl
expand-plain arg (c ∷ []) h = ground (arith, h.0.1)
expand-plain arg (c ∷ d ∷ s) h = ground (arith, expand-plain arg (d ∷ s) h.1, h.0.1)

abbrev pub directive : Bytes
directive = b'%' ∷ b's' ∷ []

expand-directive :
    (a front back : Bytes)
    → IsPlain front
    → IsPlain back
    → expand (some a) (front ++ (directive ++ back)) ≡ some (front ++ (a ++ back))
unfolding expand
expand-directive a [] back hf hb = ground (arith, expand-plain none back hb)
expand-directive a (c ∷ []) back hf hb = ground (arith, hf.0.1, expand-directive a [] back tt hb)
expand-directive a (c ∷ d ∷ front) back hf hb =
    ground (arith, hf.0.1, expand-directive a (d ∷ front) back hf.1 hb)

take-length_add : (xs ys : Bytes) (n : ℕ) → take (length xs + n) (xs ++ ys) ≡ xs ++ take n ys
take-length_add [] ys n = ap (λ k. take k ys) (omega arith)
take-length_add (x ∷ xs) ys n =
    ap (λ k. take k (x ∷ (xs ++ ys))) shift ∙ ap (◌∷◌ x) (take-length_add xs ys n)
  where
    shift : suc (length xs) + n ≡ suc (length xs + n)
    shift = omega arith

-- A buffer of no less than `n` bytes of text and a byte for the end gives its first `n` bytes.
take-take_append : (n : ℕ) (s t : Bytes) → n ≤ length s → take n (take n s ++ t) ≡ take n s
take-take_append zero s t h = refl
take-take_append (suc n) [] t h = absurd (omega arith)
take-take_append (suc n) (c ∷ s) t h = ap (◌∷◌ c) (take-take_append n s t (omega arith))

format-IsText :
    (front back : Bytes) → IsPlain front → IsPlain back → IsText (front ++ (directive ++ back))
format-IsText [] back hf hb = (refl, (refl, plain-IsText back hb))
format-IsText (c ∷ front) back hf hb = (hf.0.0, format-IsText front back hf.1 hb)

length-format :
    (front back : Bytes) → length (front ++ (directive ++ back)) ≡ length front + (2 + length back)
length-format front back = omega (arith, length-append front (directive ++ back))

buffer_size_lem :
    (front back msg : Bytes)
    → length front + length back + length msg + 2 < 2 ^ 32
    → buffer_size (front ++ (directive ++ back)) msg
      ≡ suc (length front + (length msg + length back))
buffer_size_lem front back msg small = ground (arith, length-format front back)

module _ (mem : Memory) (front back msg : Bytes) where
  text_lem :
      IsPlain front
      → IsPlain back
      → IsText msg
      → expand (some (c_string (msg ++ mem.slack msg))) (c_string (front ++ (directive ++ back)))
        ≡ some (front ++ ((msg ++ c_string (mem.slack msg)) ++ back))
  text_lem hf hb hm = simp (
    c_string-append msg (mem.slack msg) hm,
    c_string-text (front ++ (directive ++ back)) (format-IsText front back hf hb),
    expand-directive (msg ++ c_string (mem.slack msg)) front back hf hb,
  )

  payload-sized :
      (format msg : Bytes) (n : ℕ) (text : Bytes)
      → buffer_size format msg ≡ suc n
      → expand (some (c_string (msg ++ mem.slack msg))) (c_string format) ≡ some text
      → n ≤ length text
      → payload mem format msg ≡ some (take n text)
  unfolding payload
  payload-sized format msg n text sized expanded long =
      rw (sized, expanded, suc-nonzero, pred-suc) (ap some (take-take_append n text _ long))
    where
      suc-nonzero : nat_beq (suc n) 0 ≡ false
      suc-nonzero = ground arith

      pred-suc : suc n - 1 ≡ n
      pred-suc = omega arith

  first_bytes :
      take
        (length front + (length msg + length back))
        (front ++ ((msg ++ c_string (mem.slack msg)) ++ back))
      ≡ front ++ (msg ++ take (length back) (c_string (mem.slack msg) ++ back))
  first_bytes =
      rw (take-length_add front, append_assoc)
        (ap (◌++◌ front) (take-length_add msg (c_string (mem.slack msg) ++ back) (length back)))

  -- For a format that is `front`, `%s` and `back`, both without `%` and without a byte 0, a line
  -- without a byte 0, and sizes that fit in 32 bits: `sendMessage` sends `front`, the line, and then
  -- as many bytes as `back` has, which are those of the text behind the line in memory, up to a
  -- byte 0, followed by `back`. The line itself is always sent whole.
  pub payload_lem :
      IsPlain front
      → IsPlain back
      → IsText msg
      → length front + length back + length msg + 2 < 2 ^ 32
      → payload mem (front ++ (directive ++ back)) msg
        ≡ some (front ++ (msg ++ take (length back) (c_string (mem.slack msg) ++ back)))
  payload_lem hf hb hm small =
      payload-sized (front ++ (directive ++ back)) msg (length front + (length msg + length back))
        (front ++ ((msg ++ c_string (mem.slack msg)) ++ back))
        (buffer_size_lem front back msg small) (text_lem hf hb hm) long
      ∙ ap some first_bytes
    where
      long :
          length front + (length msg + length back)
          ≤ length (front ++ ((msg ++ c_string (mem.slack msg)) ++ back))
      long = omega (
        arith,
        length-append front ((msg ++ c_string (mem.slack msg)) ++ back),
        length-append (msg ++ c_string (mem.slack msg)) back,
        length-append msg (c_string (mem.slack msg)),
      )
