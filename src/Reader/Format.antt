-- ===== src/Reader/Format.antt =====
-- The formatting of a text line in `Reader::sendMessage` of src/App/Reader.cpp, by `snprintf`.
pub mod Payload
use aidt.Prelude.{
  ℕ, zero, suc, ◌+◌, ◌-◌, ◌%◌, ◌^◌, [], ◌∷◌, ◌++◌, Option, none, some, ◌>>=◌, Bytes, length, take,
  nat_beq, if◌then◌else◌,
}

-- What the memory holds that the program does not write: the bytes behind the readable bytes of a
-- buffer, and the bytes of a fresh array. The source uses one buffer for all lines of a file, so that
-- what stands behind a line also depends on the lines before it; here it is any function of the line.
pub record Memory : Type 0 where
  pub slack : Bytes → Bytes
  pub fresh : ℕ → ℕ

-- The text of a C string, up to the byte 0.
unfoldable pub c_string : Bytes → Bytes
c_string [] = []
c_string (c ∷ s) = let rest = c_string s in if nat_beq c 0 then [] else c ∷ rest

-- The output of a format with one string argument, which is `none` once it is used; the result
-- `none` is undefined behaviour: another directive, or a `%` at the end.
unfoldable pub expand : Option Bytes → Bytes → Option Bytes
expand arg [] = some []
expand arg (c ∷ []) = if nat_beq c b'%' then none else some (c ∷ [])
expand arg (c ∷ d ∷ s) =
    let plain = expand arg (d ∷ s) in
    let escaped = expand arg s in
    let spent = expand none s in
    if nat_beq c b'%'
    then (if nat_beq d b'%'
        then (escaped >>= λ r. some (b'%' ∷ r))
        else if nat_beq d b's'
        then (arg >>= λ a. spent >>= λ r. some (a ++ r))
        else none)
    else (plain >>= λ r. some (c ∷ r))

unfoldable pub fresh_bytes : (ℕ → ℕ) → ℕ → Bytes
fresh_bytes fresh zero = []
fresh_bytes fresh (suc n) = fresh n ∷ fresh_bytes fresh n

-- `formatBufferSize`
abbrev pub buffer_size : Bytes → Bytes → ℕ
buffer_size format msg = (length msg % 2 ^ 32 + length format % 2 ^ 32 + 2 ^ 32 - 1) % 2 ^ 32

-- The bytes that are sent for the line `msg`: those of the array without the last. `none` is
-- undefined behaviour, as is an array of no bytes, from which 2 ^ 32 - 1 are sent.
unfoldable pub payload : Memory → Bytes → Bytes → Option Bytes
unfolding c_string expand fresh_bytes
payload mem format msg =
    let size = buffer_size format msg in
    if nat_beq size 0
    then none
    else (expand (some (c_string (msg ++ mem.slack msg))) (c_string format) >>= λ text.
        some (take (size - 1) (take (size - 1) text ++ 0 ∷ fresh_bytes mem.fresh size)))
