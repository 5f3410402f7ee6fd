-- ===== src/Reader/Loops/Frames.antt =====
-- The frames that `Reader::readBinary` of src/App/Reader.cpp reads.
use aidt.Prelude.{
  ℕ, ◌+◌, ◌≡◌, sym, ap, ◌∙◌, false, ltb, List, [], ◌∷◌, ◌++◌, Bytes, length, take, drop, arith,
  length-append, take-append, drop-append,
}
use aidt.Adbase.{BufferOps, IsBuffer}

module _ (b : BufferOps) (buffers : IsBuffer b) where
  -- The file that holds these messages, each behind its length in four bytes.
  abbrev pub frames : List Bytes → Bytes
  frames [] = []
  frames (m ∷ ms) = buffers.int32 (length m) ++ (m ++ frames ms)

  pub length-frame :
      (m s : Bytes) → length (buffers.int32 (length m) ++ (m ++ s)) ≡ 4 + (length m + length s)
  length-frame m s = omega (
    arith,
    length-append (buffers.int32 (length m)) (m ++ s),
    length-append m s,
    buffers.length-int32 (length m),
  )

  pub take-frame : (v : ℕ) (s : Bytes) → take 4 (buffers.int32 v ++ s) ≡ buffers.int32 v
  take-frame v s =
      ap (λ n. take n (buffers.int32 v ++ s)) (sym (buffers.length-int32 v))
      ∙ take-append (buffers.int32 v) s

  pub drop-frame : (v : ℕ) (s : Bytes) → drop 4 (buffers.int32 v ++ s) ≡ s
  drop-frame v s =
      ap (λ n. drop n (buffers.int32 v ++ s)) (sym (buffers.length-int32 v))
      ∙ drop-append (buffers.int32 v) s

  pub long_frame : (m s : Bytes) → ltb (length (buffers.int32 (length m) ++ (m ++ s))) 4 ≡ false
  long_frame m s = ground (arith, length-frame m s)

  pub long_behind : (m s : Bytes) → ltb (length (m ++ s)) (length m) ≡ false
  long_behind m s = ground (arith, length-append m s)
