-- ===== src/Files/Streams.antt =====
-- Readers of a stream, built from `read_bytes` by `do` blocks: what they return does not depend on
-- what follows the bytes that they take, and they take at least `k` bytes.
use aidt.Prelude.{ℕ, ◌+◌, ◌≤◌, ◌≡◌, ◌++◌, Option, some, ◌>>=◌, >>=-eq-some, Bytes, length, arith}
use aidt.Files.{read_bytes, read_bytes_more, read_bytes-length}

abbrev pub Reader : Type 0 → Type 0
Reader A = Bytes → Option (A × Bytes)

pub record IsStream {A : Type 0} (k : ℕ) (p : Reader A) : Type 0 where
  pub more : (s t : Bytes) (a : A) (r : Bytes) → p s ≡ some (a, r) → p (s ++ t) ≡ some (a, r ++ t)
  pub uses : (s : Bytes) (a : A) (r : Bytes) → p s ≡ some (a, r) → length r + k ≤ length s

pub read_bytes-IsStream : (n : ℕ) → IsStream n (read_bytes n)
read_bytes-IsStream n = record {
  more = λ s t a r h. read_bytes_more n s t a r h;
  uses = λ s a r h. read_bytes_length_le n s a r h;
}
  where
    read_bytes_length_le :
        (n : ℕ) (s front back : Bytes)
        → read_bytes n s ≡ some (front, back)
        → length back + n ≤ length s
    read_bytes_length_le n s front back h = omega (arith, read_bytes-length n s front back h)

-- A reader may be taken to use less.
pub weaken-IsStream : {A : Type 0} {p : Reader A} (j k : ℕ) → j ≤ k → IsStream k p → IsStream j p
weaken-IsStream j k h i = record {
  more = i.more;
  uses = λ s a r e. let u = i.uses s a r e in omega arith;
}

pub bind-IsStream :
    {A B : Type 0} {j k : ℕ} {p : Reader A} {f : A → Reader B}
    → IsStream j p
    → ((a : A) → IsStream k (f a))
    → IsStream (j + k) (λ s. p s >>= λ (a, r). f a r)
bind-IsStream {A} {B} {j} {k} {p} {f} ip ifs = record {
  more = λ s t b r h.
      let (m, e, h') = >>=-eq-some (p s) _ h in
      let e' = ip.more s t m.0 m.1 e in rw e' ((ifs m.0).more m.1 t b r h');
  uses = λ s b r h.
      let (m, e, h') = >>=-eq-some (p s) _ h in
      omega (arith, ip.uses s m.0 m.1 e, (ifs m.0).uses m.1 b r h');
}

pub some-IsStream : {A : Type 0} (a : A) → IsStream 0 (λ s. some (a, s))
some-IsStream a = record { more = λ s t b r h. ground arith; uses = λ s b r h. ground arith }

-- A count that the file gives may be 0.
pub read_bytes-IsStream_zero : (n : ℕ) → IsStream 0 (read_bytes n)
read_bytes-IsStream_zero n = weaken-IsStream 0 n (omega arith) (read_bytes-IsStream n)
