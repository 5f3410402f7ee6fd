-- ===== src/Adbase.antt =====
-- The parts of the adbase library that the program calls. adbase is not in this repository: its
-- operations are the fields of these records, which the model's definitions take as arguments, and
-- what the program relies on is stated by the laws below them.
-- A `Buffer` is represented by its readable bytes, a `Queue` by its items, oldest first.
use aidt.Prelude.{
  ℕ, ◌<◌, ◌^◌, ◌≡◌, Bool, true, false, List, [], ◌∷◌, ◌++◌, Option, none, some, Bytes, length,
}

pub record BufferOps : Type 0 where
  pub append : Bytes → Bytes → Bytes
  pub append_int32 : Bytes → ℕ → Bytes
  pub append_int64 : Bytes → ℕ → Bytes
  -- The value read and the buffer that is left.
  pub read_int32 : Bytes → ℕ × Bytes
  pub read_int64 : Bytes → ℕ × Bytes
  -- `memcpy` of four bytes into a `uint32_t`: the byte order is the machine's.
  pub memcpy32 : Bytes → ℕ
  pub network_to_host32 : ℕ → ℕ

-- Integers travel as four and as eight bytes, and are read back as they were written.
pub record IsBuffer (b : BufferOps) : Type 0 where
  pub int32 : ℕ → Bytes
  pub int64 : ℕ → Bytes
  pub append_lem : (s t : Bytes) → b.append s t ≡ s ++ t
  pub append_int32_lem : (s : Bytes) (v : ℕ) → b.append_int32 s v ≡ s ++ int32 v
  pub append_int64_lem : (s : Bytes) (v : ℕ) → b.append_int64 s v ≡ s ++ int64 v
  pub length-int32 : (v : ℕ) → length (int32 v) ≡ 4
  pub length-int64 : (v : ℕ) → length (int64 v) ≡ 8
  pub read_int32_lem : (v : ℕ) (s : Bytes) → v < 2 ^ 32 → b.read_int32 (int32 v ++ s) ≡ (v, s)
  pub read_int64_lem : (v : ℕ) (s : Bytes) → v < 2 ^ 64 → b.read_int64 (int64 v ++ s) ≡ (v, s)
  pub network_lem : (v : ℕ) → v < 2 ^ 32 → b.network_to_host32 (b.memcpy32 (int32 v)) ≡ v

pub record QueueOps (A : Type 0) : Type 0 where
  pub push : List A → A → List A
  pub try_pop : List A → Option (A × List A)
  pub get_size : List A → ℕ
  pub empty : List A → Bool

pub record IsFifo {A : Type 0} (q : QueueOps A) : Type 0 where
  pub push_lem : (xs : List A) (x : A) → q.push xs x ≡ xs ++ x ∷ []
  pub try_pop-nil : q.try_pop [] ≡ none
  pub try_pop-cons : (x : A) (xs : List A) → q.try_pop (x ∷ xs) ≡ some (x, xs)
  pub empty-nil : q.empty [] ≡ true
  pub empty-cons : (x : A) (xs : List A) → q.empty (x ∷ xs) ≡ false
  pub get_size_lem : (xs : List A) → q.get_size xs ≡ length xs

-- The splitting of a text at a character, and the removal of characters from its ends.
pub record TextOps : Type 0 where
  pub explode : Bytes → ℕ → Bool → List Bytes
  pub trim : Bytes → Bytes → Bytes
