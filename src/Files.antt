-- ===== src/Files.antt =====
-- Regular files by path, as the program's file streams and `rename` use them. Whether a path can be
-- opened for writing is the system's choice, `writable`.
pub mod Streams
use aidt.Prelude.{
  ℕ, ◌+◌, ◌≡◌, Bool, List, [], ◌∷◌, ◌++◌, Option, none, some, Bytes, length, take, drop, leb,
  le→leb, length-append, take-append, drop-append, take_append_le, drop_append_le, length-drop,
  if◌then◌else◌, bytes_eq, arith, get_or_else, list_beq, list_beq_iff, refl, true, false,
}
use aidt.Prelude.Table.{find, insert, erase, find-insert, find-erase}

pub record Disk : Type 0 where
  pub files : List (Bytes × Bytes)
  pub writable : Bytes → Bool

-- `ifstream::read` of `n` bytes followed by the test `good() && gcount() == n`: the bytes read and
-- those that are left, or `none` when the stream ends first.
unfoldable pub read_bytes : ℕ → Bytes → Option (Bytes × Bytes)
read_bytes n s = if leb n (length s) then some (take n s, drop n s) else none

-- An `ofstream` opened with `app`, and with `trunc`, one `write` of `data`, and `close`.
unfoldable pub append_file : Disk → Bytes → Bytes → Disk
append_file d path text =
    if d.writable path
    then record d { files = insert path (get_or_else (find path d.files) [] ++ text) d.files }
    else d

unfoldable pub write_file : Disk → Bytes → Bytes → Disk
write_file d path text =
    if d.writable path then record d { files = insert path text d.files } else d

-- `rename(from, to)`: a missing `from` is an error, which the program only logs.
unfoldable pub rename : Disk → Bytes → Bytes → Disk
rename d from to = elim (find from d.files) [
  | none ↦ d
  | some text ↦ record d { files = insert to text (erase from d.files) }
]

-- ".bak" and ".swp"
abbrev pub bak : Bytes
bak = b'.' ∷ b'b' ∷ b'a' ∷ b'k' ∷ []

abbrev pub swp : Bytes
swp = b'.' ∷ b's' ∷ b'w' ∷ b'p' ∷ []

pub read_bytes-append :
    (n : ℕ) (s rest : Bytes) → length s ≡ n → read_bytes n (s ++ rest) ≡ some (s, rest)
unfolding read_bytes
read_bytes-append n s rest h = rw (
  ← h,
  le→leb (length s) (length (s ++ rest)) (omega (arith, length-append s rest)),
  take-append s rest,
  drop-append s rest,
)

-- What a read returns does not depend on what comes behind the bytes it was given.
pub read_bytes_more :
    (n : ℕ) (s more front back : Bytes)
    → read_bytes n s ≡ some (front, back)
    → read_bytes n (s ++ more) ≡ some (front, back ++ more)
unfolding read_bytes
read_bytes_more n s more front back h =
    ground (arith, length-append s more, take_append_le n s more, drop_append_le n s more)

pub read_bytes-length :
    (n : ℕ) (s front back : Bytes)
    → read_bytes n s ≡ some (front, back)
    → length back + n ≡ length s
unfolding read_bytes
read_bytes-length n s front back h = ground (arith, length-drop n s)

-- A successful rename: the text moves from the one path to the other.
pub rename_lem :
    (d : Disk) (from to text : Bytes)
    → find from d.files ≡ some text
    → list_beq to from ≡ false
    → (find from (rename d from to).files ≡ none) × (find to (rename d from to).files ≡ some text)
unfolding rename
rename_lem d from to text h ne =
    let same = (list_beq_iff from from).1 refl in
    let same' = (list_beq_iff to to).1 refl in
    rw (h, rename)
      (
        rw (find-insert from to text (erase from d.files), ne, find-erase from from d.files, same)
            refl,
        rw (find-insert to to text (erase from d.files), same') refl,
      )

pub find-append_file :
    (d : Disk) (path text : Bytes)
    → d.writable path ≡ true
    → find path (append_file d path text).files ≡ some (get_or_else (find path d.files) [] ++ text)
unfolding append_file
find-append_file d path text h = rw (
  h,
  find-insert path path (get_or_else (find path d.files) [] ++ text) d.files,
  (list_beq_iff path path).1 refl,
)
