-- ===== src/Reader/Followed.antt =====
-- One text file of src/App/Reader.cpp over everything that may happen to it and beside it: the place
-- in the file that is kept under its name.
pub mod Opening
pub mod Others
pub mod Scene
pub mod Handled
pub mod Forward
pub mod Once
use aidt.Prelude.{ℕ, ◌≡◌, List, Option, none, some, Bytes, All, list_beq, bytes_eq}
use aidt.Prelude.Table.{find}
use aidt.DataStore.{FdItem, FdMap}

abbrev pub place : Option FdItem → ℕ
place none = 0
place (some item) = item.offset

-- Where the next reading of a file starts: a file that has no position is read from its start.
abbrev pub position : Bytes → FdMap → ℕ
position path m = place (find path m)

-- No other name stands for `path`, and `path` for no other name.
abbrev pub Unaliased : Bytes → List (Bytes × Bytes) → Type 0
Unaliased path = All (λ alias. list_beq alias.1 path ≡ list_beq alias.0 path)
