-- ===== src/Reader/Store.antt =====
-- The store of the `std::fstream` objects of src/App/Reader.cpp. A pointer is a number; one to a
-- stream that was deleted finds nothing.
use aidt.Prelude.{ℕ, Bool, false, List, Option, none, some, if◌then◌else◌, nat_eq}
use aidt.Prelude.Table.{find, insert, erase}

pub record Stream : Type 0 where
  pub is_open : Bool
  pub good : Bool

abbrev pub Streams : Type 0
Streams = List (ℕ × Stream)

-- `fs != nullptr && fs->is_open()`
abbrev pub is_open : Option ℕ → Streams → Bool
is_open none streams = false
is_open (some h) streams = elim (find h streams) [ none ↦ false | some s ↦ s.is_open ]

abbrev pub is_good : Option ℕ → Streams → Bool
is_good none streams = false
is_good (some h) streams = elim (find h streams) [ none ↦ false | some s ↦ s.good ]

-- `Reader::closeStream`
unfoldable pub close_stream : Option ℕ → Streams → Streams
close_stream none streams = streams
close_stream (some h) streams = elim (find h streams) [
  | none ↦ streams
  | some s ↦ if s.is_open then insert h (record s { is_open = false }) streams else streams
]

-- `delete`, where the pointer is not null.
abbrev pub delete_stream : Option ℕ → Streams → Streams
delete_stream none streams = streams
delete_stream (some h) streams = erase h streams

-- The state that a read which came short leaves: `good()` is false.
abbrev pub mark_bad : Option ℕ → Streams → Streams
mark_bad none streams = streams
mark_bad (some h) streams = elim (find h streams) [
  | none ↦ streams
  | some s ↦ insert h (record s { good = false }) streams
]
