-- ===== src/Reader/Reached/Restart.antt =====
-- `save` and `load` of src/App/Reader.cpp over the end and the start of the program.
use aidt.Prelude.{
  ◌≡◌, refl, sym, inl, inr, true, [], ◌∷◌, ◌++◌, Option, none, some, Bytes, list_beq, list_beq_iff,
  is_some, bytes_eq, arith, Bool-cases, subst, Yields,
}
use aidt.Prelude.Table.{find}
use aidt.Adbase.{BufferOps, IsBuffer, QueueOps}
use aidt.Files.{Disk, swp}
use aidt.DataStore.{FdItem, FdMap, FileStat, MessageItem}
use aidt.DataStore.Offsets.{OffsetFits, StatFits}
use aidt.DataStore.Reload.{Keyed, pick}
use aidt.Settings.{AdbaseConfig}
use aidt.Config.{Config, find_file}
use aidt.Reader.{Reader}
use aidt.Reader.Format.{Memory}
use aidt.Reader.Handlers.{save, load, configured}
use aidt.Reader.Handlers.Saved.{load-save}
use aidt.Reader.Ownership.{Named, Unique}
use aidt.Reader.Reached.{new_reader, Reach, Reach-IsSound}

-- What holds of every position that is found in a map, and of none, holds of those in its tail.
tail_found :
    (Q : Option FdItem → Type 0) (k p : Bytes) (item : FdItem) (m : FdMap)
    → Q none
    → find k m ≡ none
    → Q (find p ((k, item) ∷ m))
    → Q (find p m)
tail_found Q k p item m empty absent h = elim (Bool-cases (list_beq k p)) [
  | inl e ↦ subst (λ j. Q (find j m)) ((list_beq_iff k p).0 e) (subst Q (sym absent) empty)
  | inr e ↦ subst Q (rw e refl) h
]

found : (k : Bytes) (item : FdItem) (m : FdMap) → find k ((k, item) ∷ m) ≡ some item
found k item m = rw ((list_beq_iff k k).1 refl) refl

Keyed-Unique :
    (m : FdMap)
    → Unique m
    → ((p : Bytes) → Named p (find p m))
    → ((p : Bytes) → Yields OffsetFits (find p m))
    → Keyed m
Keyed-Unique [] unique named fits = tt
Keyed-Unique ((k, item) ∷ m) (absent, unique) named fits = (
  subst (Named k) (found k item m) (named k),
  absent,
  subst (Yields OffsetFits) (found k item m) (fits k),
  Keyed-Unique m unique (λ p. tail_found (Named p) k p item m tt absent (named p))
      (λ p. tail_found (Yields OffsetFits) k p item m tt absent (fits p)),
)

module _ (c : Config) where
  find-configured : (k : Bytes) (m : FdMap) → find k m ≡ none → find k (configured c m) ≡ none
  unfolding configured
  find-configured k [] h = refl
  find-configured k ((j, item) ∷ m) h = elim (Bool-cases (is_some (find_file c item.pathfile))) [
    | inl e ↦ rw (e, configured) (ground (arith, h, find-configured k m))
    | inr e ↦ rw (e, configured) (ground (arith, h, find-configured k m))
  ]

  Keyed-configured : (m : FdMap) → Keyed m → Keyed (configured c m)
  unfolding configured
  Keyed-configured [] keyed = tt
  Keyed-configured ((k, item) ∷ m) (own, absent, fits, keyed) =
      elim (Bool-cases (is_some (find_file c item.pathfile))) [
        | inl e ↦
            rw (e, configured) (own, find-configured k m absent, fits, Keyed-configured m keyed)
        | inr e ↦ rw (e, configured) (Keyed-configured m keyed)
      ]

module _ (b : BufferOps) (laws : IsBuffer b) (q : QueueOps MessageItem) (conf : AdbaseConfig)
    (mem : Memory) (junk : FdItem) (stat : Bytes → Option FileStat)
    (stats : (path : Bytes) (st : FileStat) → stat path ≡ some st → StatFits st) where
  -- For a machine whose buffers are as documented and file statuses that fit their fields: for every
  -- reader that the program can come to, whose offsets and paths fit their fields, when the new offset
  -- file can be opened for writing and there is an offset file, the reader of the next run, which loads
  -- after `save`, finds under each path what was kept under it, with its offset, if its setting was
  -- still there and it is still a regular file, and nothing otherwise.
  pub load-save_reached :
      (c : Config) (r : Reader) (disk : Disk) (text path : Bytes)
      → Reach b q conf mem junk r
      → ((p : Bytes) → Yields OffsetFits (find p r.fd_map))
      → disk.writable (conf.offset_file ++ swp) ≡ true
      → find conf.offset_file disk.files ≡ some text
      → find path (load b junk conf new_reader (save b stat conf c r disk)).fd_map
        ≡ pick junk (find path (configured c r.fd_map)) (stat path) none
  load-save_reached c r disk text path reach fits open_ok present =
      let sound = Reach-IsSound b q conf mem junk r reach in
      load-save b laws junk stat stats conf c r new_reader disk text path open_ok present
        (Keyed-configured c r.fd_map (Keyed-Unique r.fd_map sound.unique sound.named fits)) refl
