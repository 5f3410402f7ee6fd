-- ===== src/Reader/Handlers.antt =====
-- src/App/Reader.cpp: the handlers of deleted and moved files, and the offset file. Each holds the
-- mutex while it uses the maps.
pub mod Moves
pub mod Saved
pub mod Owned
use aidt.Prelude.{
  ℕ, ◌%◌, ◌^◌, Bool, true, false, List, [], ◌∷◌, ◌++◌, Option, none, some, Bytes, list_beq, is_some,
  if◌then◌else◌, bytes_eq,
}
use aidt.Prelude.Table.{find, insert, erase}
use aidt.Adbase.{BufferOps}
use aidt.Files.{Disk, write_file, rename, swp, bak}
use aidt.DataStore.{FdItem, FdMap, FileStat, save_offset_all, load_offsets}
use aidt.Settings.{AdbaseConfig}
use aidt.Config.{Config, find_file, set_move_time}
use aidt.Events.{InotifyEvent}
use aidt.Reader.Store.{close_stream, delete_stream}
use aidt.Reader.{Reader, World}

-- The aliases that do not stand for `origfile`.
unfoldable pub drop_aliases : Bytes → List (Bytes × Bytes) → List (Bytes × Bytes)
drop_aliases origfile [] = []
drop_aliases origfile ((k, v) ∷ m) =
    if list_beq v origfile then drop_aliases origfile m else (k, v) ∷ drop_aliases origfile m

-- `Reader::clear`
unfoldable pub clear : InotifyEvent → Reader → Reader
unfolding drop_aliases close_stream
clear event r = elim (find event.origfile r.fd_map) [
  | none ↦ record r { alias_map = drop_aliases event.origfile r.alias_map }
  | some item ↦ record r {
    streams = delete_stream item.fs (close_stream item.fs r.streams);
    fd_map = erase event.origfile r.fd_map;
    alias_map = drop_aliases event.origfile r.alias_map;
  }
]

-- `Reader::moveself`
unfoldable pub moveself : World → InotifyEvent → Reader → Config → Reader × Config
moveself w event r c =
    let c' = set_move_time c event.pathfile (w.now % 2 ^ 32) in
    elim (find event.origfile r.fd_map) [
      | none ↦ (r, c')
      | some item ↦ (
        record r {
          fd_map = insert event.origfile (record item { move_protected = true }) r.fd_map;
        },
        c',
      )
    ]

-- `Reader::moveto`
unfoldable pub moveto : InotifyEvent → Reader → Reader
moveto event r = elim (find event.aliasfile r.fd_map) [
  | none ↦ r
  | some item ↦ record r {
    fd_map =
        erase event.aliasfile
          (insert event.origfile (record item { origfile = event.origfile }) r.fd_map);
    alias_map = insert event.aliasfile event.origfile r.alias_map;
  }
]

-- The entries whose setting is still there.
unfoldable pub configured : Config → FdMap → FdMap
configured c [] = []
configured c ((k, item) ∷ maps) =
    if is_some (find_file c item.pathfile) then (k, item) ∷ configured c maps else configured c maps

-- `Reader::save`
pub save : BufferOps → (Bytes → Option FileStat) → AdbaseConfig → Config → Reader → Disk → Disk
unfolding configured
save b stat conf c r disk =
    let path_name = conf.offset_file ++ swp in
    let written = write_file disk path_name (save_offset_all b stat (configured c r.fd_map)) in
    rename (rename written conf.offset_file (conf.offset_file ++ bak)) path_name conf.offset_file

-- `Reader::load`
unfoldable pub load : BufferOps → FdItem → AdbaseConfig → Reader → Disk → Reader
load b junk conf r disk = record r { fd_map = load_offsets b junk disk conf.offset_file r.fd_map }

-- `Reader::stop`
unfoldable pub stop : Reader → Reader
stop r = record r { running = false }
