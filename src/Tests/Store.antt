-- ===== src/Tests/Store.antt =====
-- The theorems on the files of messages and of offsets at concrete inputs.
use aidt.Prelude.{◌≡◌, refl, [], ◌∷◌, ◌++◌, Option, none, some, Bytes, take, bytes_eq, arith}
use aidt.Prelude.Table.{find}
use aidt.Files.{Disk, bak}
use aidt.DataStore.{FileStat, serialize, size32, load_message, save_message}
use aidt.DataStore.Messages.{records}
use aidt.DataStore.Restart.{load_message-save_message, load_message_torn}
use aidt.DataStore.Offsets.{OffsetFits, StatFits}
use aidt.DataStore.Reload.{Keyed}
use aidt.Reader.Handlers.{save}
use aidt.Reader.Handlers.Saved.{save_lost}
use aidt.Tests.Instances.{
  buffer_ops, buffer_laws, list_queue, list_fifo, first_item, both_items, first_item-Fits,
  both_items-Fits, settings, disk, read_only, fd_item, fd_maps, config, reader,
}

abbrev file : Bytes
file = b'f' ∷ []

abbrev offset_file : Bytes
offset_file = b'o' ∷ []

load_message-save_message_example :
    let after =
      load_message buffer_ops list_queue
        (save_message buffer_ops list_queue disk file both_items).0
        file
        [] in
    (after.1 ≡ [] ++ both_items)
    × (find file after.0.files ≡ none)
    × (find (file ++ bak) after.0.files ≡ some (records buffer_ops ([] ++ both_items)))
load_message-save_message_example =
    load_message-save_message buffer_ops buffer_laws list_queue list_fifo disk file [] both_items
      refl refl tt both_items-Fits

-- The file of one record and the first eighteen bytes of another.
abbrev torn : Bytes
torn = take 18 (serialize buffer_ops [] first_item)

abbrev torn_disk : Disk
torn_disk = record disk { files = (file, records buffer_ops (first_item ∷ []) ++ torn) ∷ [] }

load_message_torn_example :
    (load_message buffer_ops list_queue torn_disk file []).1 ≡ [] ++ (first_item ∷ [])
unfolding serialize size32
load_message_torn_example =
    load_message_torn buffer_ops buffer_laws list_queue list_fifo torn_disk file (first_item ∷ [])
      [] first_item b'b' torn [] (first_item-Fits, tt) first_item-Fits refl refl

abbrev pub file_stat : FileStat
file_stat = record { ino = 7; size = 100 }

abbrev pub stat : Bytes → Option FileStat
stat path = some file_stat

pub stat-StatFits : (path : Bytes) (st : FileStat) → stat path ≡ some st → StatFits st
stat-StatFits path st h =
    let same : file_stat ≡ st = cc in
    record { ino_fits = ground (arith, same); size_fits = ground (arith, same) }

pub fd_item-OffsetFits : OffsetFits fd_item
fd_item-OffsetFits = record {
  offset_fits = omega arith;
  path_fits = omega arith;
  orig_fits = omega arith;
}

pub fd_maps-Keyed : Keyed fd_maps
fd_maps-Keyed = (refl, refl, fd_item-OffsetFits, tt)

save_lost_example :
    find offset_file (save buffer_ops stat settings config reader read_only).files ≡ none
save_lost_example =
    save_lost buffer_ops stat settings config reader read_only (b'x' ∷ []) refl refl refl
