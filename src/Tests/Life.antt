-- ===== src/Tests/Life.antt =====
-- The theorems on the states of the reader, and on the stop and the start of the program, at concrete
-- inputs.
use aidt.Prelude.{
  ℕ, ◌≡◌, refl, sym, inl, inr, true, false, ◌&&◌, [], ◌∷◌, ◌++◌, none, some, Bytes, bytes_eq,
  list_beq, Bool-cases, Yields, subst,
}
use aidt.Prelude.Table.{find}
use aidt.Files.{Disk}
use aidt.DataStore.{save_offset_all}
use aidt.DataStore.Messages.{records}
use aidt.DataStore.Offsets.{OffsetFits}
use aidt.DataStore.Reload.{pick, load_offsets_text}
use aidt.Config.{Config}
use aidt.ConfigPaser.{YamlOps, check, transfers_ok, paser, paser_transfers}
use aidt.Events.{InotifyEvent, delete, modify}
use aidt.Reader.{Reader, World, init_stream, init_opened, init_item, open_stream, reopen}
use aidt.Reader.Store.{is_open, is_good}
use aidt.Reader.Handlers.{load, save, configured, moveto, clear}
use aidt.Reader.Handlers.Moves.{clear_lem}
use aidt.Reader.Handlers
use aidt.Reader.Ownership.{IsSound}
use aidt.Reader.Reached.{new_reader, Reach, start, later, loads, moves_to, Reach-IsSound}
use aidt.Reader.Reached.Restart.{load-save_reached}
use aidt.Reader.Ready.{init_stream_lem}
use aidt.App.Lifecycle.{Running, handlers, clear_handler, run, sync_offset}
use aidt.App.Lifecycle.Crashed.{run-sync_offset}
use aidt.App.Lifecycle
use aidt.App.Lifecycle.Stopped.{after_events, stop_lem}
use aidt.App.Lifecycle.Restarted.{run-stop}
use aidt.Tests.Instances.{
  buffer_ops, buffer_laws, list_queue, list_fifo, settings, disk, config, memory, fd_item, fd_maps,
  path_a, path_b, both_items, both_items-Fits, file_info, reader,
}
use aidt.Tests.Store.{stat, stat-StatFits, fd_item-OffsetFits, fd_maps-Keyed}

-- A disk whose offset file has the position of `/a`, and the reader that loads it.
abbrev pub saved_disk : Disk
saved_disk = record {
  files = (b'o' ∷ [], save_offset_all buffer_ops stat fd_maps) ∷ [];
  writable = λ path. true;
}

abbrev loaded : Reader
loaded = load buffer_ops fd_item settings new_reader saved_disk

Reach-loaded : Reach buffer_ops list_queue settings memory fd_item loaded
Reach-loaded = later start (loads saved_disk)

loaded_lem : (p : Bytes) → find p loaded.fd_map ≡ pick fd_item (find p fd_maps) (stat p) none
unfolding load
loaded_lem p =
    load_offsets_text buffer_ops buffer_laws fd_item stat stat-StatFits saved_disk (b'o' ∷ [])
      fd_maps p refl fd_maps-Keyed

loaded-Fits : (p : Bytes) → Yields OffsetFits (find p loaded.fd_map)
loaded-Fits p =
    subst (Yields OffsetFits) (sym (loaded_lem p))
      (elim (Bool-cases (list_beq path_a p)) [ inl e ↦ rw e fd_item-OffsetFits | inr e ↦ rw e tt ])

abbrev renamed : InotifyEvent
renamed = record { pathfile = path_a; origfile = path_b; aliasfile = path_a; event = modify }

Reach-IsSound_example : IsSound (moveto renamed loaded)
Reach-IsSound_example =
    Reach-IsSound buffer_ops list_queue settings memory fd_item (moveto renamed loaded)
      (later Reach-loaded (moves_to renamed))

load-save_reached_example :
    find path_a
      (load buffer_ops fd_item settings new_reader
        (save buffer_ops stat settings config loaded disk)).fd_map
    ≡ pick fd_item (find path_a (configured config loaded.fd_map)) (stat path_a) none
load-save_reached_example =
    load-save_reached buffer_ops buffer_laws list_queue settings memory fd_item stat stat-StatFits
      config loaded disk (b'x' ∷ []) path_a Reach-loaded loaded-Fits refl refl

abbrev world : World
world = record { now = 5; can_open = λ path. true }

abbrev event_a : InotifyEvent
event_a = record { pathfile = path_a; origfile = path_a; aliasfile = []; event = modify }

init_stream_lem_example :
    let o = init_stream settings world fd_item event_a file_info reader config in
    (is_open o.item.fs o.reader.streams && is_good o.item.fs o.reader.streams) ≡ true
unfolding init_stream init_opened init_item open_stream reopen
init_stream_lem_example =
    init_stream_lem settings world fd_item event_a file_info reader config refl

-- The program with two messages, when a deletion of `/b` is still queued.
abbrev pub deleted_b : InotifyEvent
deleted_b = record { pathfile = path_b; origfile = path_b; aliasfile = []; event = delete }

abbrev pub worlds : ℕ → World
worlds n = world

abbrev pub no_contents : ℕ → ℕ → Bytes
no_contents n h = []

abbrev pub busy : Running
busy = record { reader = loaded; config = config; messages = both_items; moment = 0 }

abbrev pub idle : Running
idle = record { reader = clear deleted_b loaded; config = config; messages = []; moment = 1 }

pub after_events-idle :
    after_events buffer_ops list_queue settings memory fd_item worlds no_contents busy
      (deleted_b ∷ [])
    ≡ some idle
unfolding handlers clear_handler
after_events-idle = refl

stop_lem_example :
    (d : Disk) × (Lifecycle.stop buffer_ops list_queue settings memory fd_item worlds no_contents
        list_queue stat busy
        (deleted_b ∷ [])
        disk
      ≡ some (record idle { reader = Handlers.stop idle.reader }, d))
    × (find settings.message_send_error d.files ≡ some ([] ++ records buffer_ops both_items))
    × (find settings.offset_file d.files
        ≡ some (save_offset_all buffer_ops stat (configured config idle.reader.fd_map)))
stop_lem_example =
    stop_lem buffer_ops buffer_laws list_queue list_fifo list_queue list_fifo settings memory
      fd_item worlds no_contents stat busy idle (deleted_b ∷ []) disk (b'x' ∷ []) ((λ h. cc), tt)
      after_events-idle refl refl refl refl refl refl refl

idle-Fits : (p : Bytes) → Yields OffsetFits (find p idle.reader.fd_map)
idle-Fits p =
    subst (Yields OffsetFits) (sym (clear_lem deleted_b loaded p).0)
      (elim (Bool-cases (list_beq path_b p)) [ inl e ↦ rw e tt | inr e ↦ rw e (loaded-Fits p) ])

-- A file of settings in which nothing is listed.
pub data Node : Type 0 where
  root nothing : Node

abbrev pub yaml : YamlOps Node
yaml = record {
  load_file = λ path. some root;
  at = λ node key. some nothing;
  is_sequence = λ node. false;
  is_null = λ node. true;
  is_map = λ node. false;
  elements = λ node. [];
  as_string = λ node. none;
  as_bool = λ node. none;
  as_uint32 = λ node. none;
}

abbrev no_settings : Config
no_settings = record { file_map = []; queue = [] }

parsed : paser yaml list_queue path_a no_settings ≡ some no_settings
unfolding paser check transfers_ok paser_transfers
parsed = refl

run-stop_example :
    (stopped started : Running) × (d d' : Disk) × (Lifecycle.stop buffer_ops list_queue settings
        memory fd_item worlds no_contents list_queue stat busy
        (deleted_b ∷ [])
        disk
      ≡ some (stopped, d))
    × (run buffer_ops list_queue settings memory fd_item yaml list_queue path_a d
        ≡ some (started, d'))
    × (started.messages ≡ [] ++ both_items)
    × (find path_a started.reader.fd_map
        ≡ pick fd_item (find path_a (configured config idle.reader.fd_map)) (stat path_a) none)
run-stop_example =
    run-stop buffer_ops buffer_laws list_queue list_fifo list_queue list_fifo settings memory
      fd_item worlds no_contents stat stat-StatFits yaml list_queue path_a no_settings busy idle
      (deleted_b ∷ []) disk (b'x' ∷ []) path_a [] ((λ h. cc), tt) after_events-idle refl refl refl
      refl refl refl refl refl tt both_items-Fits idle-Fits Reach-loaded parsed

-- The disk of a program whose message file has two messages.
abbrev used_disk : Disk
used_disk = record {
  files = (b'o' ∷ [], b'x' ∷ []) ∷ (b'e' ∷ [], records buffer_ops both_items) ∷ [];
  writable = λ path. true;
}

run-sync_offset_example :
    (started : Running) × (d : Disk) × (run buffer_ops list_queue settings memory fd_item yaml
        list_queue path_a
        (sync_offset buffer_ops stat settings busy used_disk)
      ≡ some (started, d))
    × (started.messages ≡ both_items)
    × (find path_a started.reader.fd_map
        ≡ pick fd_item (find path_a (configured config loaded.fd_map)) (stat path_a) none)
run-sync_offset_example =
    run-sync_offset buffer_ops buffer_laws list_queue list_fifo list_queue list_fifo settings memory
      fd_item worlds no_contents stat stat-StatFits yaml list_queue path_a no_settings busy
      used_disk (b'x' ∷ []) path_a both_items refl refl refl refl refl refl both_items-Fits
      loaded-Fits Reach-loaded parsed
