-- ===== src/App/Lifecycle/Crashed.antt =====
-- A start of the program of src/App.cpp after one that ended without `stop`.
use aidt.Prelude.{
  ◌≡◌, refl, ◌∙◌, true, false, List, [], ◌++◌, Option, none, some, Bytes, All, list_beq, bytes_eq,
  ℕ, Yields,
}
use aidt.Prelude.Table.{find}
use aidt.Adbase.{BufferOps, IsBuffer, QueueOps, IsFifo}
use aidt.Files.{Disk, rename, swp, bak}
use aidt.DataStore.{FdItem, FileStat, MessageItem}
use aidt.DataStore.Messages.{Fits, records}
use aidt.DataStore.Offsets.{OffsetFits, StatFits}
use aidt.DataStore.Reload.{pick}
use aidt.Config.{Config}
use aidt.ConfigPaser.{YamlOps, paser}
use aidt.Settings.{AdbaseConfig}
use aidt.Events.{InotifyEvent}
use aidt.Reader.{World}
use aidt.Reader.Format.{Memory}
use aidt.Reader.Handlers
use aidt.Reader.Handlers.{configured}
use aidt.Reader.Handlers.Saved.{save_others}
use aidt.Reader.Reached.Restart.{load-save_reached}
use aidt.Reader.Reached.{new_reader, Reach}
use aidt.App.Lifecycle.{Running, run, sync_offset}
use aidt.App.Lifecycle.Restarted.{run_eq}

module _ (b : BufferOps) (laws : IsBuffer b) (q : QueueOps MessageItem) (fifo : IsFifo q)
    (events : QueueOps InotifyEvent) (event_fifo : IsFifo events) (conf : AdbaseConfig)
    (mem : Memory) (junk : FdItem) (worlds : ℕ → World) (contents : ℕ → ℕ → Bytes)
    (stat : Bytes → Option FileStat)
    (stats : (path : Bytes) (st : FileStat) → stat path ≡ some st → StatFits st) where
  -- When the program ends after the timer saved the positions, without `stop`: if the message file,
  -- under none of the names of the offset file, held the records of `old` items that fit their fields,
  -- the new offset file could be opened and there was an offset file, the positions fit their fields,
  -- the reader was one that the program comes to, the file statuses fit theirs, and the settings can
  -- be read, then the next run starts with the saved positions of the files that are configured and
  -- still there, and with the `old` items only: it has none of the messages that were queued, although
  -- the positions may lie behind their lines.
  pub run-sync_offset :
      {Node : Type 0} (yaml : YamlOps Node) (names : QueueOps Bytes) (config_file : Bytes)
      (c : Config) (p : Running) (disk : Disk) (text path : Bytes) (old : List MessageItem)
      → disk.writable (conf.offset_file ++ swp) ≡ true
      → find conf.offset_file disk.files ≡ some text
      → list_beq conf.offset_file conf.message_send_error ≡ false
      → list_beq (conf.offset_file ++ swp) conf.message_send_error ≡ false
      → list_beq (conf.offset_file ++ bak) conf.message_send_error ≡ false
      → find conf.message_send_error disk.files ≡ some (records b old)
      → All Fits old
      → ((k : Bytes) → Yields OffsetFits (find k p.reader.fd_map))
      → Reach b q conf mem junk p.reader
      → paser yaml names config_file (record { file_map = []; queue = [] }) ≡ some c
      → (started : Running) × (d : Disk) × (run b q conf mem junk yaml names config_file
            (sync_offset b stat conf p disk)
          ≡ some (started, d))
        × (started.messages ≡ old)
        × (find path started.reader.fd_map
            ≡ pick junk (find path (configured p.config p.reader.fd_map)) (stat path) none)
  unfolding sync_offset
  run-sync_offset yaml names config_file c p disk text path old open_f present apart apart_swp
        apart_bak held fits offsets reach parsed =
      let m = conf.message_send_error in
      let d = Handlers.save b stat conf p.config p.reader disk in
      (
        record {
          reader = Handlers.load b junk conf new_reader d;
          config = c;
          messages = old;
          moment = 0;
        },
        rename d m (m ++ bak),
        run_eq b laws q fifo events event_fifo conf mem junk worlds contents stat stats yaml names
            config_file c d old parsed
            (save_others b stat conf p.config p.reader disk m apart apart_swp apart_bak ∙ held)
            fits,
        refl,
        load-save_reached b laws q conf mem junk stat stats p.config p.reader disk text path reach
            offsets open_f present,
      )
