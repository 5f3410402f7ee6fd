-- ===== src/App/Lifecycle/Stopped.antt =====
-- What `App::stop` of src/App.cpp leaves, in memory and on the disk.
use aidt.Prelude.{
  ◌≡◌, ◌≢◌, refl, ap, ◌∙◌, Bool, true, false, List, [], ◌++◌, Option, some, Bytes, All, list_beq,
  get_or_else, bytes_eq, ℕ, arith,
}
use aidt.Prelude.Table.{find, find-insert}
use aidt.Adbase.{BufferOps, IsBuffer, QueueOps, IsFifo}
use aidt.Files.{Disk, append_file, find-append_file, swp, bak}
use aidt.DataStore.{FdItem, FileStat, MessageItem, save_offset_all}
use aidt.DataStore.Messages.{records, save_message_lem}
use aidt.Settings.{AdbaseConfig}
use aidt.Message.{save_message}
use aidt.Events
use aidt.Events.{InotifyEvent}
use aidt.Reader.{World}
use aidt.Reader.Format.{Memory}
use aidt.Reader.Handlers
use aidt.Reader.Handlers.{configured}
use aidt.Reader.Handlers.Saved.{save_lem, save_others}
use aidt.Watcher.Dispatch.Drain.{handle_all, event_thread_lem}
use aidt.App.Lifecycle.{Running, handlers, stop}

writable-append_file :
    (d : Disk) (path text : Bytes) → (append_file d path text).writable ≡ d.writable
unfolding append_file
writable-append_file d path text = ground arith

append_file-other :
    (d : Disk) (file text path : Bytes)
    → list_beq file path ≡ false
    → find path (append_file d file text).files ≡ find path d.files
unfolding append_file
append_file-other d file text path ne =
    ground (arith, ne, find-insert path file (get_or_else (find file d.files) [] ++ text) d.files)

module _ (b : BufferOps) (q : QueueOps MessageItem) (conf : AdbaseConfig) (mem : Memory)
    (junk : FdItem) (worlds : ℕ → World) (contents : ℕ → ℕ → Bytes) where
  -- What the handlers make of the queued events once the messages are saved.
  abbrev pub after_events : Running → List InotifyEvent → Option Running
  after_events p queue =
      (handle_all (handlers b q conf mem junk worlds contents) queue
        (some (record p { messages = [] }))).1

module _ (b : BufferOps) (laws : IsBuffer b) (q : QueueOps MessageItem) (fifo : IsFifo q)
    (events : QueueOps InotifyEvent) (event_fifo : IsFifo events) (conf : AdbaseConfig)
    (mem : Memory) (junk : FdItem) (worlds : ℕ → World) (contents : ℕ → ℕ → Bytes)
    (stat : Bytes → Option FileStat) where
  -- For queues and buffers as documented and queued events that are not `stop` themselves: if no
  -- handler runs into undefined behaviour, the program stops.
  pub stop_eq :
      (p p' : Running) (queue : List InotifyEvent) (disk : Disk)
      → All (λ item. item.event ≢ Events.stop) queue
      → after_events b q conf mem junk worlds contents p queue ≡ some p'
      → stop b q conf mem junk worlds contents events stat p queue disk
        ≡ some (
          record p' { reader = Handlers.stop p'.reader },
          Handlers.save b stat conf p'.config p'.reader
              (append_file disk conf.message_send_error (records b p.messages)),
        )
  unfolding stop save_message
  stop_eq p p' queue disk going end =
      let last : InotifyEvent = record {
        pathfile = [];
        origfile = [];
        aliasfile = [];
        event = Events.stop;
      } in
      rw
        (
          stop,
          save_message_lem b laws q fifo disk conf.message_send_error p.messages,
          event_fifo.push_lem queue last,
          event_thread_lem events event_fifo (handlers b q conf mem junk worlds contents) queue last
              [] (some (record p { messages = [] })) going refl,
          end,
        )
        refl

  -- What the disk holds after the message file was written.
  pub saved_messages :
      (p : Running) (disk : Disk) (text : Bytes)
      → disk.writable (conf.offset_file ++ swp) ≡ true
      → find conf.offset_file disk.files ≡ some text
      → list_beq conf.message_send_error conf.offset_file ≡ false
      → let saved = append_file disk conf.message_send_error (records b p.messages) in
        (saved.writable (conf.offset_file ++ swp) ≡ true)
        × (find conf.offset_file saved.files ≡ some text)
  saved_messages p disk text open_f present apart =
      let m = conf.message_send_error in
      (
        ap (λ (w : Bytes → Bool). w (conf.offset_file ++ swp))
              (writable-append_file disk m (records b p.messages))
            ∙ open_f,
        append_file-other disk m (records b p.messages) conf.offset_file apart ∙ present,
      )

  -- What the message file holds after the offset file was written.
  pub saved_offsets :
      (p p' : Running) (disk : Disk)
      → disk.writable conf.message_send_error ≡ true
      → list_beq conf.offset_file conf.message_send_error ≡ false
      → list_beq (conf.offset_file ++ swp) conf.message_send_error ≡ false
      → list_beq (conf.offset_file ++ bak) conf.message_send_error ≡ false
      → let saved = append_file disk conf.message_send_error (records b p.messages) in
        find conf.message_send_error (Handlers.save b stat conf p'.config p'.reader saved).files
        ≡ some (get_or_else (find conf.message_send_error disk.files) [] ++ records b p.messages)
  saved_offsets p p' disk open_m apart apart_swp apart_bak =
      let m = conf.message_send_error in
      let saved = append_file disk m (records b p.messages) in
      save_others b stat conf p'.config p'.reader saved m apart apart_swp apart_bak
      ∙ find-append_file disk m (records b p.messages) open_m

  -- For buffers and queues as documented, events that are not `stop` themselves, handlers that do not
  -- run into undefined behaviour, a message file and a new offset file that can be opened for writing,
  -- an offset file that is there, and a message file under none of the names of the offset file: the
  -- program stops, the message file then has the records of the messages that were queued when `stop`
  -- was called behind what it held, and no others, while the offset file has the positions that the
  -- reader came to on the events that were still queued. What the handlers queued for these events is
  -- in the memory only.
  pub stop_lem :
      (p p' : Running) (queue : List InotifyEvent) (disk : Disk) (text : Bytes)
      → All (λ item. item.event ≢ Events.stop) queue
      → after_events b q conf mem junk worlds contents p queue ≡ some p'
      → disk.writable conf.message_send_error ≡ true
      → disk.writable (conf.offset_file ++ swp) ≡ true
      → find conf.offset_file disk.files ≡ some text
      → list_beq conf.offset_file conf.message_send_error ≡ false
      → list_beq conf.message_send_error conf.offset_file ≡ false
      → list_beq (conf.offset_file ++ swp) conf.message_send_error ≡ false
      → list_beq (conf.offset_file ++ bak) conf.message_send_error ≡ false
      → (d : Disk) × (stop b q conf mem junk worlds contents events stat p queue disk
          ≡ some (record p' { reader = Handlers.stop p'.reader }, d))
        × (find conf.message_send_error d.files
            ≡ some
                (get_or_else (find conf.message_send_error disk.files) [] ++ records b p.messages))
        × (find conf.offset_file d.files
            ≡ some (save_offset_all b stat (configured p'.config p'.reader.fd_map)))
  stop_lem p p' queue disk text going end open_m open_f present apart apart' apart_swp apart_bak =
      let saved = append_file disk conf.message_send_error (records b p.messages) in
      let (open_saved, there) = saved_messages p disk text open_f present apart' in
      (
        Handlers.save b stat conf p'.config p'.reader saved,
        stop_eq p p' queue disk going end,
        saved_offsets p p' disk open_m apart apart_swp apart_bak,
        (save_lem b stat conf p'.config p'.reader saved text open_saved there).0,
      )
