-- ===== src/App/Lifecycle/Restarted.antt =====
-- A stop of the program of src/App.cpp and the start of the next one.
use aidt.Prelude.{
  ◌≡◌, ◌≢◌, refl, sym, ap, ◌∙◌, true, false, List, [], ◌∷◌, ◌++◌, Option, none, some, Bytes, All,
  list_beq, get_or_else, bytes_eq, append-nil, All-append, ℕ, Yields, subst, Option-cases, inl, inr,
}
use aidt.Prelude.Table.{find}
use aidt.Adbase.{BufferOps, IsBuffer, QueueOps, IsFifo}
use aidt.Files.{Disk, append_file, rename, swp, bak}
use aidt.DataStore.{FdItem, FileStat, MessageItem}
use aidt.DataStore.Messages.{Fits, records, load_message-records, read_message-nil}
use aidt.DataStore.Offsets.{OffsetFits, StatFits}
use aidt.DataStore.Reload.{pick}
use aidt.DataStore.Restart.{records-append}
use aidt.Message.{load_message}
use aidt.Config.{Config}
use aidt.ConfigPaser.{YamlOps, paser}
use aidt.Settings.{AdbaseConfig}
use aidt.Events.{InotifyEvent, EventType, delete, move_self, modify, move_to, stop}
use aidt.Reader.{World}
use aidt.Reader.Format.{Memory}
use aidt.Reader.Handlers
use aidt.Reader.Handlers.{configured}
use aidt.Reader.Loops.{read}
use aidt.Reader.Reached.Restart.{load-save_reached}
use aidt.Reader.Reached.{new_reader, Reach, later, clears, moves_self, moves_to, reads}
use aidt.Watcher.Dispatch.Drain.{handle, handle_all, event_of}
use aidt.App.Lifecycle
use aidt.App.Lifecycle.Stopped.{after_events, stop_eq, saved_messages, saved_offsets}
use aidt.App.Lifecycle.{
  Running, run, handlers, read_handler, clear_handler, move_self_handler, move_to_handler,
}

module _ (b : BufferOps) (q : QueueOps MessageItem) (conf : AdbaseConfig) (mem : Memory)
    (junk : FdItem) (worlds : ℕ → World) (contents : ℕ → ℕ → Bytes) where
  -- The reader is one that the program can come to.
  abbrev Reached : Option Running → Type 0
  Reached s = Yields (λ p. Reach b q conf mem junk p.reader) s

  Reached-read :
      (event : InotifyEvent) (s : Option Running)
      → Reached s
      → Reached (read_handler b q conf mem junk worlds contents event s).0
  unfolding read_handler
  Reached-read event none reach = tt
  Reached-read event (some p) reach =
      let w = worlds p.moment in
      let files = contents p.moment in
      elim (Option-cases (read b q conf mem w junk files event p.reader p.config p.messages)) [
        | inl e ↦ rw (e, read_handler) tt
        | inr (reading, e) ↦
            rw (e, read_handler) (later reach (reads w files event p.config p.messages reading e))
      ]

  Reached-clear :
      (event : InotifyEvent) (s : Option Running)
      → Reached s
      → Reached (clear_handler b q conf mem junk worlds contents event s)
  unfolding clear_handler
  Reached-clear event none reach = tt
  Reached-clear event (some p) reach = later reach (clears event)

  Reached-move_self :
      (event : InotifyEvent) (s : Option Running)
      → Reached s
      → Reached (move_self_handler b q conf mem junk worlds contents event s)
  unfolding move_self_handler
  Reached-move_self event none reach = tt
  Reached-move_self event (some p) reach = later reach (moves_self (worlds p.moment) event p.config)

  Reached-move_to :
      (event : InotifyEvent) (s : Option Running)
      → Reached s
      → Reached (move_to_handler b q conf mem junk worlds contents event s)
  unfolding move_to_handler
  Reached-move_to event none reach = tt
  Reached-move_to event (some p) reach = later reach (moves_to event)

  Reached-handle :
      (e : EventType) (pathfile origfile aliasfile : Bytes) (s : Option Running)
      → Reached s
      → Reached
          (handle
            (handlers b q conf mem junk worlds contents)
            (event_of e pathfile origfile aliasfile)
            s).1
  unfolding handlers
  Reached-handle delete pf of af s reach = Reached-clear (event_of delete pf of af) s reach
  Reached-handle move_self pf of af s reach = Reached-move_self (event_of modify pf of af) s reach
  Reached-handle modify pf of af s reach = Reached-read (event_of modify pf of af) s reach
  Reached-handle move_to pf of af s reach = Reached-move_to (event_of modify pf of af) s reach
  Reached-handle stop pf of af s reach = reach

  Reached-handle_all :
      (queue : List InotifyEvent) (s : Option Running)
      → Reached s
      → Reached (handle_all (handlers b q conf mem junk worlds contents) queue s).1
  Reached-handle_all [] s reach = reach
  Reached-handle_all (item ∷ queue) s reach =
      Reached-handle_all queue _
        (Reached-handle item.event item.pathfile item.origfile item.aliasfile s reach)

module _ (b : BufferOps) (laws : IsBuffer b) (q : QueueOps MessageItem) (fifo : IsFifo q)
    (events : QueueOps InotifyEvent) (event_fifo : IsFifo events) (conf : AdbaseConfig)
    (mem : Memory) (junk : FdItem) (worlds : ℕ → World) (contents : ℕ → ℕ → Bytes)
    (stat : Bytes → Option FileStat)
    (stats : (path : Bytes) (st : FileStat) → stat path ≡ some st → StatFits st) where
  -- What the settings and the two files make of a start.
  pub run_eq :
      {Node : Type 0} (yaml : YamlOps Node) (names : QueueOps Bytes) (config_file : Bytes)
      (c : Config) (disk : Disk) (items : List MessageItem)
      → paser yaml names config_file (record { file_map = []; queue = [] }) ≡ some c
      → find conf.message_send_error disk.files ≡ some (records b items)
      → All Fits items
      → run b q conf mem junk yaml names config_file disk
        ≡ some (
          record {
            reader = Handlers.load b junk conf new_reader disk;
            config = c;
            messages = items;
            moment = 0;
          },
          rename disk conf.message_send_error (conf.message_send_error ++ bak),
        )
  unfolding run load_message
  run_eq yaml names config_file c disk items parsed held fits =
      let m = conf.message_send_error in
      let whole : find m disk.files ≡ some (records b items ++ []) = rw append-nil held in
      rw
        (
          run,
          parsed,
          load_message-records b laws q fifo disk m [] items [] fits whole
              (read_message-nil b laws),
        )
        refl

  -- Under the conditions under which `stop` leaves both files, when the message file held the records
  -- of `old` items, all items and positions fit their fields, the reader is one that the program comes
  -- to, the file statuses fit theirs, and the settings can still be read: the next run starts with the
  -- items of the message file and the messages that were queued when `stop` was called, in this order,
  -- and with the positions that the reader came to after that, of the files that are configured and
  -- still there. The messages that these later reads queued are not among those that it starts with.
  pub run-stop :
      {Node : Type 0} (yaml : YamlOps Node) (names : QueueOps Bytes) (config_file : Bytes)
      (c : Config) (p p' : Running) (queue : List InotifyEvent) (disk : Disk) (text path : Bytes)
      (old : List MessageItem)
      → All (λ item. item.event ≢ stop) queue
      → after_events b q conf mem junk worlds contents p queue ≡ some p'
      → disk.writable conf.message_send_error ≡ true
      → disk.writable (conf.offset_file ++ swp) ≡ true
      → find conf.offset_file disk.files ≡ some text
      → list_beq conf.offset_file conf.message_send_error ≡ false
      → list_beq conf.message_send_error conf.offset_file ≡ false
      → list_beq (conf.offset_file ++ swp) conf.message_send_error ≡ false
      → list_beq (conf.offset_file ++ bak) conf.message_send_error ≡ false
      → get_or_else (find conf.message_send_error disk.files) [] ≡ records b old
      → All Fits old
      → All Fits p.messages
      → ((k : Bytes) → Yields OffsetFits (find k p'.reader.fd_map))
      → Reach b q conf mem junk p.reader
      → paser yaml names config_file (record { file_map = []; queue = [] }) ≡ some c
      → (stopped started : Running) × (d d' : Disk) × (Lifecycle.stop b q conf mem junk worlds
            contents events stat p queue disk
          ≡ some (stopped, d))
        × (run b q conf mem junk yaml names config_file d ≡ some (started, d'))
        × (started.messages ≡ old ++ p.messages)
        × (find path started.reader.fd_map
            ≡ pick junk (find path (configured p'.config p'.reader.fd_map)) (stat path) none)
  run-stop yaml names config_file c p p' queue disk text path old going end open_m open_f present
        apart apart' apart_swp apart_bak held fits_old fits offsets reach parsed =
      let m = conf.message_send_error in
      let saved = append_file disk m (records b p.messages) in
      let d = Handlers.save b stat conf p'.config p'.reader saved in
      let (open_saved, there) =
        saved_messages b laws q fifo events event_fifo conf mem junk worlds contents stat p disk
          text open_f present apart' in
      let whole : find m d.files ≡ some (records b (old ++ p.messages)) =
        saved_offsets b laws q fifo events event_fifo conf mem junk worlds contents stat p p' disk
          open_m apart apart_swp apart_bak
        ∙ ap some
            (ap (λ s. s ++ records b p.messages) held ∙ sym (records-append b old p.messages)) in
      let reached : Reach b q conf mem junk p'.reader =
        subst (Reached b q conf mem junk worlds contents) end (
          Reached-handle_all b q conf mem junk worlds contents queue
            (some (record p { messages = [] })) reach) in
      (
        record p' { reader = Handlers.stop p'.reader },
        record {
          reader = Handlers.load b junk conf new_reader d;
          config = c;
          messages = old ++ p.messages;
          moment = 0;
        },
        d,
        rename d m (m ++ bak),
        stop_eq b laws q fifo events event_fifo conf mem junk worlds contents stat p p' queue disk
            going end,
        run_eq yaml names config_file c d (old ++ p.messages) parsed whole
            (All-append Fits old p.messages fits_old fits),
        refl,
        load-save_reached b laws q conf mem junk stat stats p'.config p'.reader saved text path
            reached offsets open_saved there,
      )
