-- ===== src/App/Lifecycle.antt =====
-- src/App.cpp: the parts of the program put together, and what happens to them when it starts, reads
-- its settings again, sends again what it saved, and stops. The reader's handlers are called by the
-- event thread, one after the other; `worlds` and `contents` say what the system answers at each of
-- their calls. No event is handled before `run` returns, and while the program stops no other thread
-- queues or takes a message: the receivers and the producer are stopped before.
pub mod Stopped
pub mod Restarted
pub mod Crashed
use aidt.Prelude.{
  ℕ, suc, Bool, false, List, [], ◌∷◌, ◌++◌, Option, none, some, ◌>>=◌, Bytes, length, get_or_else,
}
use aidt.Adbase.{BufferOps, QueueOps}
use aidt.Files.{Disk}
use aidt.DataStore.{FdItem, FileStat, MessageItem}
use aidt.Settings.{AdbaseConfig}
use aidt.Message.{load_message, save_message}
use aidt.Config.{Config}
use aidt.ConfigPaser.{YamlOps, paser}
use aidt.Events
use aidt.Events.{InotifyEvent}
use aidt.Reader.{Reader, World}
use aidt.Reader.Format.{Memory}
use aidt.Reader.Handlers
use aidt.Reader.Loops.{read}
use aidt.Reader.Reached.{new_reader}
use aidt.Watcher.Dispatch.{Handlers, event_thread}

-- What the handlers work on, and how many calls of them there have been.
pub record Running : Type 0 where
  pub reader : Reader
  pub config : Config
  pub messages : List MessageItem
  pub moment : ℕ

module _ (b : BufferOps) (q : QueueOps MessageItem) (conf : AdbaseConfig) (mem : Memory)
    (junk : FdItem) where
  module _ (worlds : ℕ → World) (contents : ℕ → ℕ → Bytes) where
    -- The handlers that `App::run` sets, from a state without undefined behaviour on. `isContinue` is
    -- false before the call.
    pub read_handler : InotifyEvent → Option Running → Option Running × Bool
    read_handler event none = (none, false)
    read_handler event (some p) =
        elim (read b q conf mem (worlds p.moment) junk (contents p.moment) event p.reader p.config
          p.messages) [
            | none ↦ (none, false)
            | some reading ↦ (
              some (record {
                reader = reading.reader;
                config = reading.config;
                messages = reading.queue;
                moment = suc p.moment;
              }),
              get_or_else reading.is_continue false,
            )
          ]

    unfoldable pub clear_handler : InotifyEvent → Option Running → Option Running
    clear_handler event s =
        s >>= λ p. some (record p { reader = Handlers.clear event p.reader; moment = suc p.moment })

    pub move_self_handler : InotifyEvent → Option Running → Option Running
    move_self_handler event s = s >>= λ p.
        let (reader, config) = Handlers.moveself (worlds p.moment) event p.reader p.config in
        some (record p { reader = reader; config = config; moment = suc p.moment })

    pub move_to_handler : InotifyEvent → Option Running → Option Running
    move_to_handler event s = s >>= λ p.
        some (record p { reader = Handlers.moveto event p.reader; moment = suc p.moment })

    unfoldable pub handlers : Handlers (Option Running)
    handlers = record {
      read_handler = read_handler;
      clear_handler = clear_handler;
      move_self_handler = move_self_handler;
      move_to_handler = move_to_handler;
    }

    -- `App::stop`, from the state, the queued events and the disk on: what there is afterwards, or
    -- `none` where a handler runs into undefined behaviour. `Watcher::stop` queues the last event and
    -- waits until the event thread has come to it.
    pub stop :
        QueueOps InotifyEvent
        → (Bytes → Option FileStat)
        → Running
        → List InotifyEvent
        → Disk
        → Option (Running × Disk)
    stop events stat p queue disk =
        let (saved, messages) = save_message b q conf disk p.messages in
        let last : InotifyEvent = record {
          pathfile = [];
          origfile = [];
          aliasfile = [];
          event = Events.stop;
        } in
        event_thread events handlers (suc (length queue)) (events.push queue last)
          (some (record p { messages = messages }))
        >>= λ ended. ended.1 >>= λ p'. some (
          record p' { reader = Handlers.stop p'.reader },
          Handlers.save b stat conf p'.config p'.reader saved,
        )

  -- `App::run`; `none` where the settings end the program.
  unfoldable pub run :
      {Node : Type 0} → YamlOps Node → QueueOps Bytes → Bytes → Disk → Option (Running × Disk)
  run yaml names config_file disk =
      paser yaml names config_file (record { file_map = []; queue = [] }) >>= λ config.
      let reader = Handlers.load b junk conf new_reader disk in
      let (disk', messages) = load_message b q conf disk [] in
      some (record { reader = reader; config = config; messages = messages; moment = 0 }, disk')

  -- `App::checkConfig`
  unfoldable pub check_config :
      {Node : Type 0} → YamlOps Node → QueueOps Bytes → Bytes → Option Config
  check_config yaml names config_file =
      paser yaml names config_file (record { file_map = []; queue = [] })

  -- `App::reload`
  unfoldable pub reload :
      {Node : Type 0} → YamlOps Node → QueueOps Bytes → Bytes → Running → Option Running
  reload yaml names config_file p =
      paser yaml names config_file p.config >>= λ config. some (record p { config = config })

  -- `App::resend`
  pub resend : Running → Disk → Running × Disk
  resend p disk =
      let (disk', messages) = load_message b q conf disk p.messages in
      (record p { messages = messages }, disk')

-- `Timer::syncOffset` (src/Timer.cpp), while the program runs.
pub sync_offset : BufferOps → (Bytes → Option FileStat) → AdbaseConfig → Running → Disk → Disk
sync_offset b stat conf p disk = Handlers.save b stat conf p.config p.reader disk
