-- ===== src/BootStrap.antt =====
-- src/BootStrap.cpp and src/aidt.cpp: the program as a whole, from its options to its signals. The
-- settings are read from an ini file by adbase; forking and the log are the system's and adbase's.
pub mod Options
pub mod Reloaded
pub mod Stopped
pub mod Launch
use aidt.Prelude.{
  ℕ, ℤ, pos, negsuc, Bool, true, false, List, [], ◌∷◌, ◌++◌, Option, none, some, ◌>>=◌, Bytes,
  nat_beq, if◌then◌else◌, bytes_eq,
}
use aidt.Prelude.Table.{erase}
use aidt.Adbase.{BufferOps, QueueOps}
use aidt.Files.{Disk}
use aidt.DataStore.{FdItem, FileStat, MessageItem}
use aidt.Settings.{AdbaseConfig, IniOps}
use aidt.ConfigPaser.{YamlOps}
use aidt.Events.{InotifyEvent}
use aidt.Reader.{World}
use aidt.Reader.Format.{Memory}
use aidt.App.Lifecycle
use aidt.App.Lifecycle.{Running}
use aidt.AdServer
use aidt.AdServer.{AdServer, Pointer, null, live, deleted, is_set, use_object}
use aidt.Aims
use aidt.Aims.{Aims}
use Options.{load_config}

-- What the options of the program ask for, each as `getopt` gives it, with its argument. The first
-- `-h`, `-t` or `-v` ends the program; `-t` checks the settings of the file that was named before it.
pub data Asked : Type 0 where
  runs checks : Bytes → Asked
  usage version : Asked

-- `BootStrap::parseOption`
unfoldable pub parse_option : List (ℕ × Bytes) → Bytes → Asked
parse_option [] config_file = runs config_file
parse_option ((ch, optarg) ∷ options) config_file =
    let next = parse_option options config_file in
    let named = parse_option options optarg in
    if nat_beq ch b'c'
    then named
    else if nat_beq ch b'h'
    then usage
    else if nat_beq ch b't'
    then checks config_file
    else if nat_beq ch b'v'
    then version
    else next

pub data LogLevel : Type 0 where
  trace debug info : LogLevel

-- `BootStrap::setLoggerLevel`
unfoldable pub logger_level : ℤ → LogLevel
logger_level (pos n) = if nat_beq n 1 then trace else if nat_beq n 2 then debug else info
logger_level (negsuc n) = info

-- The parts that `stop` stops.
pub data Part : Type 0 where
  producer servers application : Part

-- What the program keeps: its settings, the level of the log, and its parts. `stopped` is the record of
-- the calls that stop a part, in their order.
pub record BootStrap : Type 0 where
  pub configure : AdbaseConfig
  pub level : LogLevel
  pub aims : Aims
  pub ad_server : AdServer
  pub app : Running
  pub stopped : List Part

-- The program of src/aidt.cpp: `bootMain`, and what it points to.
pub record Main : Type 0 where
  pub boot_main : Pointer
  pub boot : BootStrap

module _ (b : BufferOps) (q : QueueOps MessageItem) (mem : Memory) (junk : FdItem) where
  module _ {Ini Node : Type 0} (ops : IniOps Ini) (yaml : YamlOps Node)
      (names : QueueOps Bytes) where
    -- `BootStrap::reload`; `none` where the file of the watched paths ends the program.
    pub reload : Bytes → BootStrap → Option BootStrap
    unfolding load_config
    reload config_file p = elim (ops.load_file config_file) [
      | none ↦ some p
      | some ini ↦
          let (configure, whole) = load_config ops ini p.configure in
          let loaded = record p { configure = configure } in
          if whole
          then (Lifecycle.reload b q configure mem junk yaml names configure.aidt_config p.app
              >>= λ app.
                  some (record loaded { level = logger_level configure.log_level; app = app }))
          else some loaded
    ]

  -- `BootStrap::run` makes and starts the servers and the producer, once the application runs.
  pub run : BootStrap → BootStrap
  run p =
      let conf = p.configure in
      record p {
        ad_server = AdServer.init conf AdServer.new_server;
        aims = Aims.init Aims.new_aims;
      }

  module _ (worlds : ℕ → World) (contents : ℕ → ℕ → Bytes) (events : QueueOps InotifyEvent)
      (stat : Bytes → Option FileStat) where
    -- `_aims->stop()`, `_adServer->stop()` and `_app->stop()`; `none` is undefined behaviour.
    stop_producer : BootStrap → Option BootStrap
    stop_producer p = Aims.stop p.aims >>= λ aims.
        some (record p { aims = aims; stopped = p.stopped ++ producer ∷ [] })

    stop_servers : BootStrap → Option BootStrap
    stop_servers p = AdServer.stop p.configure p.ad_server >>= λ ad_server.
        some (record p { ad_server = ad_server; stopped = p.stopped ++ servers ∷ [] })

    stop_application : BootStrap → List InotifyEvent → Disk → Option (BootStrap × Disk)
    stop_application p queue disk =
        Lifecycle.stop b q p.configure mem junk worlds contents events stat p.app queue disk
        >>= λ ended.
            some (record p { app = ended.0; stopped = p.stopped ++ application ∷ [] }, ended.1)

    -- `BootStrap::stop`: the parts that bring messages are stopped first.
    pub stop : BootStrap → List InotifyEvent → Disk → Option (BootStrap × Disk)
    unfolding stop_producer stop_servers stop_application
    stop p queue disk =
        let removed = record disk { files = erase p.configure.pid_file disk.files } in
        stop_producer p >>= stop_servers >>= λ p'. stop_application p' queue removed

    -- `killSignal`: what is left, or `none` where it uses what was deleted.
    pub kill_signal : Main → List InotifyEvent → Disk → Option (Main × Disk)
    kill_signal m queue disk =
        if is_set m.boot_main
        then (use_object m.boot_main m >>= λ m1. stop m1.boot queue disk >>= λ stopped.
            some (record { boot_main = deleted; boot = stopped.0 }, stopped.1))
        else some (m, disk)
