-- ===== src/BootStrap/Launch.antt =====
-- The start of the program: `BootStrap::init` and `BootStrap::run` of src/BootStrap.cpp, as `main` of
-- src/aidt.cpp calls them, and the check of the settings that the option `-t` asks for. The process that
-- goes on behind a fork is followed; `pid` is the text of its number.
pub mod Accepted
use aidt.Prelude.{
  ℕ, Bool, true, false, ◌&&◌, List, [], ◌∷◌, ◌++◌, Option, none, some, is_some, Bytes,
  if◌then◌else◌,
}
use aidt.Adbase.{BufferOps, QueueOps}
use aidt.Files.{Disk, write_file}
use aidt.DataStore.{FdItem, MessageItem}
use aidt.Settings.{AdbaseConfig, IniOps}
use aidt.ConfigPaser.{YamlOps}
use aidt.Reader.Format.{Memory}
use aidt.App.Lifecycle
use aidt.AdServer
use aidt.Aims
use aidt.BootStrap.{BootStrap, parse_option, runs, checks, usage, version, logger_level, run}
use aidt.BootStrap.Options.{load_config}

-- The program prints its usage or its version, says that the settings are in order, ends by an
-- exception or by its settings, uses a file that was not opened, or runs.
pub data Launched : Type 0 where
  prints accepts fails crashes : Launched
  started : BootStrap → Disk → Launched

-- The end of `BootStrap::daemonInit`: the file of the process' number; `none` is undefined behaviour.
unfoldable pub daemon_init : Bytes → AdbaseConfig → Disk → Option Disk
unfolding write_file
daemon_init pid conf disk =
    if disk.writable conf.pid_file
    then some (write_file disk conf.pid_file (pid ++ b'\n' ∷ []))
    else none

module _ (b : BufferOps) (q : QueueOps MessageItem) (mem : Memory) (junk : FdItem)
    {Ini Node : Type 0} (ops : IniOps Ini) (yaml : YamlOps Node) (names : QueueOps Bytes)
    (fresh : AdbaseConfig) where
  -- `BootStrap::checkConfig`: whether it comes to its end.
  unfoldable pub check_config : Bytes → Bool
  unfolding load_config
  check_config config_file = elim (ops.load_file config_file) [
    | none ↦ false
    | some ini ↦
        let (configure, whole) = load_config ops ini fresh in
        whole
        && is_some (Lifecycle.check_config b q configure mem junk yaml names configure.aidt_config)
  ]

  -- What follows the options in `BootStrap::init`, and `BootStrap::run`.
  unfoldable pub start : Bytes → Bytes → Disk → Launched
  unfolding load_config
  start pid config_file disk = elim (ops.load_file config_file) [
    | none ↦ fails
    | some ini ↦
        let (conf, whole) = load_config ops ini fresh in
        if whole
        then elim (daemon_init pid conf disk) [
          | none ↦ crashes
          | some disk1 ↦ elim (Lifecycle.run b q conf mem junk yaml names conf.aidt_config disk1) [
            | none ↦ fails
            | some (app, disk2) ↦
                started
                  (run b q mem junk (record {
                    configure = conf;
                    level = logger_level conf.log_level;
                    aims = Aims.new_aims;
                    ad_server = AdServer.new_server;
                    stopped = [];
                    app = app;
                  }))
                  disk2
          ]
        ]
        else fails
  ]

  -- `main`, with the options that it is given; `fresh` is what the memory of the settings holds.
  unfoldable pub launch : Bytes → List (ℕ × Bytes) → Disk → Launched
  launch pid options disk = elim (parse_option options []) [
    | runs config_file ↦ start pid config_file disk
    | checks config_file ↦ if check_config config_file then accepts else fails
    | usage ↦ prints
    | version ↦ prints
  ]
