-- ===== src/BootStrap/Launch/Accepted.antt =====
-- What the option `-t` of src/BootStrap.cpp says of the settings.
use aidt.Prelude.{
  ℕ, ◌≡◌, ◌⊎◌, refl, Bool, true, false, List, [], ◌∷◌, ◌++◌, none, some, is_some, Bytes, inl, inr,
  Bool-cases, Option-cases,
}
use aidt.Adbase.{BufferOps, QueueOps}
use aidt.Files.{Disk, write_file}
use aidt.DataStore.{FdItem, MessageItem}
use aidt.Settings.{AdbaseConfig, IniOps}
use aidt.ConfigPaser.{YamlOps, paser}
use aidt.Reader.Format.{Memory}
use aidt.App.Lifecycle
use aidt.Message.{load_message}
use aidt.Reader.Handlers
use aidt.Reader.Reached.{new_reader}
use aidt.AdServer
use aidt.Aims
use aidt.BootStrap.{BootStrap, parse_option, runs, checks, logger_level, run}
use aidt.BootStrap.Options.{load_config}
use aidt.BootStrap.Launch.{
  Launched, accepts, fails, started, daemon_init, check_config, start, launch,
}

module _ (b : BufferOps) (q : QueueOps MessageItem) (mem : Memory) (junk : FdItem)
    {Ini Node : Type 0} (ops : IniOps Ini) (yaml : YamlOps Node) (names : QueueOps Bytes)
    (fresh : AdbaseConfig) (pid : Bytes) (disk : Disk) where
  -- The program runs.
  abbrev pub Starts : Launched → Type 0
  Starts out = (boot : BootStrap) × (disk' : Disk) × (out ≡ started boot disk')

  -- The settings are in order and the program runs, or neither.
  abbrev Agree : Bool → Launched → Type 0
  Agree ok out = ((ok ≡ true) × Starts out) ⊎ ((ok ≡ false) × (out ≡ fails))

  run-check_config :
      (conf : AdbaseConfig) (disk1 : Disk)
      → ((is_some (Lifecycle.check_config b q conf mem junk yaml names conf.aidt_config) ≡ true)
          × ((app : Lifecycle.Running) × (disk2 : Disk) × (Lifecycle.run b q conf mem junk yaml
                  names conf.aidt_config disk1
                ≡ some (app, disk2))))
        ⊎ ((is_some (Lifecycle.check_config b q conf mem junk yaml names conf.aidt_config) ≡ false)
            × (Lifecycle.run b q conf mem junk yaml names conf.aidt_config disk1 ≡ none))
  unfolding Lifecycle.run Lifecycle.check_config
  run-check_config conf disk1 =
      elim (Option-cases
        (paser yaml names conf.aidt_config (record { file_map = []; queue = [] }))) [
          | inl e ↦ inr (rw (e, Lifecycle.check_config) refl, rw (e, Lifecycle.run) refl)
          | inr (config, e) ↦ inl (
            rw (e, Lifecycle.check_config) refl,
            (
              record {
                reader = Handlers.load b junk conf new_reader disk1;
                config = config;
                messages = (load_message b q conf disk1 []).1;
                moment = 0;
              },
              (load_message b q conf disk1 []).0,
              rw (e, Lifecycle.run) refl,
            ),
          )
        ]

  daemon_init_lem :
      (conf : AdbaseConfig)
      → ((path : Bytes) → disk.writable path ≡ true)
      → daemon_init pid conf disk ≡ some (write_file disk conf.pid_file (pid ++ b'\n' ∷ []))
  unfolding daemon_init
  daemon_init_lem conf writable = rw (writable conf.pid_file, daemon_init) refl

  Agree-start :
      (config_file : Bytes)
      → ((path : Bytes) → disk.writable path ≡ true)
      → Agree
          (check_config b q mem junk ops yaml names fresh config_file)
          (start b q mem junk ops yaml names fresh pid config_file disk)
  unfolding check_config start
  Agree-start config_file writable = elim (Option-cases (ops.load_file config_file)) [
    | inl e ↦ inr (rw (e, check_config) refl, rw (e, start) refl)
    | inr (ini, e) ↦
        let conf = (load_config ops ini fresh).0 in
        elim (Bool-cases (load_config ops ini fresh).1) [
          | inr torn ↦ inr (rw (e, torn, check_config) refl, rw (e, torn, start) refl)
          | inl whole ↦
              let disk1 = write_file disk conf.pid_file (pid ++ b'\n' ∷ []) in
              elim (run-check_config conf disk1) [
                | inl (ok, (app, disk2, ran)) ↦ inl (
                  rw (e, whole, ok, check_config) refl,
                  (
                    run b q mem junk (record {
                      configure = conf;
                      level = logger_level conf.log_level;
                      aims = Aims.new_aims;
                      ad_server = AdServer.new_server;
                      stopped = [];
                      app = app;
                    }),
                    disk2,
                    rw (e, whole, daemon_init_lem conf writable, ran, start) refl,
                  ),
                )
                | inr (bad, stopped) ↦ inr (
                  rw (e, whole, bad, check_config) refl,
                  rw (e, whole, daemon_init_lem conf writable, stopped, start) refl,
                )
              ]
        ]
  ]

  -- When the options `options` ask for the check of a file and `others` for a run with it, and files can
  -- be written: the check says that the settings are in order exactly when the program then runs with
  -- them, and where it does not, both end by a failure.
  pub launch_accepts :
      (options others : List (ℕ × Bytes)) (config_file : Bytes)
      → parse_option options [] ≡ checks config_file
      → parse_option others [] ≡ runs config_file
      → ((path : Bytes) → disk.writable path ≡ true)
      → let checked = launch b q mem junk ops yaml names fresh pid options disk in
        let ran = launch b q mem junk ops yaml names fresh pid others disk in
        ((checked ≡ accepts) × Starts ran) ⊎ ((checked ≡ fails) × (ran ≡ fails))
  unfolding launch
  launch_accepts options others config_file asks_check asks_run writable =
      elim (Agree-start config_file writable) [
        | inl (ok, starts) ↦ inl (rw (asks_check, ok, launch) refl, rw (asks_run, launch) starts)
        | inr (bad, stopped) ↦
            inr (rw (asks_check, bad, launch) refl, rw (asks_run, stopped, launch) refl)
      ]
