-- ===== src/BootStrap/Reloaded.antt =====
-- What `reload` of src/BootStrap.cpp leaves of the settings that there were.
use aidt.Prelude.{
  ◌≡◌, refl, Bool, true, false, none, some, ◌>>=◌, Bytes, bytes_eq, Option-cases, inl, inr,
}
use aidt.Adbase.{BufferOps, QueueOps}
use aidt.DataStore.{FdItem, MessageItem}
use aidt.Settings.{AdbaseConfig, IniOps, as_int, assign-none, >>-done, >>-stopped}
use aidt.Texts.{codes}
use aidt.ConfigPaser.{YamlOps, paser}
use aidt.Reader.Format.{Memory}
use aidt.App.Lifecycle
use aidt.App.Options
use aidt.App.Options.Said.{
  SaysKafka, SaysTimer, SaysMessage, SaysReader, load_kafka_lem, load_timer_lem, load_message_lem,
  load_reader_lem,
}
use aidt.BootStrap.Options.Said.{
  SaysSystem, SaysLogging, SaysSwitches, SaysHttp, SaysMc, SaysHead, load_system_lem,
  load_logging_lem, load_switches_lem, load_http_lem, load_mc_lem, load_head_lem,
}
use aidt.BootStrap.Options.{load_config}
use aidt.BootStrap.{BootStrap, logger_level, reload}

module _ {Ini : Type 0} (ops : IniOps Ini) (ini : Ini) where
  -- The file gives all settings but those of the reader, as `v` has them.
  abbrev pub SaysUpTo : AdbaseConfig → Type 0
  SaysUpTo v =
      SaysSystem ops ini v
      × SaysLogging ops ini v
      × SaysSwitches ops ini v
      × SaysHttp ops ini v
      × SaysMc ops ini v
      × SaysHead ops ini v
      × SaysKafka ops ini v
      × SaysTimer ops ini v
      × SaysMessage ops ini v

  -- It gives all of them.
  abbrev pub Says : AdbaseConfig → Type 0
  Says v = SaysUpTo v × SaysReader ops ini v

  -- The settings of `v`, and those of the reader of `s`.
  abbrev pub but_reader : AdbaseConfig → AdbaseConfig → AdbaseConfig
  but_reader v s = record v {
    max_lines = s.max_lines;
    max_fd = s.max_fd;
    max_line_bytes = s.max_line_bytes;
    offset_file = s.offset_file;
  }

  load_config-reader :
      (v s : AdbaseConfig) (out : AdbaseConfig × Bool)
      → SaysUpTo v
      → Options.load_reader ops ini (but_reader v s) ≡ out
      → load_config ops ini s ≡ out
  unfolding load_config Options.load_config
  load_config-reader v s out (h0, h1, h2, h3, h4, h5, h6, h7, h8) last =
      >>-done _ _ (load_system_lem ops ini v _ h0) (
        >>-done _ _ (load_logging_lem ops ini v _ h1) (
          >>-done _ _ (load_switches_lem ops ini v _ h2) (
            >>-done _ _ (load_http_lem ops ini v _ h3) (
              >>-done _ _ (load_mc_lem ops ini v _ h4) (
                >>-done _ _ (load_head_lem ops ini v _ h5) (
                  >>-done _ _ (load_kafka_lem ops ini v _ h6) (
                    >>-done _ _ (load_timer_lem ops ini v _ h7)
                      (>>-done _ _ (load_message_lem ops ini v _ h8) last))))))))

  load_config_lem : (v s : AdbaseConfig) → Says v → load_config ops ini s ≡ (v, true)
  load_config_lem v s (said, reader) =
      load_config-reader v s (v, true) said (load_reader_lem ops ini v (but_reader v s) reader)

  load_config_stopped :
      (v s : AdbaseConfig)
      → SaysUpTo v
      → as_int (ops.get_option_uint32 ini (codes "reader") (codes "maxLines")) ≡ none
      → load_config ops ini s ≡ (but_reader v s, false)
  unfolding Options.load_reader
  load_config_stopped v s said missing =
      load_config-reader v s (but_reader v s, false) said (>>-stopped _ _ (assign-none _ _ missing))

module _ (b : BufferOps) (q : QueueOps MessageItem) (mem : Memory) (junk : FdItem)
    {Ini Node : Type 0} (ops : IniOps Ini) (yaml : YamlOps Node) (names : QueueOps Bytes)
    (config_file : Bytes) (ini : Ini) (loaded : ops.load_file config_file ≡ some ini)
    (v : AdbaseConfig) (p : BootStrap) where
  -- When the ini file can be read and has all options: a reload leaves exactly the settings of the
  -- file, whatever they were before, sets the level of the log by them, and takes over the watched
  -- paths of the file that they name; the messages, the positions and the servers stay.
  pub reload_lem :
      Says ops ini v
      → reload b q mem junk ops yaml names config_file p ≡ (
          paser yaml names v.aidt_config p.app.config >>= λ config. some (record p {
            configure = v;
            level = logger_level v.log_level;
            app = record p.app { config = config };
          }))
  unfolding reload Lifecycle.reload
  reload_lem said = elim (Option-cases (paser yaml names v.aidt_config p.app.config)) [
    | inl e ↦
        rw (loaded, load_config_lem ops ini v p.configure said, e, reload, Lifecycle.reload) refl
    | inr (config, e) ↦
        rw (loaded, load_config_lem ops ini v p.configure said, e, reload, Lifecycle.reload) refl
  ]

  -- When the ini file can be read and has all options but `maxLines` of the reader: a reload
  -- leaves the new settings, but the old ones of the reader, and takes over nothing else. The settings
  -- are then neither those of the file nor those that there were.
  pub reload_torn :
      SaysUpTo ops ini v
      → as_int (ops.get_option_uint32 ini (codes "reader") (codes "maxLines")) ≡ none
      → reload b q mem junk ops yaml names config_file p
        ≡ some (record p { configure = but_reader ops ini v p.configure })
  unfolding reload
  reload_torn said missing =
      rw (loaded, load_config_stopped ops ini v p.configure said missing, reload) refl
