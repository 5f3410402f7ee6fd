-- ===== src/Tests/Boot.antt =====
-- The theorems on the program as a whole at concrete inputs.
use aidt.Prelude.{
  ◌≡◌, refl, Bool, true, false, [], ◌∷◌, none, some, pos, list_beq, if◌then◌else◌, bytes_eq, ◌>>=◌,
}
use aidt.Texts.{codes}
use aidt.Files.{Disk, append_file}
use aidt.DataStore.Messages.{records}
use aidt.Reader.Handlers
use aidt.App.Lifecycle.{Running}
use aidt.Settings.{AdbaseConfig, IniOps}
use aidt.ConfigPaser.{paser}
use aidt.AdServer.{new_server}
use aidt.Aims.{new_aims}
use aidt.BootStrap.{
  BootStrap, Main, info, logger_level, reload, run, kill_signal, producer, servers, application,
}
use aidt.BootStrap.Reloaded.{but_reader, SaysUpTo, reload_lem, reload_torn}
use aidt.BootStrap.Stopped.{kill_twice}
use aidt.AdServer.{live}
use aidt.App.Lifecycle.Stopped.{stop_eq}
use aidt.Tests.Instances.{
  buffer_ops, buffer_laws, list_queue, list_fifo, settings, memory, fd_item, disk,
}
use aidt.Tests.Life.{busy, idle, deleted_b, after_events-idle, worlds, no_contents, yaml}
use aidt.Tests.Store.{stat}

-- A file that gives each text option its own name, and one without `maxLines`.
abbrev pub ini_ops : IniOps Bool
ini_ops = record {
  load_file = λ path. some (list_beq path (codes "whole"));
  get_option = λ ini section name. some name;
  get_option_bool = λ ini section name. some true;
  get_option_uint32 = λ ini section name.
      if ini then some 7 else if list_beq name (codes "maxLines") then none else some 7;
}

abbrev said : AdbaseConfig
said = record {
  daemon = true;
  pid_file = codes "pidFile";
  appid = pos 7;
  macid = pos 7;
  logs_dir = codes "logsDir";
  log_roll_size = 7;
  log_level = pos 7;
  is_async = true;
  is_start_mc = true;
  is_start_head = true;
  is_start_http = true;
  http_host = codes "host";
  http_port = pos 7;
  http_timeout = pos 7;
  http_thread_num = pos 7;
  http_server_name = codes "serverName";
  http_default_controller = codes "defaultController";
  http_default_action = codes "defaultAction";
  http_access_log_dir = codes "accessLogDir";
  http_accesslog_roll_size = pos 7;
  mc_host = codes "host";
  mc_port = pos 7;
  mc_server_name = codes "serverName";
  mc_thread_num = pos 7;
  head_host = codes "host";
  head_port = pos 7;
  head_server_name = codes "serverName";
  head_thread_num = pos 7;
  broker_list_producer_in = codes "brokerListIn";
  debug_in = codes "debugIn";
  queue_length_in = pos 7;
  security_protocol = codes "securityProtocol";
  sasl_mechanisms = codes "saslMechanisms";
  kerberos_service_name = codes "kerberosServiceName";
  kerberos_principal = codes "kerberosPrincipal";
  kerberos_cmd = codes "kerberosCmd";
  kerberos_keytab = codes "kerberosKeytab";
  kerberos_min_time = codes "kerberosMinTime";
  sasl_username = codes "saslUsername";
  sasl_password = codes "saslPassword";
  interval_sync_offset = pos 7;
  aidt_config = codes "aidtConfig";
  malloc_trim_interval = pos 7;
  malloc_trim_pad = pos 7;
  message_queue_limit = pos 7;
  message_send_error = codes "sendError";
  max_lines = pos 7;
  max_fd = pos 7;
  max_line_bytes = pos 7;
  offset_file = codes "offsetFile";
}

-- The program as it was before.
abbrev boot : BootStrap
boot = record {
  configure = settings;
  level = info;
  aims = new_aims;
  ad_server = new_server;
  app = busy;
  stopped = [];
}

said-whole : SaysUpTo ini_ops true said
said-whole = (
  (refl, refl, refl, refl),
  (refl, refl, refl, refl),
  (refl, refl, refl),
  (refl, refl, refl, refl, refl, refl, refl, refl, refl),
  (refl, refl, refl, refl),
  (refl, refl, refl, refl),
  (refl, refl, refl, refl, refl, refl, refl, refl, refl, refl, refl, refl),
  (refl, refl, refl, refl),
  (refl, refl),
)

said-torn : SaysUpTo ini_ops false said
said-torn = (
  (refl, refl, refl, refl),
  (refl, refl, refl, refl),
  (refl, refl, refl),
  (refl, refl, refl, refl, refl, refl, refl, refl, refl),
  (refl, refl, refl, refl),
  (refl, refl, refl, refl),
  (refl, refl, refl, refl, refl, refl, refl, refl, refl, refl, refl, refl),
  (refl, refl, refl, refl),
  (refl, refl),
)

reload_lem_example :
    reload buffer_ops list_queue memory fd_item ini_ops yaml list_queue (codes "whole") boot ≡ (
      paser yaml list_queue said.aidt_config boot.app.config >>= λ config. some (record boot {
        configure = said;
        level = logger_level said.log_level;
        app = record boot.app { config = config };
      }))
reload_lem_example =
    reload_lem buffer_ops list_queue memory fd_item ini_ops yaml list_queue (codes "whole") true
      refl said boot (said-whole, (refl, refl, refl, refl))

reload_torn_example :
    reload buffer_ops list_queue memory fd_item ini_ops yaml list_queue (codes "torn") boot
    ≡ some (record boot { configure = but_reader ini_ops false said boot.configure })
reload_torn_example =
    reload_torn buffer_ops list_queue memory fd_item ini_ops yaml list_queue (codes "torn") false
      refl said boot said-torn refl

-- What stopping the application leaves, and the disk.
abbrev stopped_app : Running
stopped_app = record idle { reader = Handlers.stop idle.reader }

abbrev stopped_disk : Disk
stopped_disk =
    Handlers.save buffer_ops stat settings idle.config idle.reader
      (append_file disk settings.message_send_error (records buffer_ops busy.messages))

kill_twice_example :
    (after : Main) × (kill_signal buffer_ops list_queue memory fd_item worlds no_contents list_queue
        stat
        (record { boot_main = live; boot = run buffer_ops list_queue memory fd_item boot })
        (deleted_b ∷ [])
        disk
      ≡ some (after, stopped_disk))
    × (after.boot.app ≡ stopped_app)
    × (after.boot.stopped ≡ producer ∷ servers ∷ application ∷ [])
    × (kill_signal buffer_ops list_queue memory fd_item worlds no_contents list_queue stat after []
          stopped_disk
        ≡ none)
kill_twice_example =
    kill_twice buffer_ops list_queue memory fd_item worlds no_contents list_queue stat boot
      (deleted_b ∷ []) disk stopped_app stopped_disk
      (stop_eq buffer_ops buffer_laws list_queue list_fifo list_queue list_fifo settings memory
        fd_item worlds no_contents stat busy idle (deleted_b ∷ []) disk ((λ h. cc), tt)
        after_events-idle)
      [] stopped_disk refl
