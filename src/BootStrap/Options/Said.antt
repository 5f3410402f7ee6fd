-- ===== src/BootStrap/Options/Said.antt =====
-- What the options of the ini file say of the settings that `BootStrap::loadConfig` of
-- src/BootStrap.cpp assigns.
use aidt.Prelude.{◌≡◌, true, some}
use aidt.Settings.{AdbaseConfig, IniOps, as_int, assign-some, >>-done}
use aidt.Texts.{codes}
use aidt.BootStrap.Options.{load_system, load_logging, load_switches, load_http, load_mc, load_head}

module _ {Ini : Type 0} (ops : IniOps Ini) (ini : Ini) where
  abbrev pub SaysSystem : AdbaseConfig → Type 0
  SaysSystem v =
      (ops.get_option_bool ini (codes "system") (codes "daemon") ≡ some v.daemon)
      × (ops.get_option ini (codes "system") (codes "pidFile") ≡ some v.pid_file)
      × (as_int (ops.get_option_uint32 ini (codes "system") (codes "appid")) ≡ some v.appid)
      × (as_int (ops.get_option_uint32 ini (codes "system") (codes "macid")) ≡ some v.macid)

  pub load_system_lem :
      (v s : AdbaseConfig)
      → SaysSystem v
      → load_system ops ini s ≡ (
        record s { daemon = v.daemon; pid_file = v.pid_file; appid = v.appid; macid = v.macid },
        true,
      )
  unfolding load_system
  load_system_lem v s (h0, h1, h2, h3) =
      >>-done _ _ (assign-some _ _ h0)
        (>>-done _ _ (assign-some _ _ h1) (>>-done _ _ (assign-some _ _ h2) (assign-some _ _ h3)))

  abbrev pub SaysLogging : AdbaseConfig → Type 0
  SaysLogging v =
      (ops.get_option ini (codes "logging") (codes "logsDir") ≡ some v.logs_dir)
      × (ops.get_option_uint32 ini (codes "logging") (codes "logRollSize") ≡ some v.log_roll_size)
      × (as_int (ops.get_option_uint32 ini (codes "logging") (codes "logLevel")) ≡ some v.log_level)
      × (ops.get_option_bool ini (codes "logging") (codes "isAsync") ≡ some v.is_async)

  pub load_logging_lem :
      (v s : AdbaseConfig)
      → SaysLogging v
      → load_logging ops ini s ≡ (
        record s {
          logs_dir = v.logs_dir;
          log_roll_size = v.log_roll_size;
          log_level = v.log_level;
          is_async = v.is_async;
        },
        true,
      )
  unfolding load_logging
  load_logging_lem v s (h0, h1, h2, h3) =
      >>-done _ _ (assign-some _ _ h0)
        (>>-done _ _ (assign-some _ _ h1) (>>-done _ _ (assign-some _ _ h2) (assign-some _ _ h3)))

  abbrev pub SaysSwitches : AdbaseConfig → Type 0
  SaysSwitches v =
      (ops.get_option_bool ini (codes "adserver") (codes "mc") ≡ some v.is_start_mc)
      × (ops.get_option_bool ini (codes "adserver") (codes "head") ≡ some v.is_start_head)
      × (ops.get_option_bool ini (codes "adserver") (codes "http") ≡ some v.is_start_http)

  pub load_switches_lem :
      (v s : AdbaseConfig)
      → SaysSwitches v
      → load_switches ops ini s ≡ (
        record s {
          is_start_mc = v.is_start_mc;
          is_start_head = v.is_start_head;
          is_start_http = v.is_start_http;
        },
        true,
      )
  unfolding load_switches
  load_switches_lem v s (h0, h1, h2) =
      >>-done _ _ (assign-some _ _ h0) (>>-done _ _ (assign-some _ _ h1) (assign-some _ _ h2))

  abbrev pub SaysHttp : AdbaseConfig → Type 0
  SaysHttp v =
      (ops.get_option ini (codes "http") (codes "host") ≡ some v.http_host)
      × (as_int (ops.get_option_uint32 ini (codes "http") (codes "port")) ≡ some v.http_port)
      × (as_int (ops.get_option_uint32 ini (codes "http") (codes "timeout")) ≡ some v.http_timeout)
      × (as_int (ops.get_option_uint32 ini (codes "http") (codes "threadNum"))
          ≡ some v.http_thread_num)
      × (ops.get_option ini (codes "http") (codes "serverName") ≡ some v.http_server_name)
      × (ops.get_option ini (codes "http") (codes "defaultController")
          ≡ some v.http_default_controller)
      × (ops.get_option ini (codes "http") (codes "defaultAction") ≡ some v.http_default_action)
      × (ops.get_option ini (codes "http") (codes "accessLogDir") ≡ some v.http_access_log_dir)
      × (as_int (ops.get_option_uint32 ini (codes "http") (codes "accesslogRollSize"))
          ≡ some v.http_accesslog_roll_size)

  pub load_http_lem :
      (v s : AdbaseConfig)
      → SaysHttp v
      → load_http ops ini s ≡ (
        record s {
          http_host = v.http_host;
          http_port = v.http_port;
          http_timeout = v.http_timeout;
          http_thread_num = v.http_thread_num;
          http_server_name = v.http_server_name;
          http_default_controller = v.http_default_controller;
          http_default_action = v.http_default_action;
          http_access_log_dir = v.http_access_log_dir;
          http_accesslog_roll_size = v.http_accesslog_roll_size;
        },
        true,
      )
  unfolding load_http
  load_http_lem v s (h0, h1, h2, h3, h4, h5, h6, h7, h8) = >>-done _ _ (assign-some _ _ h0) (
      >>-done _ _ (assign-some _ _ h1) (
        >>-done _ _ (assign-some _ _ h2) (
          >>-done _ _ (assign-some _ _ h3) (
            >>-done _ _ (assign-some _ _ h4) (
              >>-done _ _ (assign-some _ _ h5) (
                >>-done _ _ (assign-some _ _ h6)
                  (>>-done _ _ (assign-some _ _ h7) (assign-some _ _ h8))))))))

  abbrev pub SaysMc : AdbaseConfig → Type 0
  SaysMc v =
      (ops.get_option ini (codes "mc") (codes "host") ≡ some v.mc_host)
      × (as_int (ops.get_option_uint32 ini (codes "mc") (codes "port")) ≡ some v.mc_port)
      × (ops.get_option ini (codes "mc") (codes "serverName") ≡ some v.mc_server_name)
      × (as_int (ops.get_option_uint32 ini (codes "mc") (codes "threadNum")) ≡ some v.mc_thread_num)

  pub load_mc_lem :
      (v s : AdbaseConfig)
      → SaysMc v
      → load_mc ops ini s ≡ (
        record s {
          mc_host = v.mc_host;
          mc_port = v.mc_port;
          mc_server_name = v.mc_server_name;
          mc_thread_num = v.mc_thread_num;
        },
        true,
      )
  unfolding load_mc
  load_mc_lem v s (h0, h1, h2, h3) =
      >>-done _ _ (assign-some _ _ h0)
        (>>-done _ _ (assign-some _ _ h1) (>>-done _ _ (assign-some _ _ h2) (assign-some _ _ h3)))

  abbrev pub SaysHead : AdbaseConfig → Type 0
  SaysHead v =
      (ops.get_option ini (codes "head") (codes "host") ≡ some v.head_host)
      × (as_int (ops.get_option_uint32 ini (codes "head") (codes "port")) ≡ some v.head_port)
      × (ops.get_option ini (codes "head") (codes "serverName") ≡ some v.head_server_name)
      × (as_int (ops.get_option_uint32 ini (codes "head") (codes "threadNum"))
          ≡ some v.head_thread_num)

  pub load_head_lem :
      (v s : AdbaseConfig)
      → SaysHead v
      → load_head ops ini s ≡ (
        record s {
          head_host = v.head_host;
          head_port = v.head_port;
          head_server_name = v.head_server_name;
          head_thread_num = v.head_thread_num;
        },
        true,
      )
  unfolding load_head
  load_head_lem v s (h0, h1, h2, h3) =
      >>-done _ _ (assign-some _ _ h0)
        (>>-done _ _ (assign-some _ _ h1) (>>-done _ _ (assign-some _ _ h2) (assign-some _ _ h3)))
