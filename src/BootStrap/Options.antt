-- ===== src/BootStrap/Options.antt =====
-- `BootStrap::loadConfig` of src/BootStrap.cpp: all options.
pub mod Said
use aidt.Prelude.{some, none, Option, Bytes, ◌≡◌, ◌>>=◌}
use aidt.Settings.{AdbaseConfig, IniOps, Load, assign, ◌>>◌, as_int}
use aidt.Texts.{codes}
use aidt.App.Options

module _ {Ini : Type 0} (ops : IniOps Ini) (ini : Ini) where
  -- The options of the system.
  unfoldable pub load_system : Load
  load_system = do
    assign (ops.get_option_bool ini (codes "system") (codes "daemon"))
        (λ v s. record s { daemon = v })
    assign (ops.get_option ini (codes "system") (codes "pidFile"))
        (λ v s. record s { pid_file = v })
    assign (as_int (ops.get_option_uint32 ini (codes "system") (codes "appid")))
        (λ v s. record s { appid = v })
    assign (as_int (ops.get_option_uint32 ini (codes "system") (codes "macid")))
        (λ v s. record s { macid = v })

  -- Those of the log.
  unfoldable pub load_logging : Load
  load_logging = do
    assign (ops.get_option ini (codes "logging") (codes "logsDir"))
        (λ v s. record s { logs_dir = v })
    assign (ops.get_option_uint32 ini (codes "logging") (codes "logRollSize"))
        (λ v s. record s { log_roll_size = v })
    assign (as_int (ops.get_option_uint32 ini (codes "logging") (codes "logLevel")))
        (λ v s. record s { log_level = v })
    assign (ops.get_option_bool ini (codes "logging") (codes "isAsync"))
        (λ v s. record s { is_async = v })

  -- Which servers are started.
  unfoldable pub load_switches : Load
  load_switches = do
    assign (ops.get_option_bool ini (codes "adserver") (codes "mc"))
        (λ v s. record s { is_start_mc = v })
    assign (ops.get_option_bool ini (codes "adserver") (codes "head"))
        (λ v s. record s { is_start_head = v })
    assign (ops.get_option_bool ini (codes "adserver") (codes "http"))
        (λ v s. record s { is_start_http = v })

  -- Those of the HTTP server.
  unfoldable pub load_http : Load
  load_http = do
    assign (ops.get_option ini (codes "http") (codes "host")) (λ v s. record s { http_host = v })
    assign (as_int (ops.get_option_uint32 ini (codes "http") (codes "port")))
        (λ v s. record s { http_port = v })
    assign (as_int (ops.get_option_uint32 ini (codes "http") (codes "timeout")))
        (λ v s. record s { http_timeout = v })
    assign (as_int (ops.get_option_uint32 ini (codes "http") (codes "threadNum")))
        (λ v s. record s { http_thread_num = v })
    assign (ops.get_option ini (codes "http") (codes "serverName"))
        (λ v s. record s { http_server_name = v })
    assign (ops.get_option ini (codes "http") (codes "defaultController"))
        (λ v s. record s { http_default_controller = v })
    assign (ops.get_option ini (codes "http") (codes "defaultAction"))
        (λ v s. record s { http_default_action = v })
    assign (ops.get_option ini (codes "http") (codes "accessLogDir"))
        (λ v s. record s { http_access_log_dir = v })
    assign (as_int (ops.get_option_uint32 ini (codes "http") (codes "accesslogRollSize")))
        (λ v s. record s { http_accesslog_roll_size = v })

  -- Those of the memcache server.
  unfoldable pub load_mc : Load
  load_mc = do
    assign (ops.get_option ini (codes "mc") (codes "host")) (λ v s. record s { mc_host = v })
    assign (as_int (ops.get_option_uint32 ini (codes "mc") (codes "port")))
        (λ v s. record s { mc_port = v })
    assign (ops.get_option ini (codes "mc") (codes "serverName"))
        (λ v s. record s { mc_server_name = v })
    assign (as_int (ops.get_option_uint32 ini (codes "mc") (codes "threadNum")))
        (λ v s. record s { mc_thread_num = v })

  -- Those of the head server.
  unfoldable pub load_head : Load
  load_head = do
    assign (ops.get_option ini (codes "head") (codes "host")) (λ v s. record s { head_host = v })
    assign (as_int (ops.get_option_uint32 ini (codes "head") (codes "port")))
        (λ v s. record s { head_port = v })
    assign (ops.get_option ini (codes "head") (codes "serverName"))
        (λ v s. record s { head_server_name = v })
    assign (as_int (ops.get_option_uint32 ini (codes "head") (codes "threadNum")))
        (λ v s. record s { head_thread_num = v })

  -- `BootStrap::loadConfig`, once the file is parsed.
  unfoldable pub load_config : Load
  unfolding load_system load_logging load_switches load_http load_mc load_head
  load_config = do
    load_system
    load_logging
    load_switches
    load_http
    load_mc
    load_head
    Options.load_config ops ini
