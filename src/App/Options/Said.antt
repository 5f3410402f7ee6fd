-- ===== src/App/Options/Said.antt =====
-- What the options of the ini file say of the settings that `App::loadConfig` of src/App.cpp assigns.
use aidt.Prelude.{◌≡◌, true, some}
use aidt.Settings.{AdbaseConfig, IniOps, as_int, assign-some, >>-done}
use aidt.Texts.{codes}
use aidt.App.Options.{load_kafka, load_timer, load_message, load_reader}

module _ {Ini : Type 0} (ops : IniOps Ini) (ini : Ini) where
  abbrev pub SaysKafka : AdbaseConfig → Type 0
  SaysKafka v =
      (ops.get_option ini (codes "kafkap_in") (codes "brokerListIn")
        ≡ some v.broker_list_producer_in)
      × (ops.get_option ini (codes "kafkap_in") (codes "debugIn") ≡ some v.debug_in)
      × (as_int (ops.get_option_uint32 ini (codes "kafkap_in") (codes "queueLengthIn"))
          ≡ some v.queue_length_in)
      × (ops.get_option ini (codes "kafkap_in") (codes "securityProtocol")
          ≡ some v.security_protocol)
      × (ops.get_option ini (codes "kafkap_in") (codes "saslMechanisms") ≡ some v.sasl_mechanisms)
      × (ops.get_option ini (codes "kafkap_in") (codes "kerberosServiceName")
          ≡ some v.kerberos_service_name)
      × (ops.get_option ini (codes "kafkap_in") (codes "kerberosPrincipal")
          ≡ some v.kerberos_principal)
      × (ops.get_option ini (codes "kafkap_in") (codes "kerberosCmd") ≡ some v.kerberos_cmd)
      × (ops.get_option ini (codes "kafkap_in") (codes "kerberosKeytab") ≡ some v.kerberos_keytab)
      × (ops.get_option ini (codes "kafkap_in") (codes "kerberosMinTime")
          ≡ some v.kerberos_min_time)
      × (ops.get_option ini (codes "kafkap_in") (codes "saslUsername") ≡ some v.sasl_username)
      × (ops.get_option ini (codes "kafkap_in") (codes "saslPassword") ≡ some v.sasl_password)

  pub load_kafka_lem :
      (v s : AdbaseConfig)
      → SaysKafka v
      → load_kafka ops ini s ≡ (
        record s {
          broker_list_producer_in = v.broker_list_producer_in;
          debug_in = v.debug_in;
          queue_length_in = v.queue_length_in;
          security_protocol = v.security_protocol;
          sasl_mechanisms = v.sasl_mechanisms;
          kerberos_service_name = v.kerberos_service_name;
          kerberos_principal = v.kerberos_principal;
          kerberos_cmd = v.kerberos_cmd;
          kerberos_keytab = v.kerberos_keytab;
          kerberos_min_time = v.kerberos_min_time;
          sasl_username = v.sasl_username;
          sasl_password = v.sasl_password;
        },
        true,
      )
  unfolding load_kafka
  load_kafka_lem v s (h0, h1, h2, h3, h4, h5, h6, h7, h8, h9, h10, h11) =
      >>-done _ _ (assign-some _ _ h0) (
        >>-done _ _ (assign-some _ _ h1) (
          >>-done _ _ (assign-some _ _ h2) (
            >>-done _ _ (assign-some _ _ h3) (
              >>-done _ _ (assign-some _ _ h4) (
                >>-done _ _ (assign-some _ _ h5) (
                  >>-done _ _ (assign-some _ _ h6) (
                    >>-done _ _ (assign-some _ _ h7) (
                      >>-done _ _ (assign-some _ _ h8) (
                        >>-done _ _ (assign-some _ _ h9)
                          (>>-done _ _ (assign-some _ _ h10) (assign-some _ _ h11)))))))))))

  abbrev pub SaysTimer : AdbaseConfig → Type 0
  SaysTimer v =
      (as_int (ops.get_option_uint32 ini (codes "timer") (codes "intervalSyncOffset"))
        ≡ some v.interval_sync_offset)
      × (ops.get_option ini (codes "system") (codes "aidtConfig") ≡ some v.aidt_config)
      × (as_int (ops.get_option_uint32 ini (codes "system") (codes "mallocTrimInterval"))
          ≡ some v.malloc_trim_interval)
      × (as_int (ops.get_option_uint32 ini (codes "system") (codes "mallocTrimPad"))
          ≡ some v.malloc_trim_pad)

  pub load_timer_lem :
      (v s : AdbaseConfig)
      → SaysTimer v
      → load_timer ops ini s ≡ (
        record s {
          interval_sync_offset = v.interval_sync_offset;
          aidt_config = v.aidt_config;
          malloc_trim_interval = v.malloc_trim_interval;
          malloc_trim_pad = v.malloc_trim_pad;
        },
        true,
      )
  unfolding load_timer
  load_timer_lem v s (h0, h1, h2, h3) =
      >>-done _ _ (assign-some _ _ h0)
        (>>-done _ _ (assign-some _ _ h1) (>>-done _ _ (assign-some _ _ h2) (assign-some _ _ h3)))

  abbrev pub SaysMessage : AdbaseConfig → Type 0
  SaysMessage v =
      (as_int (ops.get_option_uint32 ini (codes "message") (codes "queueLimit"))
        ≡ some v.message_queue_limit)
      × (ops.get_option ini (codes "message") (codes "sendError") ≡ some v.message_send_error)

  pub load_message_lem :
      (v s : AdbaseConfig)
      → SaysMessage v
      → load_message ops ini s ≡ (
        record s {
          message_queue_limit = v.message_queue_limit;
          message_send_error = v.message_send_error;
        },
        true,
      )
  unfolding load_message
  load_message_lem v s (h0, h1) = >>-done _ _ (assign-some _ _ h0) (assign-some _ _ h1)

  abbrev pub SaysReader : AdbaseConfig → Type 0
  SaysReader v =
      (as_int (ops.get_option_uint32 ini (codes "reader") (codes "maxLines")) ≡ some v.max_lines)
      × (as_int (ops.get_option_uint32 ini (codes "reader") (codes "maxfd")) ≡ some v.max_fd)
      × (as_int (ops.get_option_uint32 ini (codes "reader") (codes "maxLineBytes"))
          ≡ some v.max_line_bytes)
      × (ops.get_option ini (codes "reader") (codes "offsetFile") ≡ some v.offset_file)

  pub load_reader_lem :
      (v s : AdbaseConfig)
      → SaysReader v
      → load_reader ops ini s ≡ (
        record s {
          max_lines = v.max_lines;
          max_fd = v.max_fd;
          max_line_bytes = v.max_line_bytes;
          offset_file = v.offset_file;
        },
        true,
      )
  unfolding load_reader
  load_reader_lem v s (h0, h1, h2, h3) =
      >>-done _ _ (assign-some _ _ h0)
        (>>-done _ _ (assign-some _ _ h1) (>>-done _ _ (assign-some _ _ h2) (assign-some _ _ h3)))
