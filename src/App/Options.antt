-- ===== src/App/Options.antt =====
-- `App::loadConfig` of src/App.cpp: the options of the parts that `App` puts together.
pub mod Said
use aidt.Prelude.{some, none, Option, Bytes, ◌≡◌, ◌>>=◌}
use aidt.Settings.{AdbaseConfig, IniOps, Load, assign, ◌>>◌, as_int}
use aidt.Texts.{codes}

module _ {Ini : Type 0} (ops : IniOps Ini) (ini : Ini) where
  -- `LOAD_KAFKA_PRODUCER_CONFIG(In, in)`
  unfoldable pub load_kafka : Load
  load_kafka = do
    assign (ops.get_option ini (codes "kafkap_in") (codes "brokerListIn"))
        (λ v s. record s { broker_list_producer_in = v })
    assign (ops.get_option ini (codes "kafkap_in") (codes "debugIn"))
        (λ v s. record s { debug_in = v })
    assign (as_int (ops.get_option_uint32 ini (codes "kafkap_in") (codes "queueLengthIn")))
        (λ v s. record s { queue_length_in = v })
    assign (ops.get_option ini (codes "kafkap_in") (codes "securityProtocol"))
        (λ v s. record s { security_protocol = v })
    assign (ops.get_option ini (codes "kafkap_in") (codes "saslMechanisms"))
        (λ v s. record s { sasl_mechanisms = v })
    assign (ops.get_option ini (codes "kafkap_in") (codes "kerberosServiceName"))
        (λ v s. record s { kerberos_service_name = v })
    assign (ops.get_option ini (codes "kafkap_in") (codes "kerberosPrincipal"))
        (λ v s. record s { kerberos_principal = v })
    assign (ops.get_option ini (codes "kafkap_in") (codes "kerberosCmd"))
        (λ v s. record s { kerberos_cmd = v })
    assign (ops.get_option ini (codes "kafkap_in") (codes "kerberosKeytab"))
        (λ v s. record s { kerberos_keytab = v })
    assign (ops.get_option ini (codes "kafkap_in") (codes "kerberosMinTime"))
        (λ v s. record s { kerberos_min_time = v })
    assign (ops.get_option ini (codes "kafkap_in") (codes "saslUsername"))
        (λ v s. record s { sasl_username = v })
    assign (ops.get_option ini (codes "kafkap_in") (codes "saslPassword"))
        (λ v s. record s { sasl_password = v })

  -- The timer and what else is of the system.
  unfoldable pub load_timer : Load
  load_timer = do
    assign (as_int (ops.get_option_uint32 ini (codes "timer") (codes "intervalSyncOffset")))
        (λ v s. record s { interval_sync_offset = v })
    assign (ops.get_option ini (codes "system") (codes "aidtConfig"))
        (λ v s. record s { aidt_config = v })
    assign (as_int (ops.get_option_uint32 ini (codes "system") (codes "mallocTrimInterval")))
        (λ v s. record s { malloc_trim_interval = v })
    assign (as_int (ops.get_option_uint32 ini (codes "system") (codes "mallocTrimPad")))
        (λ v s. record s { malloc_trim_pad = v })

  -- Those of the message queue.
  unfoldable pub load_message : Load
  load_message = do
    assign (as_int (ops.get_option_uint32 ini (codes "message") (codes "queueLimit")))
        (λ v s. record s { message_queue_limit = v })
    assign (ops.get_option ini (codes "message") (codes "sendError"))
        (λ v s. record s { message_send_error = v })

  -- Those of the reader.
  unfoldable pub load_reader : Load
  load_reader = do
    assign (as_int (ops.get_option_uint32 ini (codes "reader") (codes "maxLines")))
        (λ v s. record s { max_lines = v })
    assign (as_int (ops.get_option_uint32 ini (codes "reader") (codes "maxfd")))
        (λ v s. record s { max_fd = v })
    assign (as_int (ops.get_option_uint32 ini (codes "reader") (codes "maxLineBytes")))
        (λ v s. record s { max_line_bytes = v })
    assign (ops.get_option ini (codes "reader") (codes "offsetFile"))
        (λ v s. record s { offset_file = v })

  -- `App::loadConfig`
  unfoldable pub load_config : Load
  unfolding load_kafka load_timer load_message load_reader
  load_config = do load_kafka; load_timer; load_message; load_reader
