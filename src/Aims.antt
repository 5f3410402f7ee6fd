-- ===== src/Aims.antt =====
-- src/Aims.cpp: the settings that the Kafka producer of adbase is made with, and its life. What the
-- producer calls back is in ProducerIn.
pub mod Settled
use aidt.Prelude.{Bytes, List, [], ◌∷◌, Option, none, some, ◌>>=◌, if◌then◌else◌, bytes_eq}
use aidt.Prelude.Table.{insert}
use aidt.Settings.{AdbaseConfig}
use aidt.Texts.{codes}
use aidt.AdServer.{Pointer, null, live, deleted, is_set, use_object}

-- The map `configs` of `Aims::initKafkaProducer`.
unfoldable pub producer_configs : AdbaseConfig → List (Bytes × Bytes)
producer_configs conf =
    let c1 = insert (codes "metadata.broker.list") conf.broker_list_producer_in [] in
    let c2 = insert (codes "debug") conf.debug_in c1 in
    let c3 = insert (codes "security.protocol") conf.security_protocol c2 in
    let c4 = insert (codes "sasl.mechanisms") conf.sasl_mechanisms c3 in
    let c5 = insert (codes "sasl.kerberos.service.name") conf.kerberos_service_name c4 in
    let c6 = insert (codes "sasl.kerberos.principal") conf.kerberos_principal c5 in
    let c7 = insert (codes "sasl.kerberos.kinit.cmd") conf.kerberos_cmd c6 in
    let c8 = insert (codes "sasl.kerberos.keytab") conf.kerberos_keytab c7 in
    let c9 = insert (codes "sasl.kerberos.min.time.before.relogin") conf.kerberos_min_time c8 in
    let c10 = insert (codes "sasl.username") conf.sasl_username c9 in
    insert (codes "sasl.password") conf.sasl_password c10

pub record Aims : Type 0 where
  pub producer : Pointer
  pub callback : Pointer

-- `Aims::Aims`
abbrev pub new_aims : Aims
new_aims = record { producer = null; callback = null }

-- `Aims::init`, which `Aims::run` calls before it starts the producer.
unfoldable pub init : Aims → Aims
init a = record { producer = live; callback = live }

-- `Aims::stop`; the producer is stopped and kept.
unfoldable pub stop : Aims → Option Aims
stop a = (if is_set a.producer then use_object a.producer a else some a) >>= λ a1.
    if is_set a1.callback then use_object a1.callback (record a1 { callback = null }) else some a1
