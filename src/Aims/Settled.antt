-- ===== src/Aims/Settled.antt =====
-- The settings of the producer of src/Aims.cpp against the options of the ini file.
use Prim.Native.String.{String}
use aidt.Prelude.{◌≡◌, sym, List, [], ◌∷◌, All, bytes_eq}
use aidt.Prelude.Table.{find}
use aidt.Settings.{AdbaseConfig, IniOps}
use aidt.Texts.{codes}
use aidt.App.Options.Said.{SaysKafka}
use aidt.Aims.{producer_configs}

-- The names of librdkafka's settings, each with the option that gives it.
abbrev pub option_of : List (String × String)
option_of =
    ("metadata.broker.list", "brokerListIn")
    ∷ ("debug", "debugIn")
    ∷ ("security.protocol", "securityProtocol")
    ∷ ("sasl.mechanisms", "saslMechanisms")
    ∷ ("sasl.kerberos.service.name", "kerberosServiceName")
    ∷ ("sasl.kerberos.principal", "kerberosPrincipal")
    ∷ ("sasl.kerberos.kinit.cmd", "kerberosCmd")
    ∷ ("sasl.kerberos.keytab", "kerberosKeytab")
    ∷ ("sasl.kerberos.min.time.before.relogin", "kerberosMinTime")
    ∷ ("sasl.username", "saslUsername")
    ∷ ("sasl.password", "saslPassword")
    ∷ []

-- When the ini file has the options of the producer: each setting that the producer is made with is
-- that of its option.
pub producer_configs_lem :
    {Ini : Type 0} (ops : IniOps Ini) (ini : Ini) (v : AdbaseConfig)
    → SaysKafka ops ini v
    → All
        (λ entry.
          find (codes entry.0) (producer_configs v)
          ≡ ops.get_option ini (codes "kafkap_in") (codes entry.1))
        option_of
unfolding producer_configs
producer_configs_lem ops ini v (h0, h1, h2, h3, h4, h5, h6, h7, h8, h9, h10, h11) = (
  sym h0,
  (
    sym h1,
    (sym h3, (sym h4, (sym h5, (sym h6, (sym h7, (sym h8, (sym h9, (sym h10, (sym h11, tt))))))))),
  ),
)
