-- ===== src/Options.antt =====
-- `MqttOptions` of src/protocol/mod.rs, with the crate's default feature `tls`.
use for_mqtt_client.Base.{
  ℕ, ◌*◌, Bool, true, false, Option, none, some, [], ◌∷◌, ltb, ◌==◌, if◌then◌else◌,
}
use for_mqtt_client.Properties.{Text}
use for_mqtt_client.Packet.Connect.Will.{LastWill}
use for_mqtt_client.Tls.{TlsConfig}

pub data NetworkProtocol : Type 0 where
  tcp : NetworkProtocol
  tls : TlsConfig → NetworkProtocol

pub record MqttOptions : Type 0 where
  pub broker_addr : Text
  pub port : ℕ
  pub keep_alive : ℕ
  pub clean_session : Bool
  pub client_id : Text
  pub credentials : Option (Text × Text)
  pub max_incoming_packet_size : ℕ
  pub max_outgoing_packet_size : ℕ
  pub last_will : Option LastWill
  pub auto_reconnect : Bool
  pub network_protocol : NetworkProtocol

-- `id.starts_with(' ') || id.is_empty()`
abbrev pub is_bad_id : Text → Bool
is_bad_id [] = true
is_bad_id (c ∷ id) = c == 0x20

-- `none` stands for `bail!`.
unfoldable pub new : Text → Text → ℕ → Option MqttOptions
new id host port =
    if is_bad_id id
    then none
    else some (record {
      broker_addr = host;
      port = port;
      keep_alive = 60;
      clean_session = true;
      client_id = id;
      credentials = none;
      max_incoming_packet_size = 10 * 1024;
      max_outgoing_packet_size = 10 * 1024;
      last_will = none;
      auto_reconnect = false;
      network_protocol = tcp;
    })

unfoldable pub set_clean_session : MqttOptions → Bool → MqttOptions
set_clean_session o clean_session = record o { clean_session = clean_session }

unfoldable pub set_auto_reconnect : MqttOptions → MqttOptions
unfolding set_clean_session
set_auto_reconnect o = set_clean_session (record o { auto_reconnect = true }) false

unfoldable pub set_last_will : MqttOptions → LastWill → MqttOptions
set_last_will o will = record o { last_will = some will }

-- `none` stands for the failed `assert!`.
unfoldable pub set_keep_alive : MqttOptions → ℕ → Option MqttOptions
set_keep_alive o duration =
    if ltb duration 5 then none else some (record o { keep_alive = duration })

unfoldable pub set_max_packet_size : MqttOptions → ℕ → ℕ → MqttOptions
set_max_packet_size o incoming outgoing = record o {
  max_incoming_packet_size = incoming;
  max_outgoing_packet_size = outgoing;
}

unfoldable pub set_credentials : MqttOptions → Text → Text → MqttOptions
set_credentials o username password = record o { credentials = some (username, password) }

unfoldable pub set_tls : MqttOptions → TlsConfig → MqttOptions
set_tls o config = record o { network_protocol = tls config }
