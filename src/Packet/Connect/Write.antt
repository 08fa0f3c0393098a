-- ===== src/Packet/Connect/Write.antt =====
-- `Connect` of src/protocol/packet/connect.rs, and its `write`.
use for_mqtt_client.Base.{
  ℕ, zero, suc, ◌+◌, Bool, Option, none, some, List, [], ◌∷◌, length, bit_or, if◌then◌else◌,
}
use for_mqtt_client.Outcome.{ok, panic, ◌>>=◌}
use for_mqtt_client.Protocol.{Protocol, v4, v5, len_len}
use for_mqtt_client.Bytes.{BytesCrate}
use for_mqtt_client.Wire.{Read, write_mqtt_string, write_remaining_length}
use for_mqtt_client.Properties.{Text}
use for_mqtt_client.Packet.Connect.Login
use for_mqtt_client.Packet.Connect.Login.{Login}
use for_mqtt_client.Packet.Connect.Will
use for_mqtt_client.Packet.Connect.Will.{LastWill}
use for_mqtt_client.Packet.Connect.WillProperties.{LastWillProperties}
use for_mqtt_client.Packet.Connect.Properties
use for_mqtt_client.Packet.Connect.Properties.{ConnectProperties}
use for_mqtt_client.Options.{MqttOptions}

pub record Connect : Type 0 where
  pub protocol : Protocol
  pub keep_alive : ℕ
  pub client_id : Text
  pub clean_session : Bool
  pub last_will : Option LastWill
  pub login : Option Login
  pub will_properties : Option LastWillProperties
  pub connect_properties : Option ConnectProperties

abbrev pub block_len : Protocol → Option ConnectProperties → ℕ
block_len v4 p = 0
block_len v5 (some p) = len_len (Properties.len p) + Properties.len p
block_len v5 none = 1

abbrev pub will_len : Option LastWill → ℕ
will_len none = 0
will_len (some w) = Will.len w

abbrev pub login_len : Option Login → ℕ
login_len none = 0
login_len (some l) = Login.len l

-- The value of the block that `write` begins with.
unfoldable pub len : Connect → ℕ
len c =
    2
    + 4
    + 1
    + 1
    + 2
    + block_len c.protocol c.connect_properties
    + (2 + length c.client_id)
    + will_len c.last_will
    + login_len c.login

-- "MQTT"
abbrev pub protocol_name : Text
protocol_name = 0x4D ∷ 0x51 ∷ 0x54 ∷ 0x54 ∷ []

-- `buffer[index] = v`
unfoldable pub store : List ℕ → ℕ → ℕ → Read (List ℕ)
store [] i v = panic
store (x ∷ xs) zero v = ok (v ∷ xs)
store (x ∷ xs) (suc i) v = do xs ← store xs i v; ok (x ∷ xs)

module _ ⦃b : BytesCrate⦄ where
  abbrev pub write_block : Option ConnectProperties → List ℕ → List ℕ
  write_block (some p) buffer = Properties.write p buffer
  write_block none buffer = (write_remaining_length buffer 0).0

  -- The `match self.protocol` of `write`.
  abbrev pub write_version : Connect → Protocol → ℕ → List ℕ → List ℕ
  write_version c v4 connect_flags buffer =
      b.put_u16 (b.put_u8 (b.put_u8 buffer 0x04) connect_flags) c.keep_alive
  write_version c v5 connect_flags buffer =
      write_block c.connect_properties
        (b.put_u16 (b.put_u8 (b.put_u8 buffer 0x05) connect_flags) c.keep_alive)

  abbrev pub write_will : Option LastWill → ℕ × List ℕ → ℕ × List ℕ
  write_will none (connect_flags, buffer) = (connect_flags, buffer)
  write_will (some w) (connect_flags, buffer) =
      (bit_or connect_flags (Will.write w buffer).0, (Will.write w buffer).1)

  abbrev pub write_login : Option Login → ℕ × List ℕ → ℕ × List ℕ
  write_login none (connect_flags, buffer) = (connect_flags, buffer)
  write_login (some l) (connect_flags, buffer) =
      (bit_or connect_flags (Login.write l buffer).0, (Login.write l buffer).1)

  abbrev pub clean_flag : Bool → ℕ
  clean_flag clean_session = if clean_session then 0x02 else 0

  -- The buffer, and the number that `write` returns.
  unfoldable pub write : Connect → List ℕ → Read (List ℕ × ℕ)
  write c buffer = do
    let (buffer, count) = write_remaining_length (b.put_u8 buffer 0b0001_0000) (len c)
    let buffer = write_mqtt_string buffer protocol_name
    let flags_index = 1 + count + 2 + 4 + 1
    let buffer = write_version c c.protocol (clean_flag c.clean_session) buffer
    let buffer = write_mqtt_string buffer c.client_id
    let (connect_flags, buffer) =
        write_login c.login (write_will c.last_will (clean_flag c.clean_session, buffer))
    buffer ← store buffer flags_index connect_flags
    ok (buffer, len c)

  abbrev pub login_of : Option (Text × Text) → Option Login
  login_of none = none
  login_of (some (user, password)) = some (record { username = user; password = password })

  abbrev pub packet_of : MqttOptions → Protocol → Connect
  packet_of option protocol = record {
    protocol = protocol;
    keep_alive = option.keep_alive;
    client_id = option.client_id;
    clean_session = option.clean_session;
    last_will = option.last_will;
    login = login_of option.credentials;
    will_properties = none;
    connect_properties = none;
  }

  -- `Connect::new`: the bytes of the packet.
  unfoldable pub new : MqttOptions → Protocol → Read (List ℕ)
  new option protocol = do (buffer, count) ← write (packet_of option protocol) []; ok buffer
