-- ===== src/Packet/Connect/Will.antt =====
-- src/protocol/packet/connect/will.rs
use for_mqtt_client.Base.{
  ℕ, ◌+◌, ◌*◌, ◌/◌, Bool, not, Option, none, some, List, length, bit_and, bit_or, ◌==◌,
  if◌then◌else◌,
}
use for_mqtt_client.Outcome.{ok, err, ◌>>=◌}
use for_mqtt_client.Protocol.{incorrect_packet_format, len_len}
use for_mqtt_client.Bytes.{BytesCrate}
use for_mqtt_client.Wire.{
  Read, read_mqtt_bytes, read_mqtt_string, write_mqtt_bytes, write_mqtt_string,
  write_remaining_length,
}
use for_mqtt_client.Properties.{Text}
use for_mqtt_client.Packet.Qos.{QoS, qos, qos_code}
use for_mqtt_client.Packet.Connect.WillProperties
use for_mqtt_client.Packet.Connect.WillProperties.{LastWillProperties}

pub record LastWill : Type 0 where
  pub topic : Text
  pub message : List ℕ
  pub qos : QoS
  pub retain : Bool
  pub properties : Option LastWillProperties

unfoldable pub new : Text → List ℕ → QoS → Bool → LastWill
new topic payload qos retain = record {
  topic = topic;
  message = payload;
  qos = qos;
  retain = retain;
  properties = none;
}

abbrev pub block_len : Option LastWillProperties → ℕ
block_len (some p) = len_len (WillProperties.len p) + WillProperties.len p
block_len none = 1

unfoldable pub len : LastWill → ℕ
len w = block_len w.properties + 2 + length w.topic + 2 + length w.message

module _ ⦃b : BytesCrate⦄ where
  -- The case of `read` where the will flag is set.
  unfoldable pub read_will : ℕ → List ℕ → Read (Option LastWill × List ℕ)
  read_will connect_flags bytes = do
    (properties, bytes) ← WillProperties.read bytes
    (topic, bytes) ← read_mqtt_string bytes
    (message, bytes) ← read_mqtt_bytes bytes
    q ← qos (bit_and connect_flags 0b11000 / 8)
    ok (
      some (record {
        topic = topic;
        message = message;
        qos = q;
        retain = not (bit_and connect_flags 0b0010_0000 == 0);
        properties = properties;
      }),
      bytes,
    )

  unfoldable pub read : ℕ → List ℕ → Read (Option LastWill × List ℕ)
  read connect_flags bytes =
      if bit_and connect_flags 0b100 == 0
      then (if not (bit_and connect_flags 0b0011_1000 == 0)
          then err incorrect_packet_format
          else ok (none, bytes))
      else read_will connect_flags bytes

  abbrev pub write_block : Option LastWillProperties → List ℕ → List ℕ
  write_block (some p) buffer = WillProperties.write p buffer
  write_block none buffer = (write_remaining_length buffer 0).0

  abbrev pub flags : LastWill → ℕ
  flags w =
      let connect_flags = bit_or 0x04 (qos_code w.qos * 8) in
      if w.retain then bit_or connect_flags 0x20 else connect_flags

  -- The flags that `write` returns, and the buffer.
  unfoldable pub write : LastWill → List ℕ → ℕ × List ℕ
  write w buffer = (
    flags w,
    write_mqtt_bytes (write_mqtt_string (write_block w.properties buffer) w.topic) w.message,
  )
