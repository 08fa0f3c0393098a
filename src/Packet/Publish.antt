-- ===== src/Packet/Publish.antt =====
-- src/protocol/packet/publish.rs
pub mod Properties
pub mod Blocks
pub mod Reads
pub mod RoundTrip
use for_mqtt_client.Base.{
  ℕ, ◌+◌, ◌*◌, ◌/◌, bit_and, bit_or, Bool, true, false, not, Option, none, some, List, [], length,
  ◌==◌, if◌then◌else◌,
}
use for_mqtt_client.Outcome.{ok, ◌>>=◌}
use for_mqtt_client.Protocol.{Protocol, v4, v5, FixedHeader, len_len}
use for_mqtt_client.Bytes.{BytesCrate}
use for_mqtt_client.Wire.{
  Read, read_u16, read_mqtt_string, write_mqtt_string, write_remaining_length,
}
use for_mqtt_client.Properties.{Text}
use for_mqtt_client.Packet.Qos.{QoS, QoSWithPacketId, qos, qos_number, packet_id}
use Properties.{PublishProperties}

pub record Publish : Type 0 where
  pub protocol : Protocol
  pub dup : Bool
  pub qos : QoSWithPacketId
  pub retain : Bool
  pub topic : Text
  pub payload : List ℕ
  pub properties : Option PublishProperties

unfoldable pub new : Text → QoSWithPacketId → List ℕ → Bool → Protocol → Publish
new topic qos payload retain protocol = record {
  protocol = protocol;
  dup = false;
  qos = qos;
  retain = retain;
  topic = topic;
  payload = payload;
  properties = none;
}

-- `dup as u8`
abbrev pub bool_code : Bool → ℕ
bool_code false = 0
bool_code true = 1

abbrev pub id_len : QoSWithPacketId → ℕ
id_len QoSWithPacketId.at_most_once = 0
id_len (QoSWithPacketId.at_least_once id) = 2
id_len (QoSWithPacketId.exactly_once id) = 2

-- What `Publish::len` adds for the properties, by the protocol.
abbrev pub block_len : Protocol → Option PublishProperties → ℕ
block_len v4 p = 0
block_len v5 none = 1
block_len v5 (some p) = len_len (Properties.len p) + Properties.len p

unfoldable pub len : Publish → ℕ
len p = 2 + length p.topic + length p.payload + id_len p.qos + block_len p.protocol p.properties

module _ ⦃b : BytesCrate⦄ where
  unfoldable pub read_id : QoS → List ℕ → Read (QoSWithPacketId × List ℕ)
  read_id QoS.at_most_once bytes = ok (QoSWithPacketId.at_most_once, bytes)
  read_id QoS.at_least_once bytes = do
    (id, bytes) ← read_u16 bytes
    ok (QoSWithPacketId.at_least_once id, bytes)
  read_id QoS.exactly_once bytes = do
    (id, bytes) ← read_u16 bytes
    ok (QoSWithPacketId.exactly_once id, bytes)

  -- What is left of the packet behind the properties is the payload.
  unfoldable pub read_block : Protocol → List ℕ → Read (Option PublishProperties × List ℕ)
  read_block v4 bytes = ok (none, bytes)
  read_block v5 bytes = Properties.read bytes

  unfoldable pub read : FixedHeader → List ℕ → Protocol → Read Publish
  read fixed_header bytes protocol = do
    q ← qos (bit_and fixed_header.byte1 0b0110 / 2)
    let dup = not (bit_and fixed_header.byte1 0b1000 == 0)
    let retain = not (bit_and fixed_header.byte1 0b0001 == 0)
    bytes ← b.advance fixed_header.fixed_header_len bytes
    (topic, bytes) ← read_mqtt_string bytes
    (q, bytes) ← read_id q bytes
    (properties, payload) ← read_block protocol bytes
    ok (record {
      protocol = protocol;
      dup = dup;
      qos = q;
      retain = retain;
      topic = topic;
      payload = payload;
      properties = properties;
    })

  unfoldable pub write_id : Option ℕ → List ℕ → List ℕ
  write_id none buffer = buffer
  write_id (some pkid) buffer = b.put_u16 buffer pkid

  unfoldable pub write_block : Protocol → Option PublishProperties → List ℕ → List ℕ
  write_block v4 p buffer = buffer
  write_block v5 none buffer = (write_remaining_length buffer 0).0
  write_block v5 (some p) buffer = Properties.write p buffer

  abbrev pub first_byte : Publish → ℕ
  first_byte p =
      bit_or (bit_or (bit_or 0b0011_0000 (bool_code p.retain)) (qos_number p.qos * 2))
        (bool_code p.dup * 8)

  -- The buffer, and the number that `write` returns.
  unfoldable pub write : Publish → List ℕ → List ℕ × ℕ
  write p buffer =
      let (buffer, count) = write_remaining_length (b.put_u8 buffer (first_byte p)) (len p) in
      let buffer = write_id (packet_id p.qos) (write_mqtt_string buffer p.topic) in
      (
        b.extend_from_slice (write_block p.protocol p.properties buffer) p.payload,
        1 + count + len p,
      )
