-- ===== src/Packet/Unsubscribe.antt =====
-- src/protocol/packet/unsubscribe.rs
pub mod Layout
use for_mqtt_client.Base.{ℕ, ◌+◌, ◌<◌, List, [], length, ltb, if◌then◌else◌}
use for_mqtt_client.Protocol.{Protocol, len_len}
use for_mqtt_client.Bytes.{BytesCrate}
use for_mqtt_client.Wire.{write_remaining_length}

pub data Unsubscribe : Type 0 where
  v4 : ℕ → List ℕ → Unsubscribe
  v5 : ℕ → List ℕ → List ℕ → Unsubscribe

unfoldable pub set_packet_id : Unsubscribe → ℕ → Unsubscribe
set_packet_id (v4 id payload) new_packet_id = v4 new_packet_id payload
set_packet_id (v5 id properties filters) new_packet_id = v5 new_packet_id properties filters

unfoldable pub packet_id : Unsubscribe → ℕ
packet_id (v4 id payload) = id
packet_id (v5 id properties filters) = id

-- `remaining_len`
unfoldable pub len : Unsubscribe → ℕ
len (v4 id filters) = length filters + 2
len (v5 id properties filters) =
    2 + len_len (length properties) + length properties + length filters

module _ ⦃b : BytesCrate⦄ where
  -- The buffer, and the number that `write` returns.
  unfoldable pub write : Unsubscribe → List ℕ → List ℕ × ℕ
  write (v4 id filters) buffer =
      let (buffer, remaining_len_bytes) =
        write_remaining_length (b.put_u8 buffer 0xa2) (len (v4 id filters)) in
      (
        b.extend_from_slice (b.put_u16 buffer id) filters,
        1 + remaining_len_bytes + len (v4 id filters),
      )
  write (v5 id properties filters) buffer =
      let (buffer, remaining_len_bytes) =
        write_remaining_length (b.put_u8 buffer 0xa2) (len (v5 id properties filters)) in
      let buffer = (write_remaining_length (b.put_u16 buffer id) (length properties)).0 in
      let buffer =
        if ltb 0 (length properties) then b.extend_from_slice buffer properties else buffer in
      (b.extend_from_slice buffer filters, 1 + len (v5 id properties filters) + remaining_len_bytes)

  -- `data` and `dup_data` of src/traits/packet_dup.rs.
  unfoldable pub data_of : Unsubscribe → List ℕ
  data_of p = (write p []).0
