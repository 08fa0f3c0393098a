-- ===== src/Packet/Subscribe.antt =====
-- src/protocol/packet/subscribe.rs
pub mod Layout
use for_mqtt_client.Base.{ℕ, ◌+◌, ◌<◌, bit_or, List, [], length, ltb, if◌then◌else◌}
use for_mqtt_client.Protocol.{Protocol, len_len}
use for_mqtt_client.Bytes.{BytesCrate}
use for_mqtt_client.Wire.{write_remaining_length}

pub data Subscribe : Type 0 where
  v4 : ℕ → List ℕ → Subscribe
  v5 : ℕ → List ℕ → List ℕ → Subscribe

unfoldable pub set_packet_id : Subscribe → ℕ → Subscribe
set_packet_id (v4 id payload) new_packet_id = v4 new_packet_id payload
set_packet_id (v5 id properties filters) new_packet_id = v5 new_packet_id properties filters

unfoldable pub packet_id : Subscribe → ℕ
packet_id (v4 id payload) = id
packet_id (v5 id properties filters) = id

-- `remaining_len`
unfoldable pub len : Subscribe → ℕ
len (v4 id filters) = length filters + 2
len (v5 id properties filters) =
    2 + len_len (length properties) + length properties + length filters

module _ ⦃b : BytesCrate⦄ where
  -- The buffer, and the number that `write` returns.
  unfoldable pub write : Subscribe → List ℕ → List ℕ × ℕ
  write (v4 id filters) buffer =
      let (buffer, remaining_len_bytes) =
        write_remaining_length (b.put_u8 buffer 0x82) (len (v4 id filters)) in
      (
        b.extend_from_slice (b.put_u16 buffer id) filters,
        1 + remaining_len_bytes + len (v4 id filters),
      )
  write (v5 id properties filters) buffer =
      let (buffer, remaining_len_bytes) =
        write_remaining_length (b.put_u8 buffer 0x82) (len (v5 id properties filters)) in
      let buffer = (write_remaining_length (b.put_u16 buffer id) (length properties)).0 in
      let buffer =
        if ltb 0 (length properties) then b.extend_from_slice buffer properties else buffer in
      (b.extend_from_slice buffer filters, 1 + len (v5 id properties filters) + remaining_len_bytes)

  -- `data` and `dup_data` of src/traits/packet_dup.rs.
  unfoldable pub data_of : Subscribe → List ℕ
  data_of p = (write p []).0

pub data RetainForwardRule : Type 0 where
  on_every_subscribe on_new_subscribe never : RetainForwardRule

unfoldable pub merge_to_u8 : RetainForwardRule → ℕ → ℕ
merge_to_u8 on_every_subscribe val = val
merge_to_u8 on_new_subscribe val = bit_or val 16
merge_to_u8 never val = bit_or val 32
