-- ===== src/Packet/PubCommon.antt =====
-- src/protocol/packet/pubcommon.rs: the four acknowledgements of a publish share one type, over a
-- trait for what tells them apart.
mod Reasons
pub mod Laws
use for_mqtt_client.Base.{
  ℕ, ◌+◌, ◌<◌, ◌≡◌, Bool, true, false, not, ◌&&◌, Option, none, some, List, [], length, ltb, ◌==◌,
  if◌then◌else◌, arith,
}
use for_mqtt_client.Outcome.{ok, err, panic, is_answer, ◌>>=◌}
use for_mqtt_client.Protocol.{
  Protocol, FixedHeader, malformed_remaining_length, len_len, PacketParseError,
}
use for_mqtt_client.Bytes.{BytesCrate}
use for_mqtt_client.Wire.{
  Read, read_u8, read_u16, write_mqtt_bytes, write_mqtt_string, write_remaining_length,
}
use for_mqtt_client.Properties.{Text, Pairs}
use for_mqtt_client.Packet.AckProperties.{AckProperties, read_number}
use Reasons.{
  PubAckReason, PubRecReason, PubRelReason, PubCompReason, pub_ack_reason, pub_rec_reason,
  pub_rel_reason, pub_comp_reason, pub_ack_as_u8, pub_rec_as_u8, pub_rel_as_u8, pub_comp_as_u8,
  pub_ack_is_success, pub_rec_is_success, pub_rel_is_success, pub_comp_is_success,
  pub_ack_reason_answers, pub_rec_reason_answers, pub_rel_reason_answers, pub_comp_reason_answers,
  pub_ack_default, pub_rec_default, pub_rel_default, pub_comp_default,
}
unfoldable pub use Reasons.{pub_ack_reason, pub_rec_reason, pub_rel_reason, pub_comp_reason}

-- The traits `Common` and `Reason`; every implementation's `reason` answers, its default is a success
-- and its first byte is a byte.
pub record Common : Type 1 where
  pub Reason : Type 0
  pub default : Reason
  pub reason : ℕ → Read Reason
  pub ty : ℕ
  pub is_success : Reason → Bool
  pub as_u8 : Reason → ℕ
  pub reason_answers : (n : ℕ) → is_answer (reason n) ≡ true
  pub default_is_success : is_success default ≡ true
  pub ty_is_byte : ty < 256

abbrev pub pub_ack_ty : Common
pub_ack_ty = record {
  Reason = PubAckReason;
  default = PubAckReason.success;
  reason = pub_ack_reason;
  ty = 0x40;
  is_success = pub_ack_is_success;
  as_u8 = pub_ack_as_u8;
  reason_answers = pub_ack_reason_answers;
  default_is_success = pub_ack_default;
  ty_is_byte = omega arith;
}

abbrev pub pub_rec_ty : Common
pub_rec_ty = record {
  Reason = PubRecReason;
  default = PubRecReason.success;
  reason = pub_rec_reason;
  ty = 0x50;
  is_success = pub_rec_is_success;
  as_u8 = pub_rec_as_u8;
  reason_answers = pub_rec_reason_answers;
  default_is_success = pub_rec_default;
  ty_is_byte = omega arith;
}

abbrev pub pub_rel_ty : Common
pub_rel_ty = record {
  Reason = PubRelReason;
  default = PubRelReason.success;
  reason = pub_rel_reason;
  ty = 0x62;
  is_success = pub_rel_is_success;
  as_u8 = pub_rel_as_u8;
  reason_answers = pub_rel_reason_answers;
  default_is_success = pub_rel_default;
  ty_is_byte = omega arith;
}

abbrev pub pub_comp_ty : Common
pub_comp_ty = record {
  Reason = PubCompReason;
  default = PubCompReason.success;
  reason = pub_comp_reason;
  ty = 0x70;
  is_success = pub_comp_is_success;
  as_u8 = pub_comp_as_u8;
  reason_answers = pub_comp_reason_answers;
  default_is_success = pub_comp_default;
  ty_is_byte = omega arith;
}

pub data PubCommon (c : Common) : Type 0 where
  v4 : ℕ → PubCommon c
  v5 : ℕ → c.Reason → Option Text → Pairs → PubCommon c
  v5_write_mode : ℕ → c.Reason → Bool → Bool → List ℕ → PubCommon c

module _ {c : Common} where
  unfoldable pub packet_id : PubCommon c → ℕ
  packet_id (v4 id) = id
  packet_id (v5 id reason reason_string user_properties) = id
  packet_id (v5_write_mode id reason had_reason_string had_user_properties properties) = id

  -- `is_rel` of src/traits/packet_rel.rs.
  unfoldable pub is_rel : PubCommon c → ℕ → Bool
  unfolding packet_id
  is_rel p id = packet_id p == id

  -- `none` stands for `unreachable!()`.
  unfoldable pub len : PubCommon c → Option ℕ
  len (v4 id) = some 2
  len (v5 id reason reason_string user_properties) = none
  len (v5_write_mode id reason had_reason_string had_user_properties properties) = some (
      if c.is_success reason && not had_reason_string && not had_user_properties
      then 2
      else (2 + 1)
        + (if had_reason_string && had_user_properties
            then len_len (length properties) + length properties
            else 0))

unfoldable pub new : (c : Common) → ℕ → Protocol → PubCommon c
new c id Protocol.v4 = v4 id
new c id Protocol.v5 = v5_write_mode id c.default false false []

module _ ⦃b : BytesCrate⦄ where
  -- `none` stands for `bail!`, which leaves the packet as it was.
  unfoldable pub set_reason_string : {c : Common} → PubCommon c → Text → Option (PubCommon c)
  set_reason_string (v4 id) text = none
  set_reason_string (v5 id reason reason_string user_properties) text = none
  set_reason_string (v5_write_mode id reason had_reason_string had_user_properties properties)
        text =
      if had_reason_string
      then none
      else some (
          v5_write_mode id reason had_reason_string had_user_properties
            (write_mqtt_string (b.put_u8 properties 31) text))

  unfoldable pub add_user_property : {c : Common} → PubCommon c → Text → Text → Option (PubCommon c)
  add_user_property (v4 id) key val = none
  add_user_property (v5 id reason reason_string user_properties) key val = none
  add_user_property (v5_write_mode id reason had_reason_string had_user_properties properties) key
        val =
      some (
        v5_write_mode id reason had_reason_string true
          (write_mqtt_string (write_mqtt_string (b.put_u8 properties 38) key) val))

  -- The end of `read` in version 5: the reason is looked up behind the properties.
  unfoldable pub read_reason : (c : Common) → ℕ → ℕ → Option AckProperties → Read (PubCommon c)
  read_reason c id ack_reason none = do reason ← c.reason ack_reason; ok (v5 id reason none [])
  read_reason c id ack_reason (some p) = do
    reason ← c.reason ack_reason
    ok (v5 id reason p.reason_string p.user_properties)

  unfoldable pub read_v5 : (c : Common) → FixedHeader → ℕ → List ℕ → Read (PubCommon c)
  read_v5 c h id bytes =
      let long = do
        (ack_reason, bytes) ← read_u8 bytes
        if ltb h.remaining_len 4
            then read_reason c id ack_reason none
            else (read_number bytes >>= λ (properties, rest).
                read_reason c id ack_reason properties)
      in if h.remaining_len == 2 then ok (v5 id c.default none []) else long

  unfoldable pub read : (c : Common) → FixedHeader → List ℕ → Protocol → Read (PubCommon c)
  read c h bytes Protocol.v4 = do
    bytes ← b.advance h.fixed_header_len bytes
    (id, bytes) ← read_u16 bytes
    if h.remaining_len == 2 then ok (v4 id) else err malformed_remaining_length
  read c h bytes Protocol.v5 = do
    bytes ← b.advance h.fixed_header_len bytes
    (id, bytes) ← read_u16 bytes
    read_v5 c h id bytes

  -- The buffer, and the number that `write` returns.
  unfoldable pub write : {c : Common} → PubCommon c → List ℕ → Read (List ℕ × ℕ)
  write {c} (v4 id) buffer =
      ok (b.put_u16 (write_remaining_length (b.put_u8 buffer c.ty) 2).0 id, 4)
  write (v5 id reason reason_string user_properties) buffer = panic
  write {c} (v5_write_mode id reason had_reason_string had_user_properties properties) buffer =
      let packet : PubCommon c =
        v5_write_mode id reason had_reason_string had_user_properties properties in
      elim (len packet) [
        | none ↦ panic
        | some remaining ↦
            let (buffer, count) = write_remaining_length (b.put_u8 buffer c.ty) remaining in
            let buffer = b.put_u16 buffer id in
            if remaining == 2
            then ok (buffer, 4)
            else ok (
              write_mqtt_bytes (b.put_u8 buffer (c.as_u8 reason)) properties,
              remaining + 1 + count,
            )
      ]

  -- `data`, and `data` and `dup_data` of src/traits/packet_dup.rs.
  unfoldable pub data_of : {c : Common} → PubCommon c → Read (List ℕ)
  data_of p = do (buffer, count) ← write p []; ok buffer
