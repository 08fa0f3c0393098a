-- ===== src/Packet/UnsubAck.antt =====
-- src/protocol/packet/unsuback.rs
use for_mqtt_client.Base.{
  ℕ, suc, List, [], ◌≤◌, ◌≡◌, true, Option, length, ◌==◌, if◌then◌else◌, Bool, All, All-drop, arith,
  Bool-cases, inl, inr,
}
use for_mqtt_client.Outcome.{
  ok, err, ◌>>=◌, is_answer, Returns, returns_ok, returns_err, Returns-bind, Returns-of_answer,
}
use for_mqtt_client.Protocol.{
  Protocol, FixedHeader, malformed_packet, invalid_subscribe_reason_code,
}
use for_mqtt_client.Bytes.{BytesCrate, IsByte}
use for_mqtt_client.Wire.{Read, read_u16}
use for_mqtt_client.Wire.Reading.{read_u16-Takes}
use for_mqtt_client.Properties.Laws.{read_properties-Leaves}
use for_mqtt_client.Packet.AckProperties
use for_mqtt_client.Packet.AckProperties.{AckProperties, handle, handle-IsReader}
use for_mqtt_client.Packet.ReturnCodes.{read_codes, read_codes-Returns}

pub data UnsubAckReason : Type 0 where
  success no_subscription_existed unspecified_error : UnsubAckReason
  implementation_specific_error not_authorized topic_filter_invalid : UnsubAckReason
  packet_identifier_in_use : UnsubAckReason

pub data UnsubAck : Type 0 where
  v4 : ℕ → UnsubAck
  v5_read_mode : ℕ → Option AckProperties → List UnsubAckReason → UnsubAck

unfoldable pub packet_id : UnsubAck → ℕ
packet_id (v4 id) = id
packet_id (v5_read_mode id properties codes) = id

-- `is_rel` of src/traits/packet_rel.rs.
unfoldable pub is_rel : UnsubAck → ℕ → Bool
unfolding packet_id
is_rel p id = packet_id p == id

unfoldable pub reason_for_v5 : ℕ → Read UnsubAckReason
reason_for_v5 num =
    if num == 0x00
    then ok UnsubAckReason.success
    else if num == 0x11
    then ok UnsubAckReason.no_subscription_existed
    else if num == 0x80
    then ok UnsubAckReason.unspecified_error
    else if num == 0x83
    then ok UnsubAckReason.implementation_specific_error
    else if num == 0x87
    then ok UnsubAckReason.not_authorized
    else if num == 0x8F
    then ok UnsubAckReason.topic_filter_invalid
    else if num == 0x91
    then ok UnsubAckReason.packet_identifier_in_use
    else err (invalid_subscribe_reason_code num)

v5_answers : (n : ℕ) → is_answer (reason_for_v5 n) ≡ true
unfolding reason_for_v5
v5_answers n = ground arith

module _ ⦃b : BytesCrate⦄ where
  unfoldable pub read : FixedHeader → List ℕ → Protocol → Read UnsubAck
  read h bytes Protocol.v4 = do
    bytes ← b.advance h.fixed_header_len bytes
    (id, bytes) ← read_u16 bytes
    ok (v4 id)
  read h bytes Protocol.v5 = do
    bytes ← b.advance h.fixed_header_len bytes
    (id, bytes) ← read_u16 bytes
    (properties, bytes) ← AckProperties.read bytes
    codes ←
        if length bytes == 0
        then err malformed_packet
        else read_codes reason_for_v5 (suc (length bytes)) [] bytes
    ok (v5_read_mode id properties codes)

  pub read-Returns :
      (h : FixedHeader) (s : List ℕ) (v : Protocol)
      → All IsByte s
      → h.fixed_header_len ≤ length s
      → Returns (λ _. Unit {0}) (read h s v)
  unfolding read AckProperties.read
  read-Returns h s Protocol.v4 hb le = rw (b.advance_law h.fixed_header_len s le) (
      Returns-bind (read_u16-Takes _ (All-drop IsByte h.fixed_header_len s hb))
        λ _ _. returns_ok tt)
  read-Returns h s Protocol.v5 hb le = rw (b.advance_law h.fixed_header_len s le) (
      Returns-bind (read_u16-Takes _ (All-drop IsByte h.fixed_header_len s hb)) λ r t.
        Returns-bind (read_properties-Leaves handle handle-IsReader AckProperties.empty r.1 t.1)
          λ q u. elim (Bool-cases (length q.1 == 0)) [
            | inl e ↦ rw e returns_err
            | inr e ↦ rw e (
                Returns-bind
                  (read_codes-Returns reason_for_v5 (λ n. Returns-of_answer _ (v5_answers n)) _ []
                    q.1 (omega arith) u.1)
                  λ _ _. returns_ok tt)
          ])
