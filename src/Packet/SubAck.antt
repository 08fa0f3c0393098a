-- ===== src/Packet/SubAck.antt =====
-- src/protocol/packet/suback.rs
use for_mqtt_client.Base.{
  ℕ, suc, List, [], ◌≤◌, ◌≡◌, true, Option, length, ◌==◌, if◌then◌else◌, Bool, All, All-drop, arith,
  Bool-cases, inl, inr,
}
use for_mqtt_client.Outcome.{
  ok, err, ◌>>=◌, is_answer, Returns, returns_ok, returns_err, Returns-bind, Returns-of_answer,
}
use for_mqtt_client.Protocol.{
  Protocol, FixedHeader, malformed_packet, invalid_subscribe_reason_code,
}
use for_mqtt_client.Bytes.{BytesCrate, IsByte}
use for_mqtt_client.Wire.{Read, read_u16}
use for_mqtt_client.Wire.Reading.{read_u16-Takes}
use for_mqtt_client.Properties.Laws.{read_properties-Leaves}
use for_mqtt_client.Packet.AckProperties
use for_mqtt_client.Packet.AckProperties.{AckProperties, handle, handle-IsReader}
use for_mqtt_client.Packet.ReturnCodes.{read_codes, read_codes-Returns}

pub data SubscribeReasonCode : Type 0 where
  qos0 qos1 qos2 failure unspecified implementation_specific : SubscribeReasonCode
  not_authorized topic_filter_invalid pkid_in_use quota_exceeded : SubscribeReasonCode
  shared_subscriptions_not_supported subscription_id_not_supported : SubscribeReasonCode
  wildcard_subscriptions_not_supported : SubscribeReasonCode

pub data SubAck : Type 0 where
  v4 : ℕ → List SubscribeReasonCode → SubAck
  v5_read_mode : ℕ → Option AckProperties → List SubscribeReasonCode → SubAck

unfoldable pub packet_id : SubAck → ℕ
packet_id (v4 id codes) = id
packet_id (v5_read_mode id properties codes) = id

-- `is_rel` of src/traits/packet_rel.rs.
unfoldable pub is_rel : SubAck → ℕ → Bool
unfolding packet_id
is_rel p id = packet_id p == id

unfoldable pub return_codes : SubAck → List SubscribeReasonCode
return_codes (v4 id codes) = codes
return_codes (v5_read_mode id properties codes) = codes

unfoldable pub reason_for_v5 : ℕ → Read SubscribeReasonCode
reason_for_v5 num =
    if num == 0
    then ok SubscribeReasonCode.qos0
    else if num == 1
    then ok SubscribeReasonCode.qos1
    else if num == 2
    then ok SubscribeReasonCode.qos2
    else if num == 128
    then ok SubscribeReasonCode.unspecified
    else if num == 131
    then ok SubscribeReasonCode.implementation_specific
    else if num == 135
    then ok SubscribeReasonCode.not_authorized
    else if num == 143
    then ok SubscribeReasonCode.topic_filter_invalid
    else if num == 145
    then ok SubscribeReasonCode.pkid_in_use
    else if num == 151
    then ok SubscribeReasonCode.quota_exceeded
    else if num == 158
    then ok SubscribeReasonCode.shared_subscriptions_not_supported
    else if num == 161
    then ok SubscribeReasonCode.subscription_id_not_supported
    else if num == 162
    then ok SubscribeReasonCode.wildcard_subscriptions_not_supported
    else err (invalid_subscribe_reason_code num)

unfoldable pub reason_for_v4 : ℕ → Read SubscribeReasonCode
reason_for_v4 num =
    if num == 0
    then ok SubscribeReasonCode.qos0
    else if num == 1
    then ok SubscribeReasonCode.qos1
    else if num == 2
    then ok SubscribeReasonCode.qos2
    else if num == 128
    then ok SubscribeReasonCode.unspecified
    else err (invalid_subscribe_reason_code num)

v5_answers : (n : ℕ) → is_answer (reason_for_v5 n) ≡ true
unfolding reason_for_v5
v5_answers n = ground arith

v4_answers : (n : ℕ) → is_answer (reason_for_v4 n) ≡ true
unfolding reason_for_v4
v4_answers n = ground arith

module _ ⦃b : BytesCrate⦄ where
  unfoldable pub read : FixedHeader → List ℕ → Protocol → Read SubAck
  read h bytes Protocol.v4 = do
    bytes ← b.advance h.fixed_header_len bytes
    (id, bytes) ← read_u16 bytes
    codes ←
        if length bytes == 0
        then err malformed_packet
        else read_codes reason_for_v4 (suc (length bytes)) [] bytes
    ok (v4 id codes)
  read h bytes Protocol.v5 = do
    bytes ← b.advance h.fixed_header_len bytes
    (id, bytes) ← read_u16 bytes
    (properties, bytes) ← AckProperties.read bytes
    codes ←
        if length bytes == 0
        then err malformed_packet
        else read_codes reason_for_v5 (suc (length bytes)) [] bytes
    ok (v5_read_mode id properties codes)

  codes-Returns :
      (reason : ℕ → Read SubscribeReasonCode)
      → ((n : ℕ) → is_answer (reason n) ≡ true)
      → (bytes : List ℕ) → All IsByte bytes
      → Returns
          (λ _. Unit {0})
          (if length bytes == 0
            then err malformed_packet
            else read_codes reason (suc (length bytes)) [] bytes)
  codes-Returns reason h bytes hb = elim (Bool-cases (length bytes == 0)) [
    | inl e ↦ rw e returns_err
    | inr e ↦
        rw e
          (read_codes-Returns reason (λ n. Returns-of_answer _ (h n)) _ [] bytes (omega arith) hb)
  ]

  pub read-Returns :
      (h : FixedHeader) (s : List ℕ) (v : Protocol)
      → All IsByte s
      → h.fixed_header_len ≤ length s
      → Returns (λ _. Unit {0}) (read h s v)
  unfolding read AckProperties.read
  read-Returns h s Protocol.v4 hb le = rw (b.advance_law h.fixed_header_len s le) (
      Returns-bind (read_u16-Takes _ (All-drop IsByte h.fixed_header_len s hb))
        λ r t. Returns-bind (codes-Returns reason_for_v4 v4_answers r.1 t.1) λ _ _. returns_ok tt)
  read-Returns h s Protocol.v5 hb le = rw (b.advance_law h.fixed_header_len s le) (
      Returns-bind (read_u16-Takes _ (All-drop IsByte h.fixed_header_len s hb)) λ r t.
        Returns-bind (read_properties-Leaves handle handle-IsReader AckProperties.empty r.1 t.1)
          λ q u. Returns-bind (codes-Returns reason_for_v5 v5_answers q.1 u.1) λ _ _. returns_ok tt)
