-- ===== src/Packet/Publish/Reads.antt =====
-- `Publish::read` returns, whatever the packet holds.
use for_mqtt_client.Base.{ℕ, ◌≤◌, ◌≡◌, List, length, length-drop, All, All-drop, true, arith}
use for_mqtt_client.Outcome.{
  is_answer, Returns, returns_ok, returns_err, Returns-bind, Returns-weaken, Returns-of_answer,
}
use for_mqtt_client.Protocol.{
  Protocol, v4, v5, PropertyType, payload_format_indicator, message_expiry_interval, topic_alias,
  response_topic, correlation_data, user_property, subscription_identifier, content_type,
  FixedHeader,
}
use for_mqtt_client.Protocol.Laws.{property-Returns}
use for_mqtt_client.Bytes.{BytesCrate, IsByte}
use for_mqtt_client.Wire.Reading.{
  Leaves, decode_length-Returns, read_mqtt_string-Takes, read_u16-Takes,
}
use for_mqtt_client.Properties.Laws.{
  IsReader, read_properties-Leaves, on_u8-IsReader, on_u16-IsReader, on_u32-IsReader,
  on_bytes-IsReader, on_string-IsReader, on_pair-IsReader,
}
use for_mqtt_client.Packet.Qos.{QoS, qos}
use for_mqtt_client.Packet.Publish
use for_mqtt_client.Packet.Publish.{read_id, read_block}
use for_mqtt_client.Packet.Publish.Properties
use for_mqtt_client.Packet.Publish.Properties.{PublishProperties, on_id, on_property, handle}

qos_answers : (n : ℕ) → is_answer (qos n) ≡ true
unfolding qos
qos_answers n = ground arith

pub qos-Returns : (n : ℕ) → Returns (λ _. Unit {0}) (qos n)
qos-Returns n = Returns-of_answer _ (qos_answers n)

module _ ⦃b : BytesCrate⦄ where
  on_id-IsReader : (put : ℕ → PublishProperties) → IsReader (on_id put)
  unfolding on_id
  on_id-IsReader put s h = Returns-bind (decode_length-Returns s h) λ r t.
      rw (b.advance_law r.0 s t.2)
        (returns_ok (omega (arith, length-drop r.0 s), All-drop IsByte r.0 s h))

  on_property-IsReader :
      (prop : ℕ) (p : PropertyType) (s : PublishProperties) → IsReader (on_property prop p s)
  unfolding on_property
  on_property-IsReader prop payload_format_indicator s = on_u8-IsReader _
  on_property-IsReader prop message_expiry_interval s = on_u32-IsReader _
  on_property-IsReader prop topic_alias s = on_u16-IsReader _
  on_property-IsReader prop response_topic s = on_string-IsReader _
  on_property-IsReader prop correlation_data s = on_bytes-IsReader _
  on_property-IsReader prop user_property s = on_pair-IsReader _
  on_property-IsReader prop subscription_identifier s = on_id-IsReader _
  on_property-IsReader prop content_type s = on_string-IsReader _
  on_property-IsReader prop _ s = λ bytes h. returns_err

  handle-IsReader : (prop : ℕ) (s : PublishProperties) → IsReader (handle prop s)
  unfolding handle
  handle-IsReader prop s bytes h =
      Returns-bind (property-Returns prop) λ p _. on_property-IsReader prop p s bytes h

  read_id-Leaves :
      (q : QoS) (s : List ℕ) → All IsByte s → Returns (λ r. Leaves s 0 r.1) (read_id q s)
  unfolding read_id
  read_id-Leaves QoS.at_most_once s h = returns_ok (omega arith, h)
  read_id-Leaves _ s h =
      Returns-bind (read_u16-Takes s h) λ r t. returns_ok (omega (arith, t.0), t.1)

  read_block-Leaves :
      (v : Protocol) (s : List ℕ) → All IsByte s → Returns (λ r. Leaves s 0 r.1) (read_block v s)
  unfolding read_block
  read_block-Leaves v4 s h = returns_ok (omega arith, h)
  read_block-Leaves v5 s h =
      unfold Properties.read in
      Returns-weaken (λ r t. (omega (arith, t.0), t.1))
        (read_properties-Leaves handle handle-IsReader _ s h)

  pub read-Returns :
      (h : FixedHeader) (s : List ℕ) (v : Protocol)
      → All IsByte s
      → h.fixed_header_len ≤ length s
      → Returns (λ _. Unit {0}) (Publish.read h s v)
  unfolding Publish.read
  read-Returns h s v hb le = Returns-bind (qos-Returns _) λ q _.
      rw (b.advance_law h.fixed_header_len s le) (
        Returns-bind (read_mqtt_string-Takes _ (All-drop IsByte h.fixed_header_len s hb)) λ r t.
          Returns-bind (read_id-Leaves q r.1 t.1)
            λ i u. Returns-bind (read_block-Leaves v i.1 u.1) λ _ _. returns_ok tt)
