-- ===== src/Packet/Connect/WillProperties.antt =====
-- src/protocol/packet/connect/willproperties.rs
use for_mqtt_client.Base.{ℕ, ◌+◌, List, [], ◌∷◌, ◌++◌, Option, none, some}
use for_mqtt_client.Outcome.{err, ◌>>=◌}
use for_mqtt_client.Protocol.{
  PropertyType, property, invalid_property_type, will_delay_interval, payload_format_indicator,
  message_expiry_interval, content_type, response_topic, correlation_data, user_property,
}
use for_mqtt_client.Bytes.{BytesCrate}
use for_mqtt_client.Wire.{Read, write_remaining_length}
use for_mqtt_client.Properties.{
  Text, Pairs, Handle, read_properties, on_u8, on_u32, on_bytes, on_string, on_pair, write_u8,
  write_u32, write_bytes, write_string, write_pairs, fixed_len, string_len, pairs_len,
}

pub record LastWillProperties : Type 0 where
  pub delay_interval : Option ℕ
  pub payload_format_indicator : Option ℕ
  pub message_expiry_interval : Option ℕ
  pub content_type : Option Text
  pub response_topic : Option Text
  pub correlation_data : Option (List ℕ)
  pub user_properties : Pairs

abbrev pub empty : LastWillProperties
empty = record {
  delay_interval = none;
  payload_format_indicator = none;
  message_expiry_interval = none;
  content_type = none;
  response_topic = none;
  correlation_data = none;
  user_properties = [];
}

unfoldable pub len : LastWillProperties → ℕ
len p =
    fixed_len 4 p.delay_interval
    + fixed_len 1 p.payload_format_indicator
    + fixed_len 4 p.message_expiry_interval
    + string_len p.content_type
    + string_len p.response_topic
    + string_len p.correlation_data
    + pairs_len p.user_properties

module _ ⦃b : BytesCrate⦄ where
  unfoldable pub on_property :
      ℕ → PropertyType → LastWillProperties → List ℕ → Read (LastWillProperties × ℕ × List ℕ)
  on_property prop will_delay_interval s bytes =
      on_u32 (λ v. record s { delay_interval = some v }) bytes
  on_property prop payload_format_indicator s bytes =
      on_u8 (λ v. record s { payload_format_indicator = some v }) bytes
  on_property prop message_expiry_interval s bytes =
      on_u32 (λ v. record s { message_expiry_interval = some v }) bytes
  on_property prop content_type s bytes = on_string (λ v. record s { content_type = some v }) bytes
  on_property prop response_topic s bytes =
      on_string (λ v. record s { response_topic = some v }) bytes
  on_property prop correlation_data s bytes =
      on_bytes (λ v. record s { correlation_data = some v }) bytes
  on_property prop user_property s bytes =
      on_pair (λ v. record s { user_properties = s.user_properties ++ (v ∷ []) }) bytes
  on_property prop _ s bytes = err (invalid_property_type prop)

  unfoldable pub handle : Handle LastWillProperties
  handle prop s bytes = do p ← property prop; on_property prop p s bytes

  unfoldable pub read : List ℕ → Read (Option LastWillProperties × List ℕ)
  read bytes = read_properties handle empty bytes

  unfoldable pub write : LastWillProperties → List ℕ → List ℕ
  write p buffer =
      let buffer = (write_remaining_length buffer (len p)).0 in
      let buffer = write_u32 will_delay_interval p.delay_interval buffer in
      let buffer = write_u8 payload_format_indicator p.payload_format_indicator buffer in
      let buffer = write_u32 message_expiry_interval p.message_expiry_interval buffer in
      let buffer = write_string content_type p.content_type buffer in
      let buffer = write_string response_topic p.response_topic buffer in
      let buffer = write_bytes correlation_data p.correlation_data buffer in
      write_pairs p.user_properties buffer
