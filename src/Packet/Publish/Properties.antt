-- ===== src/Packet/Publish/Properties.antt =====
-- `PublishProperties` of src/protocol/packet/publish.rs.
use for_mqtt_client.Base.{ℕ, ◌+◌, Option, none, some, List, [], ◌∷◌, ◌++◌}
use for_mqtt_client.Outcome.{ok, err, ◌>>=◌, map_err}
use for_mqtt_client.Protocol.{
  PropertyType, payload_format_indicator, message_expiry_interval, topic_alias, response_topic,
  correlation_data, user_property, subscription_identifier, content_type, property_code, property,
  invalid_property_type, from_header_error, len_len,
}
use for_mqtt_client.Bytes.{BytesCrate}
use for_mqtt_client.Wire.{Read, decode_length, write_remaining_length}
use for_mqtt_client.Properties.{
  Text, Pairs, Handle, read_properties, on_u8, on_u16, on_u32, on_bytes, on_string, on_pair,
  write_u8, write_u16, write_u32, write_bytes, write_string, write_pairs, fixed_len, string_len,
  pairs_len,
}

pub record PublishProperties : Type 0 where
  pub payload_format_indicator : Option ℕ
  pub message_expiry_interval : Option ℕ
  pub topic_alias : Option ℕ
  pub response_topic : Option Text
  pub correlation_data : Option (List ℕ)
  pub user_properties : Pairs
  pub subscription_identifiers : List ℕ
  pub content_type : Option Text

abbrev pub empty : PublishProperties
empty = record {
  payload_format_indicator = none;
  message_expiry_interval = none;
  topic_alias = none;
  response_topic = none;
  correlation_data = none;
  user_properties = [];
  subscription_identifiers = [];
  content_type = none;
}

abbrev pub ids_len : List ℕ → ℕ
ids_len [] = 0
ids_len (id ∷ ids) = 1 + len_len id + ids_len ids

unfoldable pub len : PublishProperties → ℕ
len p =
    fixed_len 1 p.payload_format_indicator
    + fixed_len 4 p.message_expiry_interval
    + fixed_len 2 p.topic_alias
    + string_len p.response_topic
    + string_len p.correlation_data
    + pairs_len p.user_properties
    + ids_len p.subscription_identifiers
    + string_len p.content_type

module _ ⦃b : BytesCrate⦄ where
  -- `length`, the cursor by `1 + id_len`, and `advance`.
  unfoldable pub on_id : (ℕ → PublishProperties) → List ℕ → Read (PublishProperties × ℕ × List ℕ)
  on_id put bytes = do
    (id_len, id) ← map_err from_header_error (decode_length bytes)
    bytes ← b.advance id_len bytes
    ok (put id, 1 + id_len, bytes)

  unfoldable pub on_property :
      ℕ → PropertyType → PublishProperties → List ℕ → Read (PublishProperties × ℕ × List ℕ)
  on_property prop payload_format_indicator s bytes =
      on_u8 (λ v. record s { payload_format_indicator = some v }) bytes
  on_property prop message_expiry_interval s bytes =
      on_u32 (λ v. record s { message_expiry_interval = some v }) bytes
  on_property prop topic_alias s bytes = on_u16 (λ v. record s { topic_alias = some v }) bytes
  on_property prop response_topic s bytes =
      on_string (λ v. record s { response_topic = some v }) bytes
  on_property prop correlation_data s bytes =
      on_bytes (λ v. record s { correlation_data = some v }) bytes
  on_property prop user_property s bytes =
      on_pair (λ v. record s { user_properties = s.user_properties ++ (v ∷ []) }) bytes
  on_property prop subscription_identifier s bytes =
      on_id (λ v. record s { subscription_identifiers = s.subscription_identifiers ++ (v ∷ []) })
        bytes
  on_property prop content_type s bytes = on_string (λ v. record s { content_type = some v }) bytes
  on_property prop _ s bytes = err (invalid_property_type prop)

  unfoldable pub handle : Handle PublishProperties
  handle prop s bytes = do p ← property prop; on_property prop p s bytes

  unfoldable pub read : List ℕ → Read (Option PublishProperties × List ℕ)
  read bytes = read_properties handle empty bytes

  unfoldable pub write_ids : List ℕ → List ℕ → List ℕ
  write_ids [] buffer = buffer
  write_ids (id ∷ ids) buffer =
      write_ids ids
        (write_remaining_length (b.put_u8 buffer (property_code subscription_identifier)) id).0

  unfoldable pub write : PublishProperties → List ℕ → List ℕ
  write p buffer =
      let buffer = (write_remaining_length buffer (len p)).0 in
      let buffer = write_u8 payload_format_indicator p.payload_format_indicator buffer in
      let buffer = write_u32 message_expiry_interval p.message_expiry_interval buffer in
      let buffer = write_u16 topic_alias p.topic_alias buffer in
      let buffer = write_string response_topic p.response_topic buffer in
      let buffer = write_bytes correlation_data p.correlation_data buffer in
      let buffer = write_pairs p.user_properties buffer in
      let buffer = write_ids p.subscription_identifiers buffer in
      write_string content_type p.content_type buffer
