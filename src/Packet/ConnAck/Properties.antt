-- ===== src/Packet/ConnAck/Properties.antt =====
-- `ConnAckProperties` of src/protocol/packet/connack.rs.
use for_mqtt_client.Base.{ℕ, List, [], ◌∷◌, ◌++◌, Option, none, some}
use for_mqtt_client.Outcome.{err, ◌>>=◌, returns_err, Returns-bind}
use for_mqtt_client.Protocol.{
  PropertyType, property, invalid_property_type, session_expiry_interval, receive_maximum,
  maximum_qos, retain_available, assigned_client_identifier, maximum_packet_size,
  topic_alias_maximum, reason_string, user_property, wildcard_subscription_available,
  subscription_identifier_available, shared_subscription_available, server_keep_alive,
  response_information, server_reference, authentication_method, authentication_data,
}
use for_mqtt_client.Protocol.Laws.{property-Returns}
use for_mqtt_client.Bytes.{BytesCrate}
use for_mqtt_client.Wire.{Read}
use for_mqtt_client.Properties.{
  Text, Pairs, Handle, read_properties, on_bytes, on_pair, on_string, on_u16, on_u32, on_u8,
}
use for_mqtt_client.Properties.Laws.{
  IsReader, on_bytes-IsReader, on_pair-IsReader, on_string-IsReader, on_u16-IsReader,
  on_u32-IsReader, on_u8-IsReader,
}

pub record ConnAckProperties : Type 0 where
  pub session_expiry_interval : Option ℕ
  pub receive_max : Option ℕ
  pub max_qos : Option ℕ
  pub retain_available : Option ℕ
  pub max_packet_size : Option ℕ
  pub assigned_client_identifier : Option Text
  pub topic_alias_max : Option ℕ
  pub reason_string : Option Text
  pub user_properties : Pairs
  pub wildcard_subscription_available : Option ℕ
  pub subscription_identifiers_available : Option ℕ
  pub shared_subscription_available : Option ℕ
  pub server_keep_alive : Option ℕ
  pub response_information : Option Text
  pub server_reference : Option Text
  pub authentication_method : Option Text
  pub authentication_data : Option (List ℕ)

abbrev pub empty : ConnAckProperties
empty = record {
  session_expiry_interval = none;
  receive_max = none;
  max_qos = none;
  retain_available = none;
  max_packet_size = none;
  assigned_client_identifier = none;
  topic_alias_max = none;
  reason_string = none;
  user_properties = [];
  wildcard_subscription_available = none;
  subscription_identifiers_available = none;
  shared_subscription_available = none;
  server_keep_alive = none;
  response_information = none;
  server_reference = none;
  authentication_method = none;
  authentication_data = none;
}

module _ ⦃b : BytesCrate⦄ where
  unfoldable pub on_property :
      ℕ → PropertyType → ConnAckProperties → List ℕ → Read (ConnAckProperties × ℕ × List ℕ)
  on_property prop session_expiry_interval s bytes =
      on_u32 (λ v. record s { session_expiry_interval = some v }) bytes
  on_property prop receive_maximum s bytes = on_u16 (λ v. record s { receive_max = some v }) bytes
  on_property prop maximum_qos s bytes = on_u8 (λ v. record s { max_qos = some v }) bytes
  on_property prop retain_available s bytes =
      on_u8 (λ v. record s { retain_available = some v }) bytes
  on_property prop assigned_client_identifier s bytes =
      on_string (λ v. record s { assigned_client_identifier = some v }) bytes
  on_property prop maximum_packet_size s bytes =
      on_u32 (λ v. record s { max_packet_size = some v }) bytes
  on_property prop topic_alias_maximum s bytes =
      on_u16 (λ v. record s { topic_alias_max = some v }) bytes
  on_property prop reason_string s bytes =
      on_string (λ v. record s { reason_string = some v }) bytes
  on_property prop user_property s bytes =
      on_pair (λ v. record s { user_properties = s.user_properties ++ (v ∷ []) }) bytes
  on_property prop wildcard_subscription_available s bytes =
      on_u8 (λ v. record s { wildcard_subscription_available = some v }) bytes
  on_property prop subscription_identifier_available s bytes =
      on_u8 (λ v. record s { subscription_identifiers_available = some v }) bytes
  on_property prop shared_subscription_available s bytes =
      on_u8 (λ v. record s { shared_subscription_available = some v }) bytes
  on_property prop server_keep_alive s bytes =
      on_u16 (λ v. record s { server_keep_alive = some v }) bytes
  on_property prop response_information s bytes =
      on_string (λ v. record s { response_information = some v }) bytes
  on_property prop server_reference s bytes =
      on_string (λ v. record s { server_reference = some v }) bytes
  on_property prop authentication_method s bytes =
      on_string (λ v. record s { authentication_method = some v }) bytes
  on_property prop authentication_data s bytes =
      on_bytes (λ v. record s { authentication_data = some v }) bytes
  on_property prop _ s bytes = err (invalid_property_type prop)

  unfoldable pub handle : Handle ConnAckProperties
  handle prop s bytes = do p ← property prop; on_property prop p s bytes

  unfoldable pub read : List ℕ → Read (Option ConnAckProperties × List ℕ)
  read bytes = read_properties handle empty bytes

  on_property-IsReader :
      (prop : ℕ) (p : PropertyType) (s : ConnAckProperties) → IsReader (on_property prop p s)
  unfolding on_property
  on_property-IsReader prop session_expiry_interval s = on_u32-IsReader _
  on_property-IsReader prop receive_maximum s = on_u16-IsReader _
  on_property-IsReader prop maximum_qos s = on_u8-IsReader _
  on_property-IsReader prop retain_available s = on_u8-IsReader _
  on_property-IsReader prop assigned_client_identifier s = on_string-IsReader _
  on_property-IsReader prop maximum_packet_size s = on_u32-IsReader _
  on_property-IsReader prop topic_alias_maximum s = on_u16-IsReader _
  on_property-IsReader prop reason_string s = on_string-IsReader _
  on_property-IsReader prop user_property s = on_pair-IsReader _
  on_property-IsReader prop wildcard_subscription_available s = on_u8-IsReader _
  on_property-IsReader prop subscription_identifier_available s = on_u8-IsReader _
  on_property-IsReader prop shared_subscription_available s = on_u8-IsReader _
  on_property-IsReader prop server_keep_alive s = on_u16-IsReader _
  on_property-IsReader prop response_information s = on_string-IsReader _
  on_property-IsReader prop server_reference s = on_string-IsReader _
  on_property-IsReader prop authentication_method s = on_string-IsReader _
  on_property-IsReader prop authentication_data s = on_bytes-IsReader _
  on_property-IsReader prop _ s = λ bytes h. returns_err

  pub handle-IsReader : (prop : ℕ) (s : ConnAckProperties) → IsReader (handle prop s)
  unfolding handle
  handle-IsReader prop s bytes h =
      Returns-bind (property-Returns prop) λ p _. on_property-IsReader prop p s bytes h
