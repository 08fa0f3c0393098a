-- ===== src/Packet/Disconnect/Properties.antt =====
-- `DisconnectProperties` of src/protocol/packet/disconnect.rs.
use for_mqtt_client.Base.{ℕ, ◌+◌, List, [], ◌∷◌, ◌++◌, Option, none, some}
use for_mqtt_client.Outcome.{err, ◌>>=◌, returns_err, Returns-bind}
use for_mqtt_client.Protocol.{
  PropertyType, property, invalid_property_type, session_expiry_interval, reason_string,
  user_property, server_reference,
}
use for_mqtt_client.Protocol.Laws.{property-Returns}
use for_mqtt_client.Bytes.{BytesCrate}
use for_mqtt_client.Wire.{Read, write_remaining_length}
use for_mqtt_client.Properties.{
  Text, Pairs, Handle, read_properties, fixed_len, string_len, pairs_len, write_u32, write_string,
  write_pairs, on_pair, on_string, on_u32,
}
use for_mqtt_client.Properties.Laws.{
  IsReader, on_pair-IsReader, on_string-IsReader, on_u32-IsReader,
}

pub record DisconnectProperties : Type 0 where
  pub session_expiry_interval : Option ℕ
  pub reason_string : Option Text
  pub user_properties : Pairs
  pub server_reference : Option Text

abbrev pub empty : DisconnectProperties
empty = record {
  session_expiry_interval = none;
  reason_string = none;
  user_properties = [];
  server_reference = none;
}

unfoldable pub len : DisconnectProperties → ℕ
len p =
    fixed_len 4 p.session_expiry_interval
    + string_len p.reason_string
    + pairs_len p.user_properties
    + string_len p.server_reference

module _ ⦃b : BytesCrate⦄ where
  unfoldable pub on_property :
      ℕ → PropertyType → DisconnectProperties → List ℕ → Read (DisconnectProperties × ℕ × List ℕ)
  on_property prop session_expiry_interval s bytes =
      on_u32 (λ v. record s { session_expiry_interval = some v }) bytes
  on_property prop reason_string s bytes =
      on_string (λ v. record s { reason_string = some v }) bytes
  on_property prop user_property s bytes =
      on_pair (λ v. record s { user_properties = s.user_properties ++ (v ∷ []) }) bytes
  on_property prop server_reference s bytes =
      on_string (λ v. record s { server_reference = some v }) bytes
  on_property prop _ s bytes = err (invalid_property_type prop)

  unfoldable pub handle : Handle DisconnectProperties
  handle prop s bytes = do p ← property prop; on_property prop p s bytes

  unfoldable pub extract : List ℕ → Read (Option DisconnectProperties × List ℕ)
  extract bytes = read_properties handle empty bytes

  on_property-IsReader :
      (prop : ℕ) (p : PropertyType) (s : DisconnectProperties) → IsReader (on_property prop p s)
  unfolding on_property
  on_property-IsReader prop session_expiry_interval s = on_u32-IsReader _
  on_property-IsReader prop reason_string s = on_string-IsReader _
  on_property-IsReader prop user_property s = on_pair-IsReader _
  on_property-IsReader prop server_reference s = on_string-IsReader _
  on_property-IsReader prop _ s = λ bytes h. returns_err

  pub handle-IsReader : (prop : ℕ) (s : DisconnectProperties) → IsReader (handle prop s)
  unfolding handle
  handle-IsReader prop s bytes h =
      Returns-bind (property-Returns prop) λ p _. on_property-IsReader prop p s bytes h

  unfoldable pub write : DisconnectProperties → List ℕ → List ℕ
  write p buffer =
      let buffer = (write_remaining_length buffer (len p)).0 in
      let buffer = write_u32 session_expiry_interval p.session_expiry_interval buffer in
      let buffer = write_string reason_string p.reason_string buffer in
      let buffer = write_pairs p.user_properties buffer in
      write_string server_reference p.server_reference buffer
