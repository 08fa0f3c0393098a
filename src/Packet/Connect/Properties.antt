-- ===== src/Packet/Connect/Properties.antt =====
-- src/protocol/packet/connect/properties.rs
use for_mqtt_client.Base.{ℕ, ◌+◌, List, Option}
use for_mqtt_client.Protocol.{
  session_expiry_interval, receive_maximum, maximum_packet_size, topic_alias_maximum,
  request_response_information, request_problem_information, authentication_method,
  authentication_data,
}
use for_mqtt_client.Bytes.{BytesCrate}
use for_mqtt_client.Wire.{write_remaining_length}
use for_mqtt_client.Properties.{
  Text, Pairs, write_u8, write_u16, write_u32, write_bytes, write_string, write_pairs, fixed_len,
  string_len, pairs_len,
}

pub record ConnectProperties : Type 0 where
  pub session_expiry_interval : Option ℕ
  pub receive_maximum : Option ℕ
  pub max_packet_size : Option ℕ
  pub topic_alias_max : Option ℕ
  pub request_response_info : Option ℕ
  pub request_problem_info : Option ℕ
  pub user_properties : Pairs
  pub authentication_method : Option Text
  pub authentication_data : Option (List ℕ)

unfoldable pub len : ConnectProperties → ℕ
len p =
    fixed_len 4 p.session_expiry_interval
    + fixed_len 2 p.receive_maximum
    + fixed_len 4 p.max_packet_size
    + fixed_len 2 p.topic_alias_max
    + fixed_len 1 p.request_response_info
    + fixed_len 1 p.request_problem_info
    + pairs_len p.user_properties
    + string_len p.authentication_method
    + string_len p.authentication_data

module _ ⦃b : BytesCrate⦄ where
  unfoldable pub write : ConnectProperties → List ℕ → List ℕ
  write p buffer =
      let buffer = (write_remaining_length buffer (len p)).0 in
      let buffer = write_u32 session_expiry_interval p.session_expiry_interval buffer in
      let buffer = write_u16 receive_maximum p.receive_maximum buffer in
      let buffer = write_u32 maximum_packet_size p.max_packet_size buffer in
      let buffer = write_u16 topic_alias_maximum p.topic_alias_max buffer in
      let buffer = write_u8 request_response_information p.request_response_info buffer in
      let buffer = write_u8 request_problem_information p.request_problem_info buffer in
      let buffer = write_pairs p.user_properties buffer in
      let buffer = write_string authentication_method p.authentication_method buffer in
      write_bytes authentication_data p.authentication_data buffer
