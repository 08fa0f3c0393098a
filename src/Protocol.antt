-- ===== src/Protocol.antt =====
-- src/protocol/mod.rs: the protocol version, packet and property types, the errors of the parser,
-- the fixed header and `len_len`. A `u8`, `u16`, `u32` or `usize` is a number.
pub mod Laws
use for_mqtt_client.Base.{ℕ, ◌+◌, ◌/◌, ◌≤◌, Bool, true, false, leb, ◌==◌, if◌then◌else◌}
use for_mqtt_client.Outcome.{Outcome, ok, err}

pub data Protocol : Type 0 where
  v4 v5 : Protocol

abbrev pub is_v5 : Protocol → Bool
is_v5 v4 = false
is_v5 v5 = true

pub data PacketType : Type 0 where
  connect conn_ack publish pub_ack pub_rec pub_rel pub_comp : PacketType
  subscribe sub_ack unsubscribe unsub_ack ping_req ping_resp disconnect : PacketType

-- `packet_type as u8`
abbrev pub packet_type_code : PacketType → ℕ
packet_type_code connect = 1
packet_type_code conn_ack = 2
packet_type_code publish = 3
packet_type_code pub_ack = 4
packet_type_code pub_rec = 5
packet_type_code pub_rel = 6
packet_type_code pub_comp = 7
packet_type_code subscribe = 8
packet_type_code sub_ack = 9
packet_type_code unsubscribe = 10
packet_type_code unsub_ack = 11
packet_type_code ping_req = 12
packet_type_code ping_resp = 13
packet_type_code disconnect = 14

pub data PropertyType : Type 0 where
  payload_format_indicator message_expiry_interval content_type response_topic : PropertyType
  correlation_data subscription_identifier session_expiry_interval : PropertyType
  assigned_client_identifier server_keep_alive authentication_method : PropertyType
  authentication_data request_problem_information will_delay_interval : PropertyType
  request_response_information response_information server_reference : PropertyType
  reason_string receive_maximum topic_alias_maximum topic_alias maximum_qos : PropertyType
  retain_available user_property maximum_packet_size : PropertyType
  wildcard_subscription_available subscription_identifier_available : PropertyType
  shared_subscription_available : PropertyType

-- `PropertyType::… as u8`
abbrev pub property_code : PropertyType → ℕ
property_code payload_format_indicator = 1
property_code message_expiry_interval = 2
property_code content_type = 3
property_code response_topic = 8
property_code correlation_data = 9
property_code subscription_identifier = 11
property_code session_expiry_interval = 17
property_code assigned_client_identifier = 18
property_code server_keep_alive = 19
property_code authentication_method = 21
property_code authentication_data = 22
property_code request_problem_information = 23
property_code will_delay_interval = 24
property_code request_response_information = 25
property_code response_information = 26
property_code server_reference = 28
property_code reason_string = 31
property_code receive_maximum = 33
property_code topic_alias_maximum = 34
property_code topic_alias = 35
property_code maximum_qos = 36
property_code retain_available = 37
property_code user_property = 38
property_code maximum_packet_size = 39
property_code wildcard_subscription_available = 40
property_code subscription_identifier_available = 41
property_code shared_subscription_available = 42

pub data PacketParseError : Type 0 where
  invalid_connect_return_code : ℕ → PacketParseError
  invalid_protocol : PacketParseError
  invalid_protocol_level : ℕ → PacketParseError
  incorrect_packet_format : PacketParseError
  invalid_packet_type : ℕ → PacketParseError
  invalid_property_type : ℕ → PacketParseError
  invalid_qos : ℕ → PacketParseError
  invalid_subscribe_reason_code : ℕ → PacketParseError
  packet_id_zero : PacketParseError
  payload_size_incorrect : PacketParseError
  payload_too_long : PacketParseError
  payload_size_limit_exceeded : ℕ → PacketParseError
  payload_required : PacketParseError
  topic_not_utf8 : PacketParseError
  boundary_crossed : ℕ → PacketParseError
  malformed_packet : PacketParseError
  empty_subscription : PacketParseError
  insufficient_bytes : ℕ → PacketParseError
  malformed_remaining_length : PacketParseError

-- The errors of the fixed header have a type of their own, whose constructors share the names.
pub data FixedHeaderError : Type 0 where
  insufficient_bytes : ℕ → FixedHeaderError
  malformed_remaining_length : FixedHeaderError

-- `impl From<FixedHeaderError> for PacketParseError`
abbrev pub from_header_error : FixedHeaderError → PacketParseError
from_header_error (FixedHeaderError.insufficient_bytes n) = PacketParseError.insufficient_bytes n
from_header_error FixedHeaderError.malformed_remaining_length =
    PacketParseError.malformed_remaining_length

abbrev pub to_discard : FixedHeaderError → Bool
to_discard (FixedHeaderError.insufficient_bytes n) = false
to_discard FixedHeaderError.malformed_remaining_length = true

pub record FixedHeader : Type 0 where
  pub byte1 : ℕ
  pub fixed_header_len : ℕ
  pub remaining_len : ℕ

abbrev pub new_header : ℕ → ℕ → ℕ → FixedHeader
new_header byte1 remaining_len_len remaining_len = record {
  byte1 = byte1;
  fixed_header_len = remaining_len_len + 1;
  remaining_len = remaining_len;
}

abbrev pub frame_length : FixedHeader → ℕ
frame_length h = h.fixed_header_len + h.remaining_len

packet_type_of : ℕ → Outcome PacketParseError PacketType
packet_type_of num =
    if num == 1
    then ok connect
    else if num == 2
    then ok conn_ack
    else if num == 3
    then ok publish
    else if num == 4
    then ok pub_ack
    else if num == 5
    then ok pub_rec
    else if num == 6
    then ok pub_rel
    else if num == 7
    then ok pub_comp
    else if num == 8
    then ok subscribe
    else if num == 9
    then ok sub_ack
    else if num == 10
    then ok unsubscribe
    else if num == 11
    then ok unsub_ack
    else if num == 12
    then ok ping_req
    else if num == 13
    then ok ping_resp
    else if num == 14
    then ok disconnect
    else err (invalid_packet_type num)

-- The match of `FixedHeader::packet_type` on `byte1 >> 4`.
unfoldable pub packet_type : FixedHeader → Outcome PacketParseError PacketType
unfolding packet_type_of
packet_type h = packet_type_of (h.byte1 / 16)

unfoldable pub property : ℕ → Outcome PacketParseError PropertyType
property num =
    if num == 1
    then ok payload_format_indicator
    else if num == 2
    then ok message_expiry_interval
    else if num == 3
    then ok content_type
    else if num == 8
    then ok response_topic
    else if num == 9
    then ok correlation_data
    else if num == 11
    then ok subscription_identifier
    else if num == 17
    then ok session_expiry_interval
    else if num == 18
    then ok assigned_client_identifier
    else if num == 19
    then ok server_keep_alive
    else if num == 21
    then ok authentication_method
    else if num == 22
    then ok authentication_data
    else if num == 23
    then ok request_problem_information
    else if num == 24
    then ok will_delay_interval
    else if num == 25
    then ok request_response_information
    else if num == 26
    then ok response_information
    else if num == 28
    then ok server_reference
    else if num == 31
    then ok reason_string
    else if num == 33
    then ok receive_maximum
    else if num == 34
    then ok topic_alias_maximum
    else if num == 35
    then ok topic_alias
    else if num == 36
    then ok maximum_qos
    else if num == 37
    then ok retain_available
    else if num == 38
    then ok user_property
    else if num == 39
    then ok maximum_packet_size
    else if num == 40
    then ok wildcard_subscription_available
    else if num == 41
    then ok subscription_identifier_available
    else if num == 42
    then ok shared_subscription_available
    else err (invalid_property_type num)

unfoldable pub len_len : ℕ → ℕ
len_len len =
    if leb 2_097_152 len then 4 else if leb 16_384 len then 3 else if leb 128 len then 2 else 1
