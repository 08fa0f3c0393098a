-- ===== src/Packet/Disconnect/Codes.antt =====
-- The reason codes of src/protocol/packet/disconnect.rs.
use for_mqtt_client.Base.{ℕ, ◌≡◌, refl, true, ◌==◌, if◌then◌else◌, arith, ◌<◌}
use for_mqtt_client.Outcome.{ok, err, is_answer}
use for_mqtt_client.Protocol.{invalid_connect_return_code}
use for_mqtt_client.Wire.{Read}

pub data DisconnectReasonCode : Type 0 where
  normal_disconnection disconnect_with_will_message unspecified_error : DisconnectReasonCode
  malformed_packet protocol_error implementation_specific_error : DisconnectReasonCode
  not_authorized server_busy server_shutting_down : DisconnectReasonCode
  keep_alive_timeout session_taken_over topic_filter_invalid : DisconnectReasonCode
  topic_name_invalid receive_maximum_exceeded topic_alias_invalid : DisconnectReasonCode
  packet_too_large message_rate_too_high quota_exceeded : DisconnectReasonCode
  administrative_action payload_format_invalid retain_not_supported : DisconnectReasonCode
  qos_not_supported use_another_server server_moved : DisconnectReasonCode
  shared_subscription_not_supported connection_rate_exceeded maximum_connect_time :
      DisconnectReasonCode
  subscription_identifiers_not_supported wildcard_subscriptions_not_supported : DisconnectReasonCode

-- `reason_code as u8`
abbrev pub reason_code_number : DisconnectReasonCode → ℕ
reason_code_number normal_disconnection = 0x00
reason_code_number disconnect_with_will_message = 0x04
reason_code_number unspecified_error = 0x80
reason_code_number malformed_packet = 0x81
reason_code_number protocol_error = 0x82
reason_code_number implementation_specific_error = 0x83
reason_code_number not_authorized = 0x87
reason_code_number server_busy = 0x89
reason_code_number server_shutting_down = 0x8B
reason_code_number keep_alive_timeout = 0x8D
reason_code_number session_taken_over = 0x8E
reason_code_number topic_filter_invalid = 0x8F
reason_code_number topic_name_invalid = 0x90
reason_code_number receive_maximum_exceeded = 0x93
reason_code_number topic_alias_invalid = 0x94
reason_code_number packet_too_large = 0x95
reason_code_number message_rate_too_high = 0x96
reason_code_number quota_exceeded = 0x97
reason_code_number administrative_action = 0x98
reason_code_number payload_format_invalid = 0x99
reason_code_number retain_not_supported = 0x9A
reason_code_number qos_not_supported = 0x9B
reason_code_number use_another_server = 0x9C
reason_code_number server_moved = 0x9D
reason_code_number shared_subscription_not_supported = 0x9E
reason_code_number connection_rate_exceeded = 0x9F
reason_code_number maximum_connect_time = 0xA0
reason_code_number subscription_identifiers_not_supported = 0xA1
reason_code_number wildcard_subscriptions_not_supported = 0xA2

-- `try_from`
unfoldable pub try_from : ℕ → Read DisconnectReasonCode
try_from value =
    if value == 0x00
    then ok normal_disconnection
    else if value == 0x04
    then ok disconnect_with_will_message
    else if value == 0x80
    then ok unspecified_error
    else if value == 0x81
    then ok malformed_packet
    else if value == 0x82
    then ok protocol_error
    else if value == 0x83
    then ok implementation_specific_error
    else if value == 0x87
    then ok not_authorized
    else if value == 0x89
    then ok server_busy
    else if value == 0x8B
    then ok server_shutting_down
    else if value == 0x8D
    then ok keep_alive_timeout
    else if value == 0x8E
    then ok session_taken_over
    else if value == 0x8F
    then ok topic_filter_invalid
    else if value == 0x90
    then ok topic_name_invalid
    else if value == 0x93
    then ok receive_maximum_exceeded
    else if value == 0x94
    then ok topic_alias_invalid
    else if value == 0x95
    then ok packet_too_large
    else if value == 0x96
    then ok message_rate_too_high
    else if value == 0x97
    then ok quota_exceeded
    else if value == 0x98
    then ok administrative_action
    else if value == 0x99
    then ok payload_format_invalid
    else if value == 0x9A
    then ok retain_not_supported
    else if value == 0x9B
    then ok qos_not_supported
    else if value == 0x9C
    then ok use_another_server
    else if value == 0x9D
    then ok server_moved
    else if value == 0x9E
    then ok shared_subscription_not_supported
    else if value == 0x9F
    then ok connection_rate_exceeded
    else if value == 0xA0
    then ok maximum_connect_time
    else if value == 0xA1
    then ok subscription_identifiers_not_supported
    else if value == 0xA2
    then ok wildcard_subscriptions_not_supported
    else err (invalid_connect_return_code value)

pub try_from_answers : (n : ℕ) → is_answer (try_from n) ≡ true
unfolding try_from
try_from_answers n = ground arith

-- Every reason of a disconnect is what `try_from` makes of its number.
pub try_from-number : (r : DisconnectReasonCode) → try_from (reason_code_number r) ≡ ok r
unfolding try_from
try_from-number normal_disconnection = refl
try_from-number _ = refl

pub reason_code_byte : (r : DisconnectReasonCode) → reason_code_number r < 256
reason_code_byte r = ground arith
