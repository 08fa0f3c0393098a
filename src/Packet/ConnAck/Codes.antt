-- ===== src/Packet/ConnAck/Codes.antt =====
-- The return codes of src/protocol/packet/connack.rs.
use for_mqtt_client.Base.{ℕ, ◌≡◌, true, ◌==◌, if◌then◌else◌, arith}
use for_mqtt_client.Outcome.{ok, err, is_answer}
use for_mqtt_client.Protocol.{invalid_connect_return_code}
use for_mqtt_client.Wire.{Read}

pub data ConnectReturnFailCodeV3 : Type 0 where
  refused_protocol_version bad_client_id : ConnectReturnFailCodeV3
  service_unavailable bad_user_name_password : ConnectReturnFailCodeV3
  not_authorized : ConnectReturnFailCodeV3

pub data ConnectReturnCodeV5 : Type 0 where
  refused_protocol_version bad_client_id service_unavailable : ConnectReturnCodeV5
  unspecified_error malformed_packet protocol_error : ConnectReturnCodeV5
  implementation_specific_error unsupported_protocol_version client_identifier_not_valid :
      ConnectReturnCodeV5
  bad_user_name_password not_authorized server_unavailable : ConnectReturnCodeV5
  server_busy banned bad_authentication_method : ConnectReturnCodeV5
  topic_name_invalid packet_too_large quota_exceeded : ConnectReturnCodeV5
  payload_format_invalid retain_not_supported qos_not_supported : ConnectReturnCodeV5
  use_another_server server_moved connection_rate_exceeded : ConnectReturnCodeV5

pub data ConnectReturnFailCode : Type 0 where
  fail_v3 : ConnectReturnFailCodeV3 → ConnectReturnFailCode
  fail_v5 : ConnectReturnCodeV5 → ConnectReturnFailCode

pub data ConnectReturnCode : Type 0 where
  success : ConnectReturnCode
  fail : ConnectReturnFailCode → ConnectReturnCode

unfoldable pub connect_return_v3 : ℕ → Read ConnectReturnCode
connect_return_v3 num =
    if num == 0
    then ok success
    else if num == 1
    then ok (fail (fail_v3 ConnectReturnFailCodeV3.refused_protocol_version))
    else if num == 2
    then ok (fail (fail_v3 ConnectReturnFailCodeV3.bad_client_id))
    else if num == 3
    then ok (fail (fail_v3 ConnectReturnFailCodeV3.service_unavailable))
    else if num == 4
    then ok (fail (fail_v3 ConnectReturnFailCodeV3.bad_user_name_password))
    else if num == 5
    then ok (fail (fail_v3 ConnectReturnFailCodeV3.not_authorized))
    else err (invalid_connect_return_code num)

unfoldable pub connect_return_v5 : ℕ → Read ConnectReturnCode
connect_return_v5 num =
    if num == 0
    then ok success
    else if num == 128
    then ok (fail (fail_v5 ConnectReturnCodeV5.unspecified_error))
    else if num == 129
    then ok (fail (fail_v5 ConnectReturnCodeV5.malformed_packet))
    else if num == 130
    then ok (fail (fail_v5 ConnectReturnCodeV5.protocol_error))
    else if num == 131
    then ok (fail (fail_v5 ConnectReturnCodeV5.implementation_specific_error))
    else if num == 132
    then ok (fail (fail_v5 ConnectReturnCodeV5.unsupported_protocol_version))
    else if num == 133
    then ok (fail (fail_v5 ConnectReturnCodeV5.client_identifier_not_valid))
    else if num == 134
    then ok (fail (fail_v5 ConnectReturnCodeV5.bad_user_name_password))
    else if num == 135
    then ok (fail (fail_v5 ConnectReturnCodeV5.not_authorized))
    else if num == 136
    then ok (fail (fail_v5 ConnectReturnCodeV5.server_unavailable))
    else if num == 137
    then ok (fail (fail_v5 ConnectReturnCodeV5.server_busy))
    else if num == 138
    then ok (fail (fail_v5 ConnectReturnCodeV5.banned))
    else if num == 140
    then ok (fail (fail_v5 ConnectReturnCodeV5.bad_authentication_method))
    else if num == 144
    then ok (fail (fail_v5 ConnectReturnCodeV5.topic_name_invalid))
    else if num == 149
    then ok (fail (fail_v5 ConnectReturnCodeV5.packet_too_large))
    else if num == 151
    then ok (fail (fail_v5 ConnectReturnCodeV5.quota_exceeded))
    else if num == 153
    then ok (fail (fail_v5 ConnectReturnCodeV5.payload_format_invalid))
    else if num == 154
    then ok (fail (fail_v5 ConnectReturnCodeV5.retain_not_supported))
    else if num == 155
    then ok (fail (fail_v5 ConnectReturnCodeV5.qos_not_supported))
    else if num == 156
    then ok (fail (fail_v5 ConnectReturnCodeV5.use_another_server))
    else if num == 157
    then ok (fail (fail_v5 ConnectReturnCodeV5.server_moved))
    else if num == 159
    then ok (fail (fail_v5 ConnectReturnCodeV5.connection_rate_exceeded))
    else err (invalid_connect_return_code num)

pub v3_answers : (n : ℕ) → is_answer (connect_return_v3 n) ≡ true
unfolding connect_return_v3
v3_answers n = ground arith

pub v5_answers : (n : ℕ) → is_answer (connect_return_v5 n) ≡ true
unfolding connect_return_v5
v5_answers n = ground arith
