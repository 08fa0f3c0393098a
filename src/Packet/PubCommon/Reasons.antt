-- ===== src/Packet/PubCommon/Reasons.antt =====
-- The reason codes of src/protocol/packet/pubcommon.rs.
use for_mqtt_client.Base.{ℕ, Bool, true, false, ◌==◌, if◌then◌else◌, ◌≡◌, refl, arith}
use for_mqtt_client.Outcome.{ok, err, is_answer}
use for_mqtt_client.Protocol.{invalid_connect_return_code}
use for_mqtt_client.Wire.{Read}

pub data PubAckReason : Type 0 where
  success no_matching_subscribers unspecified_error : PubAckReason
  implementation_specific_error not_authorized topic_name_invalid : PubAckReason
  packet_identifier_in_use quota_exceeded payload_format_invalid : PubAckReason

unfoldable pub pub_ack_reason : ℕ → Read PubAckReason
pub_ack_reason num =
    if num == 0
    then ok PubAckReason.success
    else if num == 16
    then ok PubAckReason.no_matching_subscribers
    else if num == 128
    then ok PubAckReason.unspecified_error
    else if num == 131
    then ok PubAckReason.implementation_specific_error
    else if num == 135
    then ok PubAckReason.not_authorized
    else if num == 144
    then ok PubAckReason.topic_name_invalid
    else if num == 145
    then ok PubAckReason.packet_identifier_in_use
    else if num == 151
    then ok PubAckReason.quota_exceeded
    else if num == 153
    then ok PubAckReason.payload_format_invalid
    else err (invalid_connect_return_code num)

-- `reason as u8` is the number of the variant, not its code.
abbrev pub pub_ack_as_u8 : PubAckReason → ℕ
pub_ack_as_u8 PubAckReason.success = 0
pub_ack_as_u8 PubAckReason.no_matching_subscribers = 1
pub_ack_as_u8 PubAckReason.unspecified_error = 2
pub_ack_as_u8 PubAckReason.implementation_specific_error = 3
pub_ack_as_u8 PubAckReason.not_authorized = 4
pub_ack_as_u8 PubAckReason.topic_name_invalid = 5
pub_ack_as_u8 PubAckReason.packet_identifier_in_use = 6
pub_ack_as_u8 PubAckReason.quota_exceeded = 7
pub_ack_as_u8 PubAckReason.payload_format_invalid = 8

abbrev pub pub_ack_is_success : PubAckReason → Bool
pub_ack_is_success PubAckReason.success = true
pub_ack_is_success _ = false

pub data PubRecReason : Type 0 where
  success no_matching_subscribers unspecified_error : PubRecReason
  implementation_specific_error not_authorized topic_name_invalid : PubRecReason
  packet_identifier_in_use quota_exceeded payload_format_invalid : PubRecReason

unfoldable pub pub_rec_reason : ℕ → Read PubRecReason
pub_rec_reason num =
    if num == 0
    then ok PubRecReason.success
    else if num == 16
    then ok PubRecReason.no_matching_subscribers
    else if num == 128
    then ok PubRecReason.unspecified_error
    else if num == 131
    then ok PubRecReason.implementation_specific_error
    else if num == 135
    then ok PubRecReason.not_authorized
    else if num == 144
    then ok PubRecReason.topic_name_invalid
    else if num == 145
    then ok PubRecReason.packet_identifier_in_use
    else if num == 151
    then ok PubRecReason.quota_exceeded
    else if num == 153
    then ok PubRecReason.payload_format_invalid
    else err (invalid_connect_return_code num)

-- `reason as u8` is the number of the variant, not its code.
abbrev pub pub_rec_as_u8 : PubRecReason → ℕ
pub_rec_as_u8 PubRecReason.success = 0
pub_rec_as_u8 PubRecReason.no_matching_subscribers = 1
pub_rec_as_u8 PubRecReason.unspecified_error = 2
pub_rec_as_u8 PubRecReason.implementation_specific_error = 3
pub_rec_as_u8 PubRecReason.not_authorized = 4
pub_rec_as_u8 PubRecReason.topic_name_invalid = 5
pub_rec_as_u8 PubRecReason.packet_identifier_in_use = 6
pub_rec_as_u8 PubRecReason.quota_exceeded = 7
pub_rec_as_u8 PubRecReason.payload_format_invalid = 8

abbrev pub pub_rec_is_success : PubRecReason → Bool
pub_rec_is_success PubRecReason.success = true
pub_rec_is_success _ = false

pub data PubRelReason : Type 0 where
  success packet_identifier_not_found : PubRelReason

unfoldable pub pub_rel_reason : ℕ → Read PubRelReason
pub_rel_reason num =
    if num == 0
    then ok PubRelReason.success
    else if num == 146
    then ok PubRelReason.packet_identifier_not_found
    else err (invalid_connect_return_code num)

-- `reason as u8` is the number of the variant, not its code.
abbrev pub pub_rel_as_u8 : PubRelReason → ℕ
pub_rel_as_u8 PubRelReason.success = 0
pub_rel_as_u8 PubRelReason.packet_identifier_not_found = 1

abbrev pub pub_rel_is_success : PubRelReason → Bool
pub_rel_is_success PubRelReason.success = true
pub_rel_is_success _ = false

pub data PubCompReason : Type 0 where
  success packet_identifier_not_found : PubCompReason

unfoldable pub pub_comp_reason : ℕ → Read PubCompReason
pub_comp_reason num =
    if num == 0
    then ok PubCompReason.success
    else if num == 146
    then ok PubCompReason.packet_identifier_not_found
    else err (invalid_connect_return_code num)

-- `reason as u8` is the number of the variant, not its code.
abbrev pub pub_comp_as_u8 : PubCompReason → ℕ
pub_comp_as_u8 PubCompReason.success = 0
pub_comp_as_u8 PubCompReason.packet_identifier_not_found = 1

abbrev pub pub_comp_is_success : PubCompReason → Bool
pub_comp_is_success PubCompReason.success = true
pub_comp_is_success _ = false

pub pub_ack_reason_answers : (n : ℕ) → is_answer (pub_ack_reason n) ≡ true
unfolding pub_ack_reason
pub_ack_reason_answers n = ground arith

pub pub_rec_reason_answers : (n : ℕ) → is_answer (pub_rec_reason n) ≡ true
unfolding pub_rec_reason
pub_rec_reason_answers n = ground arith

pub pub_rel_reason_answers : (n : ℕ) → is_answer (pub_rel_reason n) ≡ true
unfolding pub_rel_reason
pub_rel_reason_answers n = ground arith

pub pub_comp_reason_answers : (n : ℕ) → is_answer (pub_comp_reason n) ≡ true
unfolding pub_comp_reason
pub_comp_reason_answers n = ground arith

pub pub_ack_default : pub_ack_is_success PubAckReason.success ≡ true
pub_ack_default = refl

pub pub_rec_default : pub_rec_is_success PubRecReason.success ≡ true
pub_rec_default = refl

pub pub_rel_default : pub_rel_is_success PubRelReason.success ≡ true
pub_rel_default = refl

pub pub_comp_default : pub_comp_is_success PubCompReason.success ≡ true
pub_comp_default = refl
