-- ===== src/Packet/Qos.antt =====
-- src/lib.rs: the quality of service, alone and with the packet identifier that it needs.
use for_mqtt_client.Base.{ℕ, Option, none, some, ◌==◌, if◌then◌else◌}
use for_mqtt_client.Outcome.{ok, err}
use for_mqtt_client.Protocol.{invalid_qos}
use for_mqtt_client.Wire.{Read}

pub data QoS : Type 0 where
  at_most_once at_least_once exactly_once : QoS

-- `qos as u8`
abbrev pub qos_code : QoS → ℕ
qos_code at_most_once = 0
qos_code at_least_once = 1
qos_code exactly_once = 2

pub data QoSWithPacketId : Type 0 where
  at_most_once : QoSWithPacketId
  at_least_once : ℕ → QoSWithPacketId
  exactly_once : ℕ → QoSWithPacketId

-- `QoSWithPacketId::qos`
abbrev pub qos_number : QoSWithPacketId → ℕ
qos_number QoSWithPacketId.at_most_once = 0
qos_number (QoSWithPacketId.at_least_once id) = 1
qos_number (QoSWithPacketId.exactly_once id) = 2

abbrev pub packet_id : QoSWithPacketId → Option ℕ
packet_id QoSWithPacketId.at_most_once = none
packet_id (QoSWithPacketId.at_least_once id) = some id
packet_id (QoSWithPacketId.exactly_once id) = some id

-- Maps a number to a `QoS`.
unfoldable pub qos : ℕ → Read QoS
qos num =
    if num == 0
    then ok QoS.at_most_once
    else if num == 1
    then ok QoS.at_least_once
    else if num == 2
    then ok QoS.exactly_once
    else err (invalid_qos num)
