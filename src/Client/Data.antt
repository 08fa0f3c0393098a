-- ===== src/Client/Data.antt =====
-- src/tasks/task_client/data/mod.rs and acks/mod.rs: the commands and requests that go to the hub, and the
-- events that come back.
use for_mqtt_client.Base.{ℕ, Bool, List, []}
use for_mqtt_client.Protocol.{Protocol, PacketType, PacketParseError}
use for_mqtt_client.Properties.{Text}
use for_mqtt_client.Packet.Qos.{QoS}
use for_mqtt_client.Packet.Publish.{Publish}
use for_mqtt_client.Packet.Disconnect.{Disconnect}
use for_mqtt_client.Packet.SubAck.{SubscribeReasonCode}
use for_mqtt_client.Packet.UnsubAck.{UnsubAck, UnsubAckReason}
use for_mqtt_client.Packet.ConnAck.Codes.{ConnectReturnFailCode}
use for_mqtt_client.Client.Traces.{TracePublishQos, TraceSubscribe, TraceUnubscribe, init}

pub data ClientCommand : Type 0 where
  disconnect_and_drop violence_disconnect_and_drop : ClientCommand

pub data ClientData : Type 0 where
  publish_qos0 : TracePublishQos QoS.at_most_once → ClientData
  publish_qos1 : TracePublishQos QoS.at_least_once → ClientData
  publish_qos2 : TracePublishQos QoS.exactly_once → ClientData
  subscribe : TraceSubscribe → ClientData
  unsubscribe : TraceUnubscribe → ClientData

-- `ClientData::id`
unfoldable pub trace_id : ClientData → ℕ
trace_id (publish_qos0 packet) = packet.id
trace_id (publish_qos1 packet) = packet.id
trace_id (publish_qos2 packet) = packet.id
trace_id (subscribe packet) = packet.id
trace_id (unsubscribe packet) = packet.id

-- `ClientData::publish`
unfoldable pub publish : Text → QoS → List ℕ → Bool → Protocol → ℕ → ClientData
unfolding init
publish topic QoS.at_most_once payload retain protocol id =
    publish_qos0 (init topic payload retain protocol id)
publish topic QoS.at_least_once payload retain protocol id =
    publish_qos1 (init topic payload retain protocol id)
publish topic QoS.exactly_once payload retain protocol id =
    publish_qos2 (init topic payload retain protocol id)

-- `ToConnectError` of src/tasks/task_network/data.rs.
pub data ToConnectError : Type 0 where
  not_conn_ack : PacketType → ToConnectError
  network_error : Text → ToConnectError
  packet_error : PacketParseError → ToConnectError
  broker_refuse : ConnectReturnFailCode → ToConnectError
  channel_abnormal : ToConnectError
  rustls_connect_error : Text → ToConnectError

pub record SubscribeAck : Type 0 where
  pub id : ℕ
  pub acks : List SubscribeReasonCode

pub record UnsubscribeAck : Type 0 where
  pub id : ℕ
  pub acks : List UnsubAckReason

unfoldable pub unsubscribe_ack : UnsubAck → ℕ → UnsubscribeAck
unsubscribe_ack (UnsubAck.v4 packet_id) id = record { id = id; acks = [] }
unsubscribe_ack (UnsubAck.v5_read_mode packet_id properties return_codes) id = record {
  id = id;
  acks = return_codes;
}

-- The text of an event: one that is given, or what `{:?}` prints of a packet.
pub data Message : Type 0 where
  text : Text → Message
  debug_of : Disconnect → Message

pub data MqttEvent : Type 0 where
  connect_success : Bool → MqttEvent
  connect_fail : ToConnectError → MqttEvent
  publish_event : Publish → MqttEvent
  publish_success : ℕ → MqttEvent
  publish_fail : Text → MqttEvent
  subscribe_ack_event : SubscribeAck → MqttEvent
  subscribe_fail : Text → MqttEvent
  unsubscribe_ack_event : UnsubscribeAck → MqttEvent
  unsubscribe_fail : Text → MqttEvent
  connected_err : Message → MqttEvent
  disconnected : MqttEvent
