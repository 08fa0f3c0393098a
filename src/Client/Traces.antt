-- ===== src/Client/Traces.antt =====
-- src/tasks/task_client/data/traces/mod.rs: a request with the number under which the user knows it, and
-- the packet identifier that the hub gives it.
use for_mqtt_client.Base.{ℕ, Bool, Option, List}
use for_mqtt_client.Protocol.{Protocol}
use for_mqtt_client.Properties.{Text}
use for_mqtt_client.Ring.{RingCrate}
use for_mqtt_client.Packet.Qos.{QoS}
use for_mqtt_client.Packet.Subscribe as SubscribePacket
use for_mqtt_client.Packet.Subscribe.{Subscribe}
use for_mqtt_client.Packet.Unsubscribe as UnsubscribePacket
use for_mqtt_client.Packet.Unsubscribe.{Unsubscribe}

-- The parameter is the marker type of src/lib.rs.
pub record TracePublishQos (qos : QoS) : Type 0 where
  pub protocol : Protocol
  pub id : ℕ
  pub topic : Text
  pub packet_id : ℕ
  pub payload : List ℕ
  pub retain : Bool

unfoldable pub init : {qos : QoS} → Text → List ℕ → Bool → Protocol → ℕ → TracePublishQos qos
init topic payload retain protocol id = record {
  protocol = protocol;
  id = id;
  topic = topic;
  packet_id = 0;
  payload = payload;
  retain = retain;
}

pub record TraceSubscribe : Type 0 where
  pub id : ℕ
  pub subscribe : Subscribe

pub record TraceUnubscribe : Type 0 where
  pub id : ℕ
  pub unsubscribe : Unsubscribe

abbrev pub subscribe_packet_id : TraceSubscribe → ℕ
subscribe_packet_id t = SubscribePacket.packet_id t.subscribe

abbrev pub unsubscribe_packet_id : TraceUnubscribe → ℕ
unsubscribe_packet_id t = UnsubscribePacket.packet_id t.unsubscribe

module _ ⦃r : RingCrate⦄ where
  -- `none` stands for `HubError::PacketIdErr`; with the identifier comes the pool that is left.
  abbrev pub request_id : List ℕ → Option (ℕ × List ℕ)
  request_id b = r.pop b

-- `set_packet_id` of each of the three, behind `request_id`.
abbrev pub publish_with_id : {qos : QoS} → TracePublishQos qos → ℕ → TracePublishQos qos
publish_with_id t packet_id = record t { packet_id = packet_id }

abbrev pub subscribe_with_id : TraceSubscribe → ℕ → TraceSubscribe
subscribe_with_id t packet_id = record t {
  subscribe = SubscribePacket.set_packet_id t.subscribe packet_id;
}

abbrev pub unsubscribe_with_id : TraceUnubscribe → ℕ → TraceUnubscribe
unsubscribe_with_id t packet_id = record t {
  unsubscribe = UnsubscribePacket.set_packet_id t.unsubscribe packet_id;
}
