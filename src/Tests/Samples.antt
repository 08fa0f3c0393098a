-- ===== src/Tests/Samples.antt =====
-- The packets, the options and the hub that the tests use, with the crates as lists.
use for_mqtt_client.Base.{refl, List, [], ◌∷◌, none, some, true, false, arith}
use for_mqtt_client.Protocol.{v4, v5}
use for_mqtt_client.Bytes.{BytesCrate}
use for_mqtt_client.Bytes.Model.{list_bytes}
use for_mqtt_client.Ring.{RingCrate}
use for_mqtt_client.Ring.Model.{list_ring}
use for_mqtt_client.Wire.Utf8.{is_utf8}
use for_mqtt_client.Options.{MqttOptions, tcp}
use for_mqtt_client.Packet.Qos.{QoS, QoSWithPacketId}
use for_mqtt_client.Packet.Publish.{Publish, len}
use for_mqtt_client.Packet.Publish.RoundTrip.{IsSendable}
use for_mqtt_client.Packet.Subscribe.{Subscribe}
use for_mqtt_client.Client.Traces.{TracePublishQos, TraceSubscribe}
use for_mqtt_client.Client.Data.{ClientData}
use for_mqtt_client.Hub.Data.{connected, network_connected, recover_id}
use for_mqtt_client.Hub.World.{World, EventBus}
use for_mqtt_client.Hub.Connection.{Input, attempt, client_data, hub_msg}
use for_mqtt_client.Hub.Identifiers.{new_hub}

instance unfoldable pub bytes : BytesCrate
bytes = list_bytes

instance unfoldable pub ring : RingCrate
ring = list_ring

instance unfoldable pub open_bus : EventBus
open_bus = record { accepts = λ n. true }

-- A publish of quality 1 on the topic "ab".
abbrev pub sample : Publish
sample = record {
  protocol = v5;
  dup = false;
  qos = QoSWithPacketId.at_least_once 5;
  retain = true;
  topic = 0x61 ∷ 0x62 ∷ [];
  payload = 1 ∷ 2 ∷ [];
  properties = none;
}

pub sample-IsSendable : IsSendable sample
unfolding len is_utf8
sample-IsSendable = record {
  id = omega arith;
  text = (omega arith, refl);
  properties = tt;
  fits = omega arith;
}

-- The same, with quality 2.
abbrev pub exact : Publish
exact = record sample { qos = QoSWithPacketId.exactly_once 5 }

abbrev pub options : MqttOptions
options = record {
  broker_addr = 0x68 ∷ [];
  port = 1883;
  keep_alive = 60;
  clean_session = true;
  client_id = 0x63 ∷ [];
  credentials = none;
  max_incoming_packet_size = 10240;
  max_outgoing_packet_size = 10240;
  last_will = none;
  auto_reconnect = true;
  network_protocol = tcp;
}

-- A hub with three identifiers, in the state it begins in and when it is connected.
abbrev pub idle : World
idle = new_hub options v4 (1 ∷ 2 ∷ 3 ∷ [])

abbrev pub online : World
online = record idle { hub = record idle.hub { state = connected } }

abbrev pub trace : TracePublishQos QoS.exactly_once
trace = record {
  protocol = v4;
  id = 9;
  topic = 0x61 ∷ [];
  packet_id = 0;
  payload = [];
  retain = false;
}

abbrev pub sub : TraceSubscribe
sub = record { id = 8; subscribe = Subscribe.v4 0 (0 ∷ 1 ∷ 0x61 ∷ 0 ∷ []) }

-- The hub connects, sends a subscription and a publish of quality 2, and gets the first acknowledgements.
abbrev pub session : List Input
session =
    attempt [] (some (network_connected false))
    ∷ client_data (ClientData.subscribe sub)
    ∷ client_data (ClientData.publish_qos2 trace)
    ∷ hub_msg (recover_id 1)
    ∷ hub_msg (recover_id 2)
    ∷ []
