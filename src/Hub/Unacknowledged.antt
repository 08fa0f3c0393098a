-- ===== src/Hub/Unacknowledged.antt =====
-- src/tasks/task_hub/unacknowledged.rs: the requests that the broker has not acknowledged yet.
use for_mqtt_client.Base.{
  ℕ, Bool, true, false, Option, none, some, List, [], ◌∷◌, ◌==◌, if◌then◌else◌,
}
use for_mqtt_client.Protocol.{Protocol}
use for_mqtt_client.Packet.Qos.{QoS}
use for_mqtt_client.Client.Traces.{
  TracePublishQos, TraceSubscribe, TraceUnubscribe, subscribe_packet_id, unsubscribe_packet_id,
}

pub data UnacknowledgedClientData : Type 0 where
  publish_qos1 : TracePublishQos QoS.at_least_once → UnacknowledgedClientData
  publish_qos2 : TracePublishQos QoS.exactly_once → UnacknowledgedClientData
  -- The packet identifier, and the user's number.
  pub_rel : ℕ → ℕ → Protocol → UnacknowledgedClientData
  subscribe : TraceSubscribe → UnacknowledgedClientData
  unsubscribe : TraceUnubscribe → UnacknowledgedClientData

unfoldable pub packet_id : UnacknowledgedClientData → ℕ
packet_id (pub_rel id trace_id protocol) = id
packet_id (subscribe packet) = subscribe_packet_id packet
packet_id (unsubscribe packet) = unsubscribe_packet_id packet
packet_id (publish_qos1 packet) = packet.packet_id
packet_id (publish_qos2 packet) = packet.packet_id

-- What is left in the queue's place, and whether the request is complete.
unfoldable pub acknowledge : UnacknowledgedClientData → UnacknowledgedClientData × Bool
acknowledge (publish_qos2 packet) = (pub_rel packet.packet_id packet.id packet.protocol, false)
acknowledge (pub_rel id trace_id protocol) = (pub_rel id trace_id protocol, true)
acknowledge (subscribe packet) = (subscribe packet, true)
acknowledge (unsubscribe packet) = (unsubscribe packet, true)
acknowledge (publish_qos1 packet) = (publish_qos1 packet, true)

-- `iter_mut().enumerate().find(..)`: the first request with the identifier.
unfoldable pub find : ℕ → List UnacknowledgedClientData → Option UnacknowledgedClientData
find id [] = none
find id (u ∷ us) = if packet_id u == id then some u else find id us

-- `remove(index)`, at the index that `find` has found.
unfoldable pub remove_found : ℕ → List UnacknowledgedClientData → List UnacknowledgedClientData
remove_found id [] = []
remove_found id (u ∷ us) =
    let rest = remove_found id us in if packet_id u == id then us else u ∷ rest

-- `mem::replace` of the request that `find` has found.
unfoldable pub replace_found :
    ℕ → UnacknowledgedClientData → List UnacknowledgedClientData → List UnacknowledgedClientData
replace_found id new [] = []
replace_found id new (u ∷ us) =
    let rest = replace_found id new us in if packet_id u == id then new ∷ us else u ∷ rest
