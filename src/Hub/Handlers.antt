-- ===== src/Hub/Handlers.antt =====
-- What the hub of src/tasks/task_hub/mod.rs does with a message while it is connected.
use for_mqtt_client.Base.{
  ℕ, Bool, true, false, Option, none, some, List, [], ◌∷◌, ◌++◌, ◌==◌, if◌then◌else◌,
}
use for_mqtt_client.Base.Maps.{contains_key, get, insert, remove}
use for_mqtt_client.Outcome.{Outcome, ok, err}
use for_mqtt_client.Ring.{RingCrate}
use for_mqtt_client.Packet.Qos.{QoSWithPacketId}
use for_mqtt_client.Packet.Publish.{Publish}
use for_mqtt_client.Client.Traces.{
  request_id, publish_with_id, subscribe_with_id, unsubscribe_with_id,
}
use for_mqtt_client.Client.Data.{
  ClientCommand, ClientData, disconnect_and_drop, violence_disconnect_and_drop, publish_qos0,
  publish_event, connected_err, text, debug_of,
}
use for_mqtt_client.Hub.Data.{
  HubMsg, recover_id, ping_success, ping_fail, keep_alive, rx_publish, affirm_rx_id,
  affirm_rx_publish, HubState, to_connect, to_disconnect, disconnected, ping_fail_reason,
  network_err, client_command, HubError, packet_id_err, NetworkEvent, network_connected,
  connect_fail, broker_disconnect,
}
use for_mqtt_client.Hub.Unacknowledged.{
  UnacknowledgedClientData, publish_qos1, publish_qos2, pub_rel, subscribe, unsubscribe,
  acknowledge, find, remove_found, replace_found,
}
use for_mqtt_client.Hub.World.{
  World, TaskHub, Task, ◌>>=◌, ◌>>◌, return, fail, get_hub, set_hub, set_state, spawn, call,
  EventBus, init_keep_alive_check, tell, start_publish_qos0, start_publish_qos1, start_publish_qos2,
  start_publish_qos2_rel, start_subscribe, start_unsubscribe, start_rx_qos1, start_rx_qos2,
  start_ping,
}

-- "ping fail"
abbrev pub ping_fail_text : List ℕ
ping_fail_text = 0x70 ∷ 0x69 ∷ 0x6E ∷ 0x67 ∷ 0x20 ∷ 0x66 ∷ 0x61 ∷ 0x69 ∷ 0x6C ∷ []

abbrev pub popped : World → Option (ℕ × List ℕ) → World × Outcome HubError ℕ
popped w none = (w, err packet_id_err)
popped w (some x) = (record w { pool = x.1 }, ok x.0)

abbrev pub pushed : World → Option (List ℕ) → World × Outcome HubError (Unit {0})
pushed w none = (w, err packet_id_err)
pushed w (some pool) = (record w { pool = pool }, ok tt)

module _ ⦃r : RingCrate⦄ where
  -- `set_packet_id(b).await?`, up to the identifier.
  unfoldable pub take_id : Task ℕ
  take_id w = popped w (request_id w.pool)

  -- `a.push(*id).map_err(..)?`
  unfoldable pub give_back : ℕ → Task (Unit {0})
  give_back id w = pushed w (r.push w.pool id)

-- `self.client_data.push_back(..)`
unfoldable pub enqueue : UnacknowledgedClientData → Task (Unit {0})
enqueue u = do h ← get_hub; set_hub (record h { client_data = h.client_data ++ (u ∷ []) })

module _ ⦃bus : EventBus⦄ where
  -- `UnacknowledgedClientData::to_acknowledge`
  unfoldable pub to_acknowledge : UnacknowledgedClientData → Task (Unit {0})
  to_acknowledge (publish_qos1 packet) = call (start_publish_qos1 packet)
  to_acknowledge (publish_qos2 packet) = call (start_publish_qos2 packet)
  to_acknowledge (pub_rel packet_id id protocol) =
      call (start_publish_qos2_rel packet_id id protocol)
  to_acknowledge (subscribe packet) = call (start_subscribe packet)
  to_acknowledge (unsubscribe packet) = call (start_unsubscribe packet)

module _ ⦃r : RingCrate⦄ ⦃bus : EventBus⦄ where
  -- What follows `acknowledge`: the request is complete, or goes into its next stage.
  abbrev pub settle : ℕ → TaskHub → UnacknowledgedClientData × Bool → Task (Unit {0})
  settle id h (obj, true) = do
    set_hub (record h { client_data = remove_found id h.client_data })
    init_keep_alive_check
    give_back id
  settle id h (obj, false) = do
    set_hub (record h { client_data = replace_found id obj h.client_data })
    to_acknowledge obj

  abbrev pub found : ℕ → TaskHub → Option UnacknowledgedClientData → Task (Unit {0})
  found id h none = return tt
  found id h (some obj) = settle id h (acknowledge obj)

  -- `HubMsg::RecoverId`
  unfoldable pub recover : ℕ → Task (Unit {0})
  recover id = do h ← get_hub; found id h (find id h.client_data)

module _ ⦃bus : EventBus⦄ where
  abbrev pub note_rx : ℕ → Publish → Task (Unit {0})
  note_rx id publish = do
    h ← get_hub
    set_hub (record h {
      rx_publish = insert id publish h.rx_publish;
      rx_publish_id = insert id id h.rx_publish_id;
    })

  abbrev pub receive_new : Publish → QoSWithPacketId → Task (Unit {0})
  receive_new publish QoSWithPacketId.at_most_once = call (tell (publish_event publish))
  receive_new publish (QoSWithPacketId.at_least_once id) = do
    h ← get_hub
    if contains_key id h.rx_publish_id
        then return tt
        else (do note_rx id publish; call (start_rx_qos1 id h.protocol))
  receive_new publish (QoSWithPacketId.exactly_once id) = do
    h ← get_hub
    if contains_key id h.rx_publish_id
        then return tt
        else (do call (start_rx_qos2 id publish.protocol); note_rx id publish)

  -- `HubMsg::RxPublish`
  unfoldable pub receive : Publish → Task (Unit {0})
  receive publish = receive_new publish publish.qos

  -- `HubMsg::AffirmRxId`
  unfoldable pub affirm_id : ℕ → Task (Unit {0})
  affirm_id id = do h ← get_hub; set_hub (record h { rx_publish_id = remove id h.rx_publish_id })

  abbrev pub deliver : ℕ → TaskHub → Option Publish → Task (Unit {0})
  deliver id h none = return tt
  deliver id h (some publish) = do
    set_hub (record h { rx_publish = remove id h.rx_publish })
    call (tell (publish_event publish))

  -- `HubMsg::AffirmRxPublish`
  unfoldable pub affirm_publish : ℕ → Task (Unit {0})
  affirm_publish id = do h ← get_hub; deliver id h (get id h.rx_publish)

  -- `HubMsg::KeepAlive`, with `KeepAliveTime::latest`.
  unfoldable pub check_alive : ℕ → Task (Unit {0})
  check_alive time w = (if w.keep_alive_id == time then call start_ping else return tt) w

module _ ⦃r : RingCrate⦄ ⦃bus : EventBus⦄ where
  unfoldable pub deal_hub_msg : HubMsg → Task (Unit {0})
  deal_hub_msg (recover_id id) = recover id
  deal_hub_msg ping_success = init_keep_alive_check
  deal_hub_msg ping_fail = do
    set_state (to_disconnect ping_fail_reason)
    call (tell (connected_err (text ping_fail_text)))
  deal_hub_msg (keep_alive time) = check_alive time
  deal_hub_msg (rx_publish publish) = receive publish
  deal_hub_msg (affirm_rx_id id) = affirm_id id
  deal_hub_msg (affirm_rx_publish id) = affirm_publish id

  unfoldable pub deal_client_data_when_connected : ClientData → Task (Unit {0})
  deal_client_data_when_connected (ClientData.subscribe trace) = do
    id ← take_id
    enqueue (subscribe (subscribe_with_id trace id))
    call (start_subscribe (subscribe_with_id trace id))
  deal_client_data_when_connected (ClientData.unsubscribe trace) = do
    id ← take_id
    enqueue (unsubscribe (unsubscribe_with_id trace id))
    call (start_unsubscribe (unsubscribe_with_id trace id))
  deal_client_data_when_connected (publish_qos0 packet) = spawn (start_publish_qos0 packet)
  deal_client_data_when_connected (ClientData.publish_qos1 packet) = do
    id ← take_id
    enqueue (publish_qos1 (publish_with_id packet id))
    call (start_publish_qos1 (publish_with_id packet id))
  deal_client_data_when_connected (ClientData.publish_qos2 packet) = do
    id ← take_id
    enqueue (publish_qos2 (publish_with_id packet id))
    call (start_publish_qos2 (publish_with_id packet id))

unfoldable pub deal_client_command_when_connected : ClientCommand → Task (Unit {0})
deal_client_command_when_connected disconnect_and_drop = set_state (to_disconnect client_command)
deal_client_command_when_connected violence_disconnect_and_drop = do
  set_state disconnected
  fail HubError.violence_disconnect_and_drop

-- What an automatic reconnection makes of the state.
abbrev pub reconnect : TaskHub → HubState
reconnect h = if h.options.auto_reconnect then to_connect else disconnected

module _ ⦃bus : EventBus⦄ where
  unfoldable pub update_connected_state_by_network_status : NetworkEvent → Task (Unit {0})
  update_connected_state_by_network_status (NetworkEvent.connected_err msg) = do
    call (tell (connected_err (text msg)))
    set_state (to_disconnect (network_err msg))
  update_connected_state_by_network_status (network_connected session_present) = return tt
  update_connected_state_by_network_status (connect_fail reason) = return tt
  update_connected_state_by_network_status (broker_disconnect packet) = do
    call (tell (connected_err (debug_of packet)))
    h ← get_hub
    set_state (reconnect h)
