-- ===== src/Hub/Connection.antt =====
-- `TaskHub::run` of src/tasks/task_hub/mod.rs: the states of the connection, one turn of the loop at a time.
-- What a turn waits for is its input.
use for_mqtt_client.Base.{ℕ, not, Option, none, some, List, [], ◌∷◌, if◌then◌else◌}
use for_mqtt_client.Outcome.{ok, err, panic, out_of_fuel}
use for_mqtt_client.Bytes.{BytesCrate}
use for_mqtt_client.Wire.{Read}
use for_mqtt_client.Ring.{RingCrate}
use for_mqtt_client.Packet.Connect.Write as ConnectPacket
use for_mqtt_client.Client.Data.{
  ClientCommand, ClientData, disconnect_and_drop, violence_disconnect_and_drop, connect_success,
  connect_fail, connected_err, debug_of,
}
use for_mqtt_client.Hub.Data.{
  HubMsg, HubState, to_connect, connected, to_disconnect, disconnected, ping_fail_reason,
  network_err, client_command, ToDisconnectReason, is_to_connect, is_connected, HubToConnectError,
  connect_channel_abnormal, connect_violence_disconnect_and_drop, connect_other, from_to_connect,
  NetworkEvent, network_connected, broker_disconnect,
}
use for_mqtt_client.Hub.Unacknowledged.{UnacknowledgedClientData}
use for_mqtt_client.Hub.World.{
  World, TaskHub, Task, ◌>>=◌, ◌>>◌, return, fail, get_hub, set_state, call, EventBus,
  init_keep_alive_check, tell, command_disconnect, start_network,
}
use for_mqtt_client.Hub.Handlers.{
  to_acknowledge, deal_hub_msg, deal_client_data_when_connected, deal_client_command_when_connected,
  reconnect, update_connected_state_by_network_status,
}

-- What a turn of the loop takes: in the state `ToConnect` the commands that wait and the event of the
-- network task that the turn then waits for, if its channel gives one; in the state `Connected` what
-- `select!` picks.
pub data Input : Type 0 where
  attempt : List ClientCommand → Option NetworkEvent → Input
  command : ClientCommand → Input
  network_status : NetworkEvent → Input
  client_data : ClientData → Input
  hub_msg : HubMsg → Input
  nothing : Input

abbrev pub fail_connect : {A : Type 0} → HubToConnectError → Task A
fail_connect e = fail (from_to_connect e)

unfoldable pub try_deal_client_command_when_to_connect : List ClientCommand → Task (Unit {0})
try_deal_client_command_when_to_connect [] = return tt
try_deal_client_command_when_to_connect (disconnect_and_drop ∷ cs) = do
  set_state disconnected
  try_deal_client_command_when_to_connect cs
try_deal_client_command_when_to_connect (violence_disconnect_and_drop ∷ cs) = do
  set_state disconnected
  fail_connect connect_violence_disconnect_and_drop

-- After a refusal: the next round of the loop, or the end.
abbrev pub try_again : TaskHub → Task (Unit {0})
try_again h =
    if h.options.auto_reconnect
    then return tt
    else (do set_state disconnected; fail_connect connect_channel_abnormal)

module _ ⦃bus : EventBus⦄ where
  abbrev pub on_status : NetworkEvent → Task (Unit {0})
  on_status (network_connected session_present) = do
    set_state connected
    init_keep_alive_check
    call (tell (connect_success session_present))
  on_status (NetworkEvent.connected_err reason) = return tt
  on_status (NetworkEvent.connect_fail reason) = do
    call (tell (connect_fail reason))
    h ← get_hub
    try_again h
  on_status (broker_disconnect packet) = do
    call (tell (connected_err (debug_of packet)))
    h ← get_hub
    try_again h

  abbrev pub wait_status : Option NetworkEvent → Task (Unit {0})
  wait_status none = fail_connect connect_channel_abnormal
  wait_status (some status) = on_status status

  abbrev pub start : Read (List ℕ) → Option NetworkEvent → Task (Unit {0})
  start (ok bytes) status = do call (start_network bytes); wait_status status
  start (err e) status = fail_connect connect_other
  start panic status = λ w. (w, panic)
  start out_of_fuel status = λ w. (w, out_of_fuel)

  unfoldable pub resend : List UnacknowledgedClientData → Task (Unit {0})
  resend [] = return tt
  resend (u ∷ us) = do to_acknowledge u; resend us

module _ ⦃b : BytesCrate⦄ ⦃bus : EventBus⦄ where
  abbrev pub connect_once : TaskHub → Option NetworkEvent → Task (Unit {0})
  connect_once h status =
      if not (is_to_connect h.state)
      then return tt
      else start (ConnectPacket.new h.options h.protocol) status

  -- One round of the loop in `run_to_connect`; the sleep between two rounds is left out.
  unfoldable pub run_to_connect : List ClientCommand → Option NetworkEvent → Task (Unit {0})
  run_to_connect commands status = do
    try_deal_client_command_when_to_connect commands
    h ← get_hub
    connect_once h status

  abbrev pub resend_if_connected : TaskHub → Task (Unit {0})
  resend_if_connected h = if is_connected h.state then resend h.client_data else return tt

  -- The branch `ToConnect` of `run`.
  unfoldable pub turn_to_connect : List ClientCommand → Option NetworkEvent → Task (Unit {0})
  turn_to_connect commands status = do
    run_to_connect commands status
    h ← get_hub
    resend_if_connected h

module _ ⦃bus : EventBus⦄ where
  abbrev pub after_disconnect : ToDisconnectReason → TaskHub → HubState
  after_disconnect ping_fail_reason h = reconnect h
  after_disconnect client_command h = disconnected
  after_disconnect (network_err msg) h = reconnect h

  -- The branch `ToDisconnect` of `run`.
  unfoldable pub turn_to_disconnect : ToDisconnectReason → Task (Unit {0})
  turn_to_disconnect reason = do
    call command_disconnect
    h ← get_hub
    set_state (after_disconnect reason h)

module _ ⦃r : RingCrate⦄ ⦃bus : EventBus⦄ where
  -- A turn of the loop in `run_connected`.
  unfoldable pub turn_connected : Input → Task (Unit {0})
  turn_connected (command c) = deal_client_command_when_connected c
  turn_connected (network_status s) = update_connected_state_by_network_status s
  turn_connected (client_data d) = deal_client_data_when_connected d
  turn_connected (hub_msg m) = deal_hub_msg m
  turn_connected (attempt commands status) = return tt
  turn_connected nothing = return tt

module _ ⦃b : BytesCrate⦄ ⦃r : RingCrate⦄ ⦃bus : EventBus⦄ where
  -- An input that does not belong to the state leaves the hub as it is.
  abbrev pub turn_in : HubState → Input → Task (Unit {0})
  turn_in to_connect (attempt commands status) = turn_to_connect commands status
  turn_in to_connect _ = return tt
  turn_in connected i = turn_connected i
  turn_in (to_disconnect reason) i = turn_to_disconnect reason
  turn_in disconnected i = return tt

  -- The loop that `connect` spawns goes on with the hub that a failed turn leaves.
  unfoldable pub turn : Input → World → World
  turn i w = (turn_in w.hub.state i w).0

  unfoldable pub run : List Input → World → World
  run [] w = w
  run (i ∷ is) w = run is (turn i w)
