-- ===== src/NetworkTask/Connection.antt =====
-- `run` of src/tasks/task_network/mod.rs: how a connection begins, what the task does while it stands, and
-- how it ends.
use for_mqtt_client.Base.{ℕ, zero, suc, Bool, true, false, Option, none, some, List, [], ◌∷◌}
use for_mqtt_client.Outcome.{Outcome, ok, err, panic, out_of_fuel}
use for_mqtt_client.Bytes.{BytesCrate}
use for_mqtt_client.Wire.{Read}
use for_mqtt_client.Packet.ConnAck.Codes.{ConnectReturnCode}
use for_mqtt_client.Packet.Disconnect.{new, data_of}
use for_mqtt_client.Network.{Packet, conn_ack_packet, packet_ty, read_from_network}
use for_mqtt_client.Client.Data.{ToConnectError, not_conn_ack, packet_error, broker_refuse}
use for_mqtt_client.Hub.Data as HubData
use for_mqtt_client.Task.{Stop, Task, ◌>>=◌, ◌>>◌, return, fail, wait, converting}
use for_mqtt_client.NetworkTask.Data.{
  NetworkState, connected, to_disconnect, disconnected, is_connected, HubNetworkCommand, disconnect,
  DataWaitingToBeSend, NetworkData, command, sending, NetworkTasksError, network_error,
  channel_abnormal, hub_command_to_disconnect, connect_fail, bus_to_connect, bus_to_network,
  io_to_connect, io_to_network, connect_to_network, time_out_text, no_bytes_text,
}
use for_mqtt_client.NetworkTask.World.{
  Reading, arrived, broken, Input, from_stream, from_bus, bus_closed, Link, Host, network_event,
  set_state, set_inputs, append_to_buf, confirm, dispatch_event, write_all, stream_init,
}
use for_mqtt_client.NetworkTask.Receive.{deal_connected_network_packet}

module _ ⦃host : Host⦄ ⦃b : BytesCrate⦄ where
  -- `read_from_network(buf, self.version)?`
  unfoldable pub found : Read (Option Packet) → Task Link ToConnectError (Option Packet)
  found (ok packet) = return packet
  found (err e) = fail (packet_error e)
  found panic = λ w. (w, panic)
  found out_of_fuel = λ w. (w, out_of_fuel)

  abbrev pub take_packet : Task Link ToConnectError (Option Packet)
  take_packet w =
      let (rest, r) = read_from_network w.buf w.task.version in found r (record w { buf = rest })

  abbrev pub or_again :
      Task Link ToConnectError Packet → Option Packet → Task Link ToConnectError Packet
  or_again again none = again
  or_again again (some packet) = return packet

  -- The loop of `_run_to_connect`. It reads the stream only: what the bus holds stays there.
  unfoldable pub first_packet : List Input → Task Link ToConnectError Packet
  first_packet [] = wait
  first_packet (from_stream (arrived []) ∷ inputs) =
      set_inputs inputs >> fail (ToConnectError.network_error time_out_text)
  first_packet (from_stream (arrived (x ∷ bytes)) ∷ inputs) =
      set_inputs inputs
      >> append_to_buf (x ∷ bytes)
      >> take_packet
      >>= or_again (first_packet inputs)
  first_packet (from_stream (broken msg) ∷ inputs) = set_inputs inputs >> fail (io_to_connect msg)
  first_packet (from_bus m ∷ inputs) = wait
  first_packet (bus_closed e ∷ inputs) = wait

  unfoldable pub check_code : Bool → ConnectReturnCode → Task Link ToConnectError Bool
  check_code session_present ConnectReturnCode.success = return session_present
  check_code session_present (ConnectReturnCode.fail code) = fail (broker_refuse code)

  -- `let Packet::ConnAck(ack) = packet else …`
  unfoldable pub check_conn_ack : Packet → Task Link ToConnectError Bool
  check_conn_ack (conn_ack_packet ack) = check_code ack.session_present ack.code
  check_conn_ack packet = fail (not_conn_ack (packet_ty packet))

  -- `_run_to_connect`
  unfoldable pub connect_to_broker : Task Link ToConnectError Bool
  connect_to_broker w =
      (converting io_to_connect (write_all w.task.connect_packet)
          >> first_packet w.inputs
          >>= check_conn_ack)
        w

  unfoldable pub run_to_connect : Task Link ToConnectError (Unit {0})
  run_to_connect w =
      (stream_init w.task.network_protocol w.task.addr w.task.port
          >> connect_to_broker
          >>= λ session_present.
              converting bus_to_connect
                (dispatch_event (network_event (HubData.network_connected session_present)))
              >> set_state connected)
        w

  unfoldable pub deal_hub_network_command :
      HubNetworkCommand → Task Link NetworkTasksError (Unit {0})
  deal_hub_network_command disconnect = set_state to_disconnect >> fail hub_command_to_disconnect

  unfoldable pub deal_inner_msg : DataWaitingToBeSend → Task Link NetworkTasksError (Unit {0})
  deal_inner_msg msg = converting io_to_network (write_all msg.bytes) >> confirm msg.receipter

  unfoldable pub deal_network_data : NetworkData → Task Link NetworkTasksError (Unit {0})
  deal_network_data (command c) = deal_hub_network_command c
  deal_network_data (sending msg) = deal_inner_msg msg

  -- The branch of `select!` for the stream.
  unfoldable pub on_reading : Reading → Task Link NetworkTasksError (Unit {0})
  on_reading (arrived []) = fail (network_error no_bytes_text)
  on_reading (arrived (x ∷ bytes)) = append_to_buf (x ∷ bytes) >> deal_connected_network_packet
  on_reading (broken msg) = fail (io_to_network msg)

  -- `select!`, by what is ready.
  unfoldable pub on_input : Input → Task Link NetworkTasksError (Unit {0})
  on_input (from_stream r) = on_reading r
  on_input (from_bus m) = deal_network_data m
  on_input (bus_closed e) = fail (bus_to_network e)

  abbrev pub while_connected :
      Task Link NetworkTasksError (Unit {0}) → Task Link NetworkTasksError (Unit {0})
  while_connected m w = elim (is_connected w.task.state) [ true ↦ m w | false ↦ (w, ok tt) ]

  -- The loop of `run_connected`.
  unfoldable pub select_loop : List Input → Task Link NetworkTasksError (Unit {0})
  select_loop [] = while_connected wait
  select_loop (i ∷ inputs) = while_connected (set_inputs inputs >> on_input i >> select_loop inputs)

  unfoldable pub run_connected : Task Link NetworkTasksError (Unit {0})
  run_connected w = select_loop w.inputs w

  unfoldable pub run_to_disconnected : Task Link NetworkTasksError (Unit {0})
  run_to_disconnected w =
      (converting io_to_network (write_all (data_of (new w.task.version)))
          >> set_state disconnected)
        w

  -- `if let Err(e) = self.run_connected(…)`: the command of the hub is no error here.
  abbrev pub after_connected :
      Task Link NetworkTasksError (Unit {0})
      → Link × Outcome (Stop NetworkTasksError) (Unit {0})
      → Link × Outcome (Stop NetworkTasksError) (Unit {0})
  after_connected again (w, ok u) = again w
  after_connected again (w, err (Stop.failed hub_command_to_disconnect)) = again w
  after_connected again (w, r) = (w, r)

  -- One round of the loop of `_run`.
  abbrev pub by_state :
      Task Link NetworkTasksError (Unit {0}) → NetworkState → Task Link NetworkTasksError (Unit {0})
  by_state again connected = λ w. after_connected again (run_connected w)
  by_state again to_disconnect = run_to_disconnected >> again
  by_state again _ = return tt

  unfoldable pub state_loop : ℕ → Task Link NetworkTasksError (Unit {0})
  state_loop zero = λ w. (w, out_of_fuel)
  state_loop (suc n) = λ w. by_state (state_loop n) w.task.state w

  -- `_run`: connected, then to disconnect, then disconnected, so three rounds are enough.
  unfoldable pub run_to_end : Task Link NetworkTasksError (Unit {0})
  run_to_end = converting connect_to_network run_to_connect >> state_loop 3

  -- What `run` tells the hub of an error; a bus that is closed is only logged.
  unfoldable pub report : Stop NetworkTasksError → Link → Link
  report (Stop.failed (network_error msg)) w =
      (dispatch_event (network_event (HubData.connected_err msg)) w).0
  report (Stop.failed (connect_fail reason)) w =
      (dispatch_event (network_event (HubData.connect_fail reason)) w).0
  report (Stop.failed channel_abnormal) w = w
  report (Stop.failed hub_command_to_disconnect) w = w
  report Stop.waits w = w

  abbrev pub reported : Link × Outcome (Stop NetworkTasksError) (Unit {0}) → Link
  reported (w, err e) = report e w
  reported (w, _) = w

  unfoldable pub run : Link → Link
  run w = reported (run_to_end w)
