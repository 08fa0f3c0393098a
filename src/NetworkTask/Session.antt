-- ===== src/NetworkTask/Session.antt =====
-- A whole connection of the network task of src/tasks/task_network/mod.rs, from the connect packet to the
-- disconnect packet.
use for_mqtt_client.Base.{ℕ, suc, ◌≡◌, refl, ap, ◌∙◌, true, List, [], ◌∷◌, ◌++◌, All, arith}
use for_mqtt_client.Outcome.{err, ok}
use for_mqtt_client.Protocol.{Protocol, v4, v5}
use for_mqtt_client.Bytes.{BytesCrate, IsByte}
use for_mqtt_client.Packet.Publish.{Publish}
use for_mqtt_client.Packet.ConnAck.{ConnAck}
use for_mqtt_client.Packet.ConnAck.Codes.{ConnectReturnCode}
use for_mqtt_client.Packet.Disconnect.{new, data_of}
use for_mqtt_client.Packet.Disconnect as DisconnectPacket
use for_mqtt_client.Hub.Data.{network_connected}
use for_mqtt_client.Task.{◌>>◌, Stop}
use for_mqtt_client.NetworkTask.Data.{
  connected, disconnected, to_disconnect, is_connected, command, disconnect,
  hub_command_to_disconnect,
}
use for_mqtt_client.NetworkTask.World.{
  Link, Host, Input, from_stream, from_bus, arrived, wrote, dispatched, network_event, write_all,
  set_inputs,
}
use for_mqtt_client.NetworkTask.Connection.{
  on_input, deal_network_data, deal_hub_network_command, select_loop, run_connected,
  run_to_disconnected, state_loop, run_to_end, reported, by_state, after_connected, run,
}
use for_mqtt_client.NetworkTask.Drains.{Drains}
use for_mqtt_client.NetworkTask.Refinement.{told}
use for_mqtt_client.NetworkTask.Chunks.{
  arrivals, joined, IsPiece, while_connected-on, pieces-Drains,
}
use for_mqtt_client.NetworkTask.Publishes.{
  publish_events, written, packets, events-packets, IsSent, written-Drains,
}
use for_mqtt_client.NetworkTask.Handshake.{IsFine, IsAnswered, run_to_connect-fine}

module _ ⦃b : BytesCrate⦄ where
  -- Bytes that do not hold a whole packet yet, perhaps none.
  pub record IsStart (v : Protocol) (rest : List ℕ) : Type 0 where
    pub bytes : All IsByte rest
    pub no_packet : Drains v rest [] rest

  goodbye : (v : Protocol) → data_of (new v) ≡ 0xE0 ∷ 0x00 ∷ []
  unfolding data_of new DisconnectPacket.write DisconnectPacket.len
  goodbye v4 = rw (b.put_u8_law [] 0xE0 (omega arith)) (b.put_u8_law (0xE0 ∷ []) 0 (omega arith))
  goodbye v5 = rw (b.put_u8_law [] 0xE0 (omega arith)) (b.put_u8_law (0xE0 ∷ []) 0 (omega arith))

  module _ ⦃host : Host⦄ (fine : IsFine host) where
    -- The command to disconnect, with whatever inputs behind it.
    leave :
        (inputs : List Input) (w : Link)
        → is_connected w.task.state ≡ true
        → select_loop (from_bus (command disconnect) ∷ inputs) w ≡ (
          record w { task = record w.task { state = to_disconnect }; inputs = inputs },
          err (Stop.failed hub_command_to_disconnect),
        )
    unfolding select_loop on_input deal_network_data deal_hub_network_command
    leave inputs w on =
        while_connected-on fine.bus
          (set_inputs inputs >> on_input (from_bus (command disconnect)) >> select_loop inputs) w on

    -- A connected task that is told to disconnect says so to the broker, and ends.
    disconnects :
        (w : Link)
        → w.task.state ≡ to_disconnect
        → state_loop 2 w ≡ (
          record w {
            task = record w.task { state = disconnected };
            calls = suc w.calls;
            done = wrote (0xE0 ∷ 0x00 ∷ []) ∷ w.done;
          },
          ok tt,
        )
    unfolding state_loop run_to_disconnected write_all
    disconnects w leaving = rw (leaving, fine.writes w.calls, goodbye w.task.version) refl

    -- The task between the acknowledgement and the command to disconnect.
    abbrev pub joined_in : Link → ConnAck → List ℕ → Link
    joined_in w ack rest = record w {
      task = record w.task { state = connected };
      buf = rest;
      calls = suc (suc w.calls);
      done =
          dispatched (network_event (network_connected ack.session_present))
          ∷ wrote w.task.connect_packet
          ∷ w.done;
    }

    -- And behind it.
    abbrev pub left : Link → List Input → Link
    left w later = record w {
      task = record w.task { state = disconnected };
      buf = [];
      inputs = later;
      calls = suc w.calls;
      done = wrote (0xE0 ∷ 0x00 ∷ []) ∷ w.done;
    }

    connected_session :
        (w : Link) (cs : List (List ℕ)) (later : List Input) (ps : List Publish)
        → w.task.state ≡ connected
        → IsStart w.task.version w.buf
        → w.inputs ≡ arrivals cs ++ (from_bus (command disconnect) ∷ later)
        → All (IsSent w.task.version) ps
        → All IsPiece cs
        → w.buf ++ joined cs ≡ written ps
        → state_loop 3 w ≡ (left (told (publish_events ps) w) later, ok tt)
    unfolding state_loop run_connected
    connected_session w cs later ps on start waiting hp hc e =
        let is_on = ap is_connected on in
        let tail = from_bus (command disconnect) ∷ later in
        let heard : Link = record (told (publish_events ps) w) { buf = []; inputs = tail } in
        let drains : Drains w.task.version (w.buf ++ joined cs) (packets ps) [] =
          rw e (written-Drains w.task.version ps hp) in
        let stopped : select_loop w.inputs w ≡ (
          record heard { task = record w.task { state = to_disconnect }; inputs = later },
          err (Stop.failed hub_command_to_disconnect),
        ) =
          ap (λ l. select_loop l (record w { inputs = l })) waiting
          ∙ pieces-Drains fine.bus cs tail w (packets ps) [] is_on start.bytes hc start.no_packet
              drains
          ∙ ap (λ es. select_loop tail (record (told es w) { buf = []; inputs = tail }))
              (events-packets ps)
          ∙ leave later heard is_on in
        ap (λ state. by_state (state_loop 2) state w) on
        ∙ ap (after_connected (state_loop 2)) stopped
        ∙ disconnects
            (record heard { task = record w.task { state = to_disconnect }; inputs = later }) refl

    -- A whole connection: no call fails. The first read of the stream is an acknowledgement of
    -- success, and behind it perhaps the start of a packet, but no whole one. What stands behind
    -- the acknowledgement in all reads together is publishes as in the round trip, and the reads
    -- behind the first cut it up anyhow; then the hub wants to disconnect. The task writes the
    -- connect packet, tells the hub that it is connected, passes on every publish once and in its
    -- order, writes the disconnect packet of two bytes and ends, disconnected, without a look at
    -- what comes later.
    pub run-session :
        (w : Link) (s rest : List ℕ) (cs : List (List ℕ)) (later : List Input) (ack : ConnAck)
        (ps : List Publish)
        → w.inputs
          ≡ from_stream (arrived s) ∷ (arrivals cs ++ (from_bus (command disconnect) ∷ later))
        → IsAnswered w s ack rest
        → ack.code ≡ ConnectReturnCode.success
        → IsStart w.task.version rest
        → All (IsSent w.task.version) ps
        → All IsPiece cs
        → rest ++ joined cs ≡ written ps
        → run w ≡ left (told (publish_events ps) (joined_in w ack rest)) later
    unfolding run run_to_end
    run-session w s rest cs later ack ps waiting answer success start hp hc e =
        let tail = arrivals cs ++ (from_bus (command disconnect) ∷ later) in
        let begun = run_to_connect-fine fine w s tail ack rest waiting answer success in
        rw begun (
          ap reported (
            connected_session (record (joined_in w ack rest) { inputs = tail }) cs later ps refl
              start refl hp hc e))
