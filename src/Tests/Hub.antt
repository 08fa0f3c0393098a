-- ===== src/Tests/Hub.antt =====
-- The hub on concrete messages.
use for_mqtt_client.Base.{ℕ, true, arith, ◌≡◌, ◌≢◌, ◌≤◌, refl, List, [], ◌∷◌, some}
use for_mqtt_client.Outcome.{ok, err}
use for_mqtt_client.Protocol.{v4, v5}
use for_mqtt_client.Ring.{capacity}
use for_mqtt_client.Client.Data.{publish_event, connect_success, disconnect_and_drop}
use for_mqtt_client.Hub.Data.{
  connected, disconnected, network_connected, rx_publish, affirm_rx_publish, packet_id_err,
}
use for_mqtt_client.Hub.World.{
  World, ◌>>◌, arm_keep_alive, start_network, command_disconnect, tell, start_rx_qos2,
}
use for_mqtt_client.Hub.Handlers.{deal_hub_msg, recover}
use for_mqtt_client.Hub.Connection.{Input, attempt, command, nothing, hub_msg, turn, run}
use for_mqtt_client.Hub.Unacknowledged.{pub_rel}
use for_mqtt_client.Hub.Reconnect.{then_tasks, turn_reconnects, run_disconnects}
use for_mqtt_client.Packet.Connect.Write as ConnectPacket
use for_mqtt_client.Wire.{write_mqtt_string, write_mqtt_bytes}
use for_mqtt_client.Wire.Lengths.{groups, write_remaining_length-groups}
use for_mqtt_client.Hub.Pool.{count_ids}
use for_mqtt_client.Hub.Ownership.{Owns, run-Owns, recover-no_error}
use for_mqtt_client.Hub.Identifiers.{
  numbers, slots, new_hub, connect, connect_lem, run-identifiers, new_hub-Owns,
}
use for_mqtt_client.Hub.Delivery.{delivered, pending}
use for_mqtt_client.Hub.Once.{run-once}
use for_mqtt_client.Hub.Receive.{receive_then_deliver}
use for_mqtt_client.Tests.Samples.{exact, options, idle, online, session, bytes, ring, open_bus}

-- The broker sends a publish twice before its handshake goes on, and twice after.
abbrev repeated : List Input
repeated =
    hub_msg (rx_publish exact)
    ∷ hub_msg (rx_publish exact)
    ∷ hub_msg (affirm_rx_publish 5)
    ∷ hub_msg (rx_publish exact)
    ∷ hub_msg (affirm_rx_publish 5)
    ∷ []

run-once_example : delivered 5 (run repeated online).done ≤ pending 5 online
run-once_example = run-once 5 repeated online (tt, (tt, (tt, (tt, (tt, tt)))))

run-identifiers_example :
    count_ids 2 (run session (new_hub options v4 (numbers 1 capacity))).hub.client_data
    ≤ slots capacity 1 2
run-identifiers_example =
    run-identifiers options v4 session 2 (new_hub options v4 (numbers 1 capacity))
      (connect_lem options v4)

connect_lem_example : connect options v4 ≡ some (new_hub options v4 (numbers 1 capacity))
connect_lem_example = connect_lem options v4

run-Owns_example : Owns (1 ∷ 2 ∷ 3 ∷ []) (run session idle)
run-Owns_example =
    run-Owns (1 ∷ 2 ∷ 3 ∷ []) session idle (omega arith) (new_hub-Owns options v4 (1 ∷ 2 ∷ 3 ∷ []))

recover-no_error_example : (recover 2 (run session idle)).1 ≢ err packet_id_err
recover-no_error_example = recover-no_error (1 ∷ 2 ∷ 3 ∷ []) 2 (run session idle) (omega arith) (
    run-Owns (1 ∷ 2 ∷ 3 ∷ []) session idle (omega arith) (new_hub-Owns options v4 (1 ∷ 2 ∷ 3 ∷ [])))

receive_then_deliver_example :
    ((deal_hub_msg (rx_publish exact) >> deal_hub_msg (affirm_rx_publish 5)) online).0.done
    ≡ tell (publish_event exact) ∷ start_rx_qos2 5 v5 ∷ []
unfolding new_hub open_bus
receive_then_deliver_example = receive_then_deliver exact 5 online refl refl refl refl

-- The hub with one request that waits, off line.
abbrev waiting : World
waiting = record idle { hub = record idle.hub { client_data = pub_rel 7 9 v4 ∷ [] } }

-- The bytes of the connect packet of the options.
abbrev connect_bytes : List ℕ
connect_bytes = 0x10 ∷ 13 ∷ 0 ∷ 4 ∷ 0x4D ∷ 0x51 ∷ 0x54 ∷ 0x54 ∷ 4 ∷ 2 ∷ 0 ∷ 60 ∷ 0 ∷ 1 ∷ 0x63 ∷ []

connect_runs : ConnectPacket.new options v4 ≡ ok connect_bytes
unfolding ConnectPacket.new ConnectPacket.write ConnectPacket.store ConnectPacket.len
    write_mqtt_string write_mqtt_bytes bytes groups
connect_runs = rw (write_remaining_length-groups (0x10 ∷ []) 13 (omega arith)) refl

turn_reconnects_example :
    ((turn (attempt [] (some (network_connected true))) waiting).hub.state ≡ connected)
    × ((turn (attempt [] (some (network_connected true))) waiting).done
        ≡ then_tasks waiting.hub.client_data
            (tell (connect_success true) ∷ arm_keep_alive 1 60 ∷ start_network connect_bytes ∷ []))
unfolding new_hub
turn_reconnects_example =
    turn_reconnects waiting connect_bytes true (λ n. unfold open_bus in refl)
      (unfold new_hub in refl) connect_runs

run_disconnects_example :
    ((run (command disconnect_and_drop ∷ nothing ∷ repeated) online).hub.state ≡ disconnected)
    × ((run (command disconnect_and_drop ∷ nothing ∷ repeated) online).done
        ≡ command_disconnect ∷ [])
unfolding new_hub open_bus
run_disconnects_example = run_disconnects online nothing repeated refl refl
