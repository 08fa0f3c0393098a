-- ===== src/Hub/Reconnect.antt =====
-- How the connection of src/tasks/task_hub/mod.rs begins again, and how it ends.
use for_mqtt_client.Base.{
  ℕ, suc, ◌+◌, ◌%◌, ◌^◌, Bool, true, Option, some, List, [], ◌∷◌, ◌≡◌, refl, ap, ◌∙◌,
}
use for_mqtt_client.Outcome.{ok}
use for_mqtt_client.Bytes.{BytesCrate}
use for_mqtt_client.Ring.{RingCrate}
use for_mqtt_client.Packet.Connect.Write as ConnectPacket
use for_mqtt_client.Client.Data.{disconnect_and_drop, connect_success}
use for_mqtt_client.Hub.Data.{
  NetworkEvent, to_connect, connected, to_disconnect, client_command, disconnected,
  network_connected,
}
use for_mqtt_client.Hub.Unacknowledged.{
  UnacknowledgedClientData, publish_qos1, publish_qos2, pub_rel, subscribe, unsubscribe,
}
use for_mqtt_client.Hub.World.{
  World, TaskHub, Action, continue_with, get_hub, set_state, ◌>>=◌, spawn, call, EventBus,
  init_keep_alive_check, tell, command_disconnect, start_network, arm_keep_alive,
  start_publish_qos1, start_publish_qos2, start_publish_qos2_rel, start_subscribe,
  start_unsubscribe,
}
use for_mqtt_client.Hub.Handlers.{to_acknowledge, deal_client_command_when_connected}
use for_mqtt_client.Hub.Connection.{
  Input, attempt, command, start, connect_once, after_disconnect, resend_if_connected,
  try_deal_client_command_when_to_connect, resend, run_to_connect, turn_to_connect,
  turn_to_disconnect, turn_connected, turn_in, turn, run,
}

-- The task that takes up a request.
abbrev pub task_of : UnacknowledgedClientData → Action
task_of (publish_qos1 packet) = start_publish_qos1 packet
task_of (publish_qos2 packet) = start_publish_qos2 packet
task_of (pub_rel packet_id id protocol) = start_publish_qos2_rel packet_id id protocol
task_of (subscribe packet) = start_subscribe packet
task_of (unsubscribe packet) = start_unsubscribe packet

-- The actions with the tasks of the requests started after them, in the order of the queue.
unfoldable pub then_tasks : List UnacknowledgedClientData → List Action → List Action
then_tasks [] done = done
then_tasks (u ∷ us) done = then_tasks us (task_of u ∷ done)

module _ ⦃bus : EventBus⦄ where
  call_accepted :
      (a : Action) (w : World)
      → bus.accepts w.calls ≡ true
      → call a w ≡ (record w { calls = suc w.calls; done = a ∷ w.done }, ok tt)
  unfolding call
  call_accepted a w e = rw e

module _ ⦃bus : EventBus⦄ (accepted : (n : ℕ) → bus.accepts n ≡ true) where
  call_open :
      (a : Action) (w : World)
      → call a w ≡ (record w { calls = suc w.calls; done = a ∷ w.done }, ok tt)
  call_open a w = call_accepted a w (accepted w.calls)

  acknowledge_open :
      (u : UnacknowledgedClientData) (w : World)
      → to_acknowledge u w ≡ (record w { calls = suc w.calls; done = task_of u ∷ w.done }, ok tt)
  unfolding to_acknowledge
  acknowledge_open (publish_qos1 packet) w = call_open _ w
  acknowledge_open (publish_qos2 packet) w = call_open _ w
  acknowledge_open (pub_rel packet_id id protocol) w = call_open _ w
  acknowledge_open (subscribe packet) w = call_open _ w
  acknowledge_open (unsubscribe packet) w = call_open _ w

  -- Every request is taken up again, and the hub stays as it is.
  pub resend_open :
      (us : List UnacknowledgedClientData) (w : World)
      → ((resend us w).0.done ≡ then_tasks us w.done) × ((resend us w).0.hub ≡ w.hub)
  unfolding resend then_tasks
  resend_open [] w = (refl, refl)
  resend_open (u ∷ us) w =
      rw (acknowledge_open u w)
        (resend_open us (record w { calls = suc w.calls; done = task_of u ∷ w.done }))

  start_open :
      (w : World) (bytes : List ℕ) (session_present : Bool)
      → start (ok bytes) (some (network_connected session_present)) w ≡ (
        record w {
          hub = record w.hub { state = connected };
          keep_alive_id = (w.keep_alive_id + 1) % 2 ^ 32;
          calls = suc (suc w.calls);
          done =
              tell (connect_success session_present)
              ∷ arm_keep_alive ((w.keep_alive_id + 1) % 2 ^ 32) w.hub.options.keep_alive
              ∷ start_network bytes
              ∷ w.done;
        },
        ok tt,
      )
  unfolding init_keep_alive_check spawn
  start_open w bytes session_present =
      rw (call_open (start_network bytes) w) (call_open (tell (connect_success session_present)) _)

module _ ⦃b : BytesCrate⦄ ⦃bus : EventBus⦄ where
  connect_once_lem :
      (h : TaskHub) (w : World) (bytes : List ℕ) (status : Option NetworkEvent)
      → h.state ≡ to_connect
      → ConnectPacket.new h.options h.protocol ≡ ok bytes
      → connect_once h status w ≡ start (ok bytes) status w
  connect_once_lem h w bytes status s e = rw (s, e)

module _ ⦃b : BytesCrate⦄ ⦃r : RingCrate⦄ ⦃bus : EventBus⦄ where
  -- Where every call of the bus succeeds, a turn in which the network task reports a connection
  -- starts that task with the bytes of the connect packet, makes the hub connected, and then starts
  -- the task of every waiting request again, in the order of the queue.
  pub turn_reconnects :
      (w : World) (bytes : List ℕ) (session_present : Bool)
      → ((n : ℕ) → bus.accepts n ≡ true)
      → w.hub.state ≡ to_connect
      → ConnectPacket.new w.hub.options w.hub.protocol ≡ ok bytes
      → ((turn (attempt [] (some (network_connected session_present))) w).hub.state ≡ connected)
        × ((turn (attempt [] (some (network_connected session_present))) w).done
            ≡ then_tasks w.hub.client_data (
                tell (connect_success session_present)
                ∷ arm_keep_alive ((w.keep_alive_id + 1) % 2 ^ 32) w.hub.options.keep_alive
                ∷ start_network bytes
                ∷ w.done))
  unfolding turn turn_to_connect run_to_connect try_deal_client_command_when_to_connect
      init_keep_alive_check spawn
  turn_reconnects w bytes session_present accepted s e =
      let online = record w {
        hub = record w.hub { state = connected };
        keep_alive_id = (w.keep_alive_id + 1) % 2 ^ 32;
        calls = suc (suc w.calls);
        done =
            tell (connect_success session_present)
            ∷ arm_keep_alive ((w.keep_alive_id + 1) % 2 ^ 32) w.hub.options.keep_alive
            ∷ start_network bytes
            ∷ w.done;
      } in
      let status = some (network_connected session_present) in
      let all : turn (attempt [] status) w ≡ (resend w.hub.client_data online).0 =
        ap (λ state. (turn_in state (attempt [] status) w).0) s
        ∙ ap (λ t. (continue_with (λ _. get_hub >>= resend_if_connected) t).0)
            (connect_once_lem w.hub w bytes status s e
              ∙ start_open accepted w bytes session_present) in
      let resent = resend_open accepted w.hub.client_data online in
      (ap (λ t. t.hub.state) all ∙ ap (λ h. h.state) resent.1, ap (λ t. t.done) all ∙ resent.0)

  disconnected_stays : (is : List Input) (w : World) → w.hub.state ≡ disconnected → run is w ≡ w
  unfolding run turn
  disconnected_stays [] w s = refl
  disconnected_stays (i ∷ is) w s =
      ap (run is) (ap (λ state. (turn_in state i w).0) s) ∙ disconnected_stays is w s

  -- If the bus takes the call, the command to disconnect brings a connected hub to the end within
  -- two turns: the network task is told to disconnect, and whatever comes afterwards, the hub stays
  -- disconnected and does nothing more.
  pub run_disconnects :
      (w : World) (i : Input) (is : List Input)
      → bus.accepts w.calls ≡ true
      → w.hub.state ≡ connected
      → ((run (command disconnect_and_drop ∷ i ∷ is) w).hub.state ≡ disconnected)
        × ((run (command disconnect_and_drop ∷ i ∷ is) w).done ≡ command_disconnect ∷ w.done)
  unfolding run turn turn_connected deal_client_command_when_connected turn_to_disconnect
  run_disconnects w i is accepted s =
      let last = record w {
        hub = record w.hub { state = disconnected };
        calls = suc w.calls;
        done = command_disconnect ∷ w.done;
      } in
      let leaving = record w { hub = record w.hub { state = to_disconnect client_command } } in
      let asked : turn (command disconnect_and_drop) w ≡ leaving =
        ap (λ state. (turn_in state (command disconnect_and_drop) w).0) s in
      let left : turn i leaving ≡ last =
        ap
          (λ t.
            (continue_with (λ _. get_hub >>= λ h. set_state (after_disconnect client_command h))
              t).0)
          (call_accepted command_disconnect leaving accepted) in
      let all : run (command disconnect_and_drop ∷ i ∷ is) w ≡ last =
        ap (λ t. run is (turn i t)) asked ∙ (ap (run is) left ∙ disconnected_stays is last refl) in
      (ap (λ t. t.hub.state) all, ap (λ t. t.done) all)
