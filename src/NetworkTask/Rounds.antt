-- ===== src/NetworkTask/Rounds.antt =====
-- One round of the loop of `deal_connected_network_packet` in src/tasks/task_network/mod.rs, behind a packet.
use for_mqtt_client.Base.{
  ◌≡◌, refl, inl, inr, Option-cases, Bool-cases, leb, Bool, true, false, Option, none, some, length,
}
use for_mqtt_client.Outcome.{Outcome, ok, err, panic, out_of_fuel, is_answer}
use for_mqtt_client.Bytes.{BytesCrate}
use for_mqtt_client.Wire.{Read}
use for_mqtt_client.Network.{
  Packet, connect_packet, conn_ack_packet, publish_packet, pub_ack_packet, pub_rec_packet,
  pub_rel_packet, pub_comp_packet, ping_resp_packet, subscribe_packet, sub_ack_packet,
  unsubscribe_packet, unsub_ack_packet, disconnect_packet,
}
use for_mqtt_client.Hub.Data.{rx_publish, broker_disconnect}
use for_mqtt_client.Task.{Stop, Task, continue_with, converting}
use for_mqtt_client.NetworkTask.Data.{
  NetworkTasksError, channel_abnormal, hub_command_to_disconnect, BusError, channel_err,
  downcast_err, bus_to_network,
}
use for_mqtt_client.NetworkTask.World.{
  Link, Host, BusEvent, hub_msg, pub_ack, pub_rec, pub_rel, pub_comp, sub_ack, unsub_ack, ping_resp,
  network_event, dispatch_event,
}
use for_mqtt_client.NetworkTask.Receive.{forward, deal_packet, if_more, after_read}

-- A result that is no panic, no lack of fuel and not the command of the hub.
abbrev pub goes_on : Outcome (Stop NetworkTasksError) (Unit {0}) → Bool
goes_on (ok a) = true
goes_on (err (Stop.failed hub_command_to_disconnect)) = false
goes_on (err e) = true
goes_on panic = false
goes_on out_of_fuel = false

-- A call of the bus comes back, and leaves the buffer, the inputs and the rest of the task as they were.
pub record Leaves (w : Link) (x : Link × Outcome (Stop NetworkTasksError) (Unit {0})) : Type 0 where
  pub task : x.0.task ≡ w.task
  pub buf : x.0.buf ≡ w.buf
  pub inputs : x.0.inputs ≡ w.inputs
  pub on : goes_on x.1 ≡ true

module _ ⦃host : Host⦄ where
  converting-Leaves :
      (g : BusError → NetworkTasksError) (e : BusEvent) (w : Link)
      → ((x : BusError) → goes_on (err (Stop.failed (g x))) ≡ true)
      → Leaves w (converting g (dispatch_event e) w)
  unfolding dispatch_event
  converting-Leaves g e w h = elim (Option-cases (host.dispatch_error w.calls)) [
    | inl open_bus ↦ rw open_bus (record { task = refl; buf = refl; inputs = refl; on = refl })
    | inr (x, closed) ↦ rw closed (record { task = refl; buf = refl; inputs = refl; on = h x })
  ]

  forward-Leaves : (e : BusEvent) (w : Link) → Leaves w (forward e w)
  unfolding forward
  forward-Leaves e w = converting-Leaves (λ _. channel_abnormal) e w λ x. refl

  bus_to_network-goes_on : (x : BusError) → goes_on (err (Stop.failed (bus_to_network x))) ≡ true
  unfolding bus_to_network
  bus_to_network-goes_on channel_err = refl
  bus_to_network-goes_on downcast_err = refl

  -- Nothing is called.
  nothing-Leaves : (w : Link) → Leaves w (w, ok tt)
  nothing-Leaves w = record { task = refl; buf = refl; inputs = refl; on = refl }

  deal_packet-Leaves : (p : Packet) (w : Link) → Leaves w (deal_packet p w)
  unfolding deal_packet
  deal_packet-Leaves (conn_ack_packet p) w = nothing-Leaves w
  deal_packet-Leaves (publish_packet p) w = forward-Leaves (hub_msg (rx_publish p)) w
  deal_packet-Leaves (pub_ack_packet p) w = forward-Leaves (pub_ack p) w
  deal_packet-Leaves (pub_rec_packet p) w = forward-Leaves (pub_rec p) w
  deal_packet-Leaves (pub_rel_packet p) w = forward-Leaves (pub_rel p) w
  deal_packet-Leaves (pub_comp_packet p) w = forward-Leaves (pub_comp p) w
  deal_packet-Leaves (sub_ack_packet p) w = forward-Leaves (sub_ack p) w
  deal_packet-Leaves (unsub_ack_packet p) w = forward-Leaves (unsub_ack p) w
  deal_packet-Leaves ping_resp_packet w =
      converting-Leaves bus_to_network ping_resp w bus_to_network-goes_on
  deal_packet-Leaves (disconnect_packet p) w =
      converting-Leaves bus_to_network (network_event (broker_disconnect p)) w
        bus_to_network-goes_on
  deal_packet-Leaves (connect_packet p) w = nothing-Leaves w
  deal_packet-Leaves (subscribe_packet p) w = nothing-Leaves w
  deal_packet-Leaves (unsubscribe_packet p) w = nothing-Leaves w

  module _ ⦃b : BytesCrate⦄ where
    -- What holds of the end of the loop holds behind a packet.
    behind_holds :
        (Q : Link × Outcome (Stop NetworkTasksError) (Unit {0}) → Type 0)
        (again : Task Link NetworkTasksError (Unit {0})) (w : Link)
        (x : Link × Outcome (Stop NetworkTasksError) (Unit {0}))
        → Leaves w x
        → ((y : Link × Outcome (Stop NetworkTasksError) (Unit {0})) → Leaves w y → Q y)
        → ((y : Link) → Leaves w (y, ok tt) → Q (again y))
        → Q (continue_with (λ _. if_more again) x)
    behind_holds Q again w (y, ok u) k ends rounds = elim (Bool-cases (leb 2 (length y.buf))) [
      | inl more ↦ rw more (rounds y k)
      | inr no_more ↦ rw no_more (ends (y, ok tt) k)
    ]
    behind_holds Q again w (y, err e) k ends rounds = ends (y, err e) k
    behind_holds Q again w (y, panic) k ends rounds = ends (y, panic) k
    behind_holds Q again w (y, out_of_fuel) k ends rounds = ends (y, out_of_fuel) k

    -- The rounds behind a call of `read_from_network`, by what it returns.
    pub after_read_holds :
        (Q : Link × Outcome (Stop NetworkTasksError) (Unit {0}) → Type 0)
        (again : Task Link NetworkTasksError (Unit {0})) (r : Read (Option Packet)) (w : Link)
        → is_answer r ≡ true
        → ((y : Link × Outcome (Stop NetworkTasksError) (Unit {0})) → Leaves w y → Q y)
        → ((p : Packet) → r ≡ ok (some p) → (y : Link) → Leaves w (y, ok tt) → Q (again y))
        → Q (after_read again r w)
    unfolding after_read
    after_read_holds Q again (ok none) w k ends rounds = ends (w, ok tt) (nothing-Leaves w)
    after_read_holds Q again (ok (some p)) w k ends rounds =
        behind_holds Q again w (deal_packet p w) (deal_packet-Leaves p w) ends (rounds p refl)
    after_read_holds Q again (err e) w k ends rounds = ends (w, ok tt) (nothing-Leaves w)
    after_read_holds Q again panic w k ends rounds = cc
    after_read_holds Q again out_of_fuel w k ends rounds = cc
