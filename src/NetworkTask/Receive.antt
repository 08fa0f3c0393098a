-- ===== src/NetworkTask/Receive.antt =====
-- `deal_connected_network_packet` of src/tasks/task_network/mod.rs: the packets in the buffer are passed on.
use for_mqtt_client.Base.{ℕ, zero, suc, leb, length, Option, none, some, if◌then◌else◌}
use for_mqtt_client.Outcome.{ok, err, panic, out_of_fuel}
use for_mqtt_client.Bytes.{BytesCrate}
use for_mqtt_client.Wire.{Read}
use for_mqtt_client.Network.{
  Packet, connect_packet, conn_ack_packet, publish_packet, pub_ack_packet, pub_rec_packet,
  pub_rel_packet, pub_comp_packet, ping_resp_packet, subscribe_packet, sub_ack_packet,
  unsubscribe_packet, unsub_ack_packet, disconnect_packet, read_from_network,
}
use for_mqtt_client.Hub.Data.{rx_publish, broker_disconnect}
use for_mqtt_client.Task.{Task, ◌>>◌, return, converting}
use for_mqtt_client.NetworkTask.Data.{NetworkTasksError, channel_abnormal, bus_to_network}
use for_mqtt_client.NetworkTask.World.{
  Link, Host, BusEvent, hub_msg, pub_ack, pub_rec, pub_rel, pub_comp, sub_ack, unsub_ack, ping_resp,
  network_event, dispatch_event,
}

module _ ⦃host : Host⦄ where
  -- `if dispatch_event(…).is_err()`
  unfoldable pub forward : BusEvent → Task Link NetworkTasksError (Unit {0})
  forward e = converting (λ _. channel_abnormal) (dispatch_event e)

  -- The match on the packet.
  unfoldable pub deal_packet : Packet → Task Link NetworkTasksError (Unit {0})
  deal_packet (conn_ack_packet p) = return tt
  deal_packet (publish_packet p) = forward (hub_msg (rx_publish p))
  deal_packet (pub_ack_packet p) = forward (pub_ack p)
  deal_packet (pub_rec_packet p) = forward (pub_rec p)
  deal_packet (pub_rel_packet p) = forward (pub_rel p)
  deal_packet (pub_comp_packet p) = forward (pub_comp p)
  deal_packet (sub_ack_packet p) = forward (sub_ack p)
  deal_packet (unsub_ack_packet p) = forward (unsub_ack p)
  deal_packet ping_resp_packet = converting bus_to_network (dispatch_event ping_resp)
  deal_packet (disconnect_packet p) =
      converting bus_to_network (dispatch_event (network_event (broker_disconnect p)))
  deal_packet (connect_packet p) = return tt
  deal_packet (subscribe_packet p) = return tt
  deal_packet (unsubscribe_packet p) = return tt

  -- `if buf.len() >= 2 { continue }`
  abbrev pub if_more :
      Task Link NetworkTasksError (Unit {0}) → Task Link NetworkTasksError (Unit {0})
  if_more again w = (if leb 2 (length w.buf) then again else return tt) w

  -- The match on the result of `read_from_network`; `again` is the next round.
  unfoldable pub after_read :
      Task Link NetworkTasksError (Unit {0})
      → Read (Option Packet)
      → Task Link NetworkTasksError (Unit {0})
  after_read again (ok none) = return tt
  after_read again (ok (some packet)) = deal_packet packet >> if_more again
  after_read again (err e) = return tt
  after_read again panic = λ w. (w, panic)
  after_read again out_of_fuel = λ w. (w, out_of_fuel)

  module _ ⦃b : BytesCrate⦄ where
    -- One round of the loop.
    abbrev pub round :
        Task Link NetworkTasksError (Unit {0}) → Task Link NetworkTasksError (Unit {0})
    round again w =
        let (rest, r) = read_from_network w.buf w.task.version in
        after_read again r (record w { buf = rest })

    unfoldable pub drain : ℕ → Task Link NetworkTasksError (Unit {0})
    drain zero = λ w. (w, out_of_fuel)
    drain (suc n) = round (drain n)

    -- The fuel is the length of the buffer, and one for the round that finds it too short.
    unfoldable pub deal_connected_network_packet : Task Link NetworkTasksError (Unit {0})
    deal_connected_network_packet w = drain (suc (length w.buf)) w
