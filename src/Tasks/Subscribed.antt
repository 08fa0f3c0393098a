-- ===== src/Tasks/Subscribed.antt =====
-- The tasks of a subscription and of its end (src/tasks/task_subscribe/subscribe.rs and unsubscribe.rs) with the
-- hub of src/tasks/task_hub/mod.rs.
use for_mqtt_client.Base.{ℕ, suc, ◌+◌, ◌%◌, ◌^◌, ◌≡◌, refl, ap, ◌∙◌, List, [], ◌∷◌, some}
use for_mqtt_client.Bytes.{BytesCrate}
use for_mqtt_client.Ring.{RingCrate}
use for_mqtt_client.Packet.Subscribe.{data_of}
use for_mqtt_client.Packet.SubAck.{SubAck, return_codes}
use for_mqtt_client.Packet.Unsubscribe as UnsubscribePacket
use for_mqtt_client.Packet.UnsubAck.{UnsubAck}
use for_mqtt_client.Client.Traces.{
  TraceSubscribe, TraceUnubscribe, subscribe_packet_id, unsubscribe_packet_id,
}
use for_mqtt_client.Client.Data.{subscribe_ack_event, unsubscribe_ack_event, unsubscribe_ack}
use for_mqtt_client.Hub.Data.{recover_id}
use for_mqtt_client.Hub.Unacknowledged.{acknowledge, find, remove_found}
use for_mqtt_client.Hub.Unacknowledged as Unacknowledged
use for_mqtt_client.Hub.World.{World, EventBus, arm_keep_alive}
use for_mqtt_client.Hub.Handlers.{deal_hub_msg}
use for_mqtt_client.Tasks.World.{to_network, to_hub, to_user, dispatch, tx_to_user}
use for_mqtt_client.Tasks.Complete.{sub_ack_rel, unsub_ack_rel, subscribe_dup, unsubscribe_dup}
use for_mqtt_client.Tasks.Subscribe.{subscribe, unsubscribe}
use for_mqtt_client.Tasks.Answered.{IsOpen, called_again, sent_again, complete-answered}
use for_mqtt_client.Tasks.ToHub.{Answer, begun, IsFor, obeys, obeys-sent_again, recover-last}

module _ ⦃r : RingCrate⦄ ⦃bus : EventBus⦄ (open_bus : IsOpen bus) ⦃b : BytesCrate⦄ where
  -- T
  pub subscribe-answered :
      (trace : TraceSubscribe) (a : Answer SubAck)
      → IsFor (subscribe_packet_id trace) a
      → (subscribe trace (begun a)).0.done
        ≡ to_user (subscribe_ack_event (record { id = trace.id; acks = return_codes a.ack }))
          ∷ to_hub (recover_id (subscribe_packet_id trace))
          ∷ sent_again a.rounds
              (data_of trace.subscribe)
              (to_network (data_of trace.subscribe) ∷ [])
  unfolding subscribe dispatch tx_to_user subscribe_dup
  subscribe-answered trace a h =
      rw
        (
          complete-answered open_bus (subscribe_packet_id trace) trace.subscribe _ _ a.rounds
              a.others a.ack [] (begun a) refl refl h.rounds h.others h.mine,
          open_bus (called_again a.rounds 1),
          open_bus (suc (called_again a.rounds 1)),
        )
        refl

  -- The hub holds a subscription that waits for the broker, every call of the bus succeeds, and
  -- there is room for its identifier. Its task is given the SubAck after any time-outs and packets
  -- for others: it has sent the packet once and again for each time-out, told the hub, and then
  -- given the user the return codes under the number of the request; and when the hub has dealt
  -- with that, the first request with the identifier is out of the queue, the identifier is back
  -- and no other request has changed.
  pub subscribe-completes :
      (trace : TraceSubscribe) (a : Answer SubAck) (w : World) (pool : List ℕ)
      → IsFor (subscribe_packet_id trace) a
      → find (subscribe_packet_id trace) w.hub.client_data ≡ some (Unacknowledged.subscribe trace)
      → r.push w.pool (subscribe_packet_id trace) ≡ some pool
      → ((subscribe trace (begun a)).0.done
          ≡ to_user (subscribe_ack_event (record { id = trace.id; acks = return_codes a.ack }))
            ∷ to_hub (recover_id (subscribe_packet_id trace))
            ∷ sent_again a.rounds
                (data_of trace.subscribe)
                (to_network (data_of trace.subscribe) ∷ []))
        × (obeys (subscribe trace (begun a)).0.done w ≡ record w {
          hub = record w.hub {
            client_data = remove_found (subscribe_packet_id trace) w.hub.client_data;
          };
          pool = pool;
          keep_alive_id = (w.keep_alive_id + 1) % 2 ^ 32;
          done = arm_keep_alive ((w.keep_alive_id + 1) % 2 ^ 32) w.hub.options.keep_alive ∷ w.done;
        })
  unfolding obeys acknowledge
  subscribe-completes trace a w pool h e space =
      let id = subscribe_packet_id trace in
      let request = Unacknowledged.subscribe trace in
      (
        subscribe-answered trace a h,
        ap (λ actions. obeys actions w) (subscribe-answered trace a h)
            ∙ ap (λ x. (deal_hub_msg (recover_id id) x).0) (obeys-sent_again a.rounds _ _ w)
            ∙ recover-last id request request w pool e refl space,
      )

  unsubscribe-answered :
      (trace : TraceUnubscribe) (a : Answer UnsubAck)
      → IsFor (unsubscribe_packet_id trace) a
      → (unsubscribe trace (begun a)).0.done
        ≡ to_user (unsubscribe_ack_event (unsubscribe_ack a.ack trace.id))
          ∷ to_hub (recover_id (unsubscribe_packet_id trace))
          ∷ sent_again a.rounds
              (UnsubscribePacket.data_of trace.unsubscribe)
              (to_network (UnsubscribePacket.data_of trace.unsubscribe) ∷ [])
  unfolding unsubscribe dispatch tx_to_user unsubscribe_dup
  unsubscribe-answered trace a h =
      rw
        (
          complete-answered open_bus (unsubscribe_packet_id trace) trace.unsubscribe _ _ a.rounds
              a.others a.ack [] (begun a) refl refl h.rounds h.others h.mine,
          open_bus (called_again a.rounds 1),
          open_bus (suc (called_again a.rounds 1)),
        )
        refl

  -- The hub holds an unsubscription that waits for the broker, every call of the bus succeeds, and
  -- there is room for its identifier. Its task is given the UnsubAck after any time-outs and
  -- packets for others: it has sent the packet once and again for each time-out, told the hub, and
  -- then given the user the reasons under the number of the request; and when the hub has dealt
  -- with that, the first request with the identifier is out of the queue, the identifier is back
  -- and no other request has changed.
  pub unsubscribe-completes :
      (trace : TraceUnubscribe) (a : Answer UnsubAck) (w : World) (pool : List ℕ)
      → IsFor (unsubscribe_packet_id trace) a
      → find (unsubscribe_packet_id trace) w.hub.client_data
        ≡ some (Unacknowledged.unsubscribe trace)
      → r.push w.pool (unsubscribe_packet_id trace) ≡ some pool
      → ((unsubscribe trace (begun a)).0.done
          ≡ to_user (unsubscribe_ack_event (unsubscribe_ack a.ack trace.id))
            ∷ to_hub (recover_id (unsubscribe_packet_id trace))
            ∷ sent_again a.rounds
                (UnsubscribePacket.data_of trace.unsubscribe)
                (to_network (UnsubscribePacket.data_of trace.unsubscribe) ∷ []))
        × (obeys (unsubscribe trace (begun a)).0.done w ≡ record w {
          hub = record w.hub {
            client_data = remove_found (unsubscribe_packet_id trace) w.hub.client_data;
          };
          pool = pool;
          keep_alive_id = (w.keep_alive_id + 1) % 2 ^ 32;
          done = arm_keep_alive ((w.keep_alive_id + 1) % 2 ^ 32) w.hub.options.keep_alive ∷ w.done;
        })
  unfolding obeys acknowledge
  unsubscribe-completes trace a w pool h e space =
      let id = unsubscribe_packet_id trace in
      let request = Unacknowledged.unsubscribe trace in
      (
        unsubscribe-answered trace a h,
        ap (λ actions. obeys actions w) (unsubscribe-answered trace a h)
            ∙ ap (λ x. (deal_hub_msg (recover_id id) x).0) (obeys-sent_again a.rounds _ _ w)
            ∙ recover-last id request request w pool e refl space,
      )
