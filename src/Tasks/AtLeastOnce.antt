-- ===== src/Tasks/AtLeastOnce.antt =====
-- The task of a publish of quality 1 (src/tasks/task_publish/publish_qos_1.rs) with the hub of
-- src/tasks/task_hub/mod.rs.
use for_mqtt_client.Base.{
  ℕ, suc, ◌+◌, ◌%◌, ◌^◌, ◌≡◌, refl, ap, ◌∙◌, true, List, [], ◌∷◌, none, some,
}
use for_mqtt_client.Bytes.{BytesCrate}
use for_mqtt_client.Ring.{RingCrate}
use for_mqtt_client.Packet.Qos.{QoS, QoSWithPacketId}
use for_mqtt_client.Packet.Publish.{write}
use for_mqtt_client.Packet.PubCommon.{PubCommon, pub_ack_ty}
use for_mqtt_client.Client.Traces.{TracePublishQos}
use for_mqtt_client.Client.Data.{publish_success}
use for_mqtt_client.Hub.Data.{recover_id}
use for_mqtt_client.Hub.Unacknowledged.{acknowledge, find, remove_found}
use for_mqtt_client.Hub.Unacknowledged as Unacknowledged
use for_mqtt_client.Hub.World.{World, EventBus, arm_keep_alive}
use for_mqtt_client.Hub.Handlers.{deal_hub_msg}
use for_mqtt_client.Tasks.World.{to_network, to_hub, to_user, dispatch, tx_to_user}
use for_mqtt_client.Tasks.Complete.{common_rel, publish_dup}
use for_mqtt_client.Tasks.Publish.{packet_of, publish_qos1}
use for_mqtt_client.Tasks.Answered.{IsOpen, called_again, sent_again, complete-answered}
use for_mqtt_client.Tasks.ToHub.{
  Answer, begun, IsFor, obeys, obeys-sent_again, recover-last, recover-nothing,
}

module _ ⦃r : RingCrate⦄ ⦃bus : EventBus⦄ (open_bus : IsOpen bus) ⦃b : BytesCrate⦄ where
  publish_qos1-done :
      (trace : TracePublishQos QoS.at_least_once) (a : Answer (PubCommon pub_ack_ty))
      → IsFor trace.packet_id a
      → (publish_qos1 trace (begun a)).0.done
        ≡ to_user (publish_success trace.id)
          ∷ to_hub (recover_id trace.packet_id)
          ∷ to_hub (recover_id trace.packet_id)
          ∷ sent_again a.rounds
              (write
                (record (packet_of trace (QoSWithPacketId.at_least_once trace.packet_id)) {
                  dup = true;
                })
                []).0
              (to_network
                  (write (packet_of trace (QoSWithPacketId.at_least_once trace.packet_id)) []).0
                ∷ [])
  unfolding publish_qos1 dispatch tx_to_user publish_dup common_rel
  publish_qos1-done trace a h =
      rw
        (
          complete-answered open_bus trace.packet_id
              (packet_of trace (QoSWithPacketId.at_least_once trace.packet_id)) _ _ a.rounds
              a.others a.ack [] (begun a) refl refl h.rounds h.others h.mine,
          open_bus (called_again a.rounds 1),
          open_bus (suc (called_again a.rounds 1)),
          open_bus (suc (suc (called_again a.rounds 1))),
        )
        refl

  -- The hub holds a publish of quality 1 that waits for the broker, the only request with its
  -- identifier, every call of the bus succeeds, and there is room for the identifier. Its task is
  -- given the PubAck after any time-outs and packets for others, and the hub deals with what the
  -- task sends: it has taken the request out of the queue and put the identifier back once,
  -- although the task says so twice, and no other request has changed.
  pub publish_qos1-completes :
      (trace : TracePublishQos QoS.at_least_once) (a : Answer (PubCommon pub_ack_ty)) (w : World)
      (pool : List ℕ)
      → IsFor trace.packet_id a
      → find trace.packet_id w.hub.client_data ≡ some (Unacknowledged.publish_qos1 trace)
      → find trace.packet_id (remove_found trace.packet_id w.hub.client_data) ≡ none
      → r.push w.pool trace.packet_id ≡ some pool
      → obeys (publish_qos1 trace (begun a)).0.done w ≡ record w {
        hub = record w.hub { client_data = remove_found trace.packet_id w.hub.client_data };
        pool = pool;
        keep_alive_id = (w.keep_alive_id + 1) % 2 ^ 32;
        done = arm_keep_alive ((w.keep_alive_id + 1) % 2 ^ 32) w.hub.options.keep_alive ∷ w.done;
      }
  unfolding obeys acknowledge
  publish_qos1-completes trace a w pool h e alone space =
      let id = trace.packet_id in
      let request = Unacknowledged.publish_qos1 trace in
      let settles = λ (x : World). (deal_hub_msg (recover_id id) x).0 in
      ap (λ actions. obeys actions w) (publish_qos1-done trace a h)
      ∙ ap (λ x. settles (settles x)) (obeys-sent_again a.rounds _ _ w)
      ∙ ap settles (recover-last id request request w pool e refl space)
      ∙ recover-nothing id _ alone
