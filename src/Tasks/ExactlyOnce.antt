-- ===== src/Tasks/ExactlyOnce.antt =====
-- The two tasks of a publish of quality 2 (src/tasks/task_publish/publish_qos_2.rs and publish_qos_2_rel.rs)
-- with the hub of src/tasks/task_hub/mod.rs.
use for_mqtt_client.Base.{
  ℕ, suc, ◌+◌, ◌%◌, ◌^◌, ◌<◌, ◌≡◌, refl, ap, ◌∙◌, true, List, [], ◌∷◌, ◌++◌, some,
}
use for_mqtt_client.Protocol.{Protocol}
use for_mqtt_client.Bytes.{BytesCrate}
use for_mqtt_client.Wire.Lengths.{groups}
use for_mqtt_client.Wire.Reading.{be16}
use for_mqtt_client.Ring.{RingCrate}
use for_mqtt_client.Packet.Qos.{QoS, QoSWithPacketId}
use for_mqtt_client.Packet.Publish.{write}
use for_mqtt_client.Packet.PubCommon.{PubCommon, pub_rec_ty, pub_rel_ty, pub_comp_ty, new}
use for_mqtt_client.Packet.PubCommon.Laws.{data-new}
use for_mqtt_client.Client.Traces.{TracePublishQos}
use for_mqtt_client.Client.Data.{publish_success}
use for_mqtt_client.Hub.Data.{recover_id}
use for_mqtt_client.Hub.Unacknowledged.{
  UnacknowledgedClientData, pub_rel, packet_id, acknowledge, find, remove_found, replace_found,
}
use for_mqtt_client.Hub.Unacknowledged as Unacknowledged
use for_mqtt_client.Hub.World.{World, EventBus, start_publish_qos2_rel, arm_keep_alive}
use for_mqtt_client.Hub.Handlers.{deal_hub_msg}
use for_mqtt_client.Tasks.World.{to_network, to_hub, to_user, dispatch, tx_to_user}
use for_mqtt_client.Tasks.Complete.{common_rel, publish_dup, common_dup}
use for_mqtt_client.Tasks.Publish.{packet_of, publish_qos2, publish_qos2_rel}
use for_mqtt_client.Tasks.Answered.{IsOpen, called_again, sent_again, complete-answered}
use for_mqtt_client.Tasks.ToHub.{
  Answer, begun, IsFor, same_id, find-replace, remove-replace, obeys, obeys-sent_again,
  recover-first, recover-last,
}

module _ ⦃r : RingCrate⦄ ⦃bus : EventBus⦄ (open_bus : IsOpen bus) ⦃b : BytesCrate⦄ where
  publish_qos2-done :
      (trace : TracePublishQos QoS.exactly_once) (a : Answer (PubCommon pub_rec_ty))
      → IsFor trace.packet_id a
      → (publish_qos2 trace (begun a)).0.done
        ≡ to_hub (recover_id trace.packet_id)
          ∷ sent_again a.rounds
              (write
                (record (packet_of trace (QoSWithPacketId.exactly_once trace.packet_id)) {
                  dup = true;
                })
                []).0
              (to_network
                  (write (packet_of trace (QoSWithPacketId.exactly_once trace.packet_id)) []).0
                ∷ [])
  unfolding publish_qos2 dispatch publish_dup common_rel
  publish_qos2-done trace a h =
      rw
        (
          complete-answered open_bus trace.packet_id
              (packet_of trace (QoSWithPacketId.exactly_once trace.packet_id)) _ _ a.rounds a.others
              a.ack [] (begun a) refl refl h.rounds h.others h.mine,
          open_bus (called_again a.rounds 1),
        )
        refl

  publish_qos2_rel-done :
      (id trace_id : ℕ) (v : Protocol) (a : Answer (PubCommon pub_comp_ty))
      → id < 65536
      → IsFor id a
      → (publish_qos2_rel id trace_id v (begun a)).0.done
        ≡ to_user (publish_success trace_id)
          ∷ to_hub (recover_id id)
          ∷ sent_again a.rounds
              (pub_rel_ty.ty ∷ (groups 3 2 ++ be16 id))
              (to_network (pub_rel_ty.ty ∷ (groups 3 2 ++ be16 id)) ∷ [])
  unfolding publish_qos2_rel dispatch tx_to_user common_dup common_rel
  publish_qos2_rel-done id trace_id v a hid h =
      let bytes = data-new pub_rel_ty id v hid in
      rw
        (
          complete-answered open_bus id (new pub_rel_ty id v) _ _ a.rounds a.others a.ack []
              (begun a) bytes bytes h.rounds h.others h.mine,
          open_bus (called_again a.rounds 1),
          open_bus (suc (called_again a.rounds 1)),
        )
        refl

  -- The hub holds a publish of quality 2 that waits for the broker, every call of the bus succeeds,
  -- and there is room for its identifier. Its task is given the PubRec, the task that the hub
  -- starts then is given the PubComp, both after any time-outs and packets for others, and the hub
  -- deals with what they send: it has started that task, taken the request out of the queue and put
  -- the identifier back, and no other request has changed.
  pub publish_qos2-completes :
      (trace : TracePublishQos QoS.exactly_once) (first : Answer (PubCommon pub_rec_ty))
      (second : Answer (PubCommon pub_comp_ty)) (w : World) (pool : List ℕ)
      → trace.packet_id < 65536
      → IsFor trace.packet_id first
      → IsFor trace.packet_id second
      → find trace.packet_id w.hub.client_data ≡ some (Unacknowledged.publish_qos2 trace)
      → r.push w.pool trace.packet_id ≡ some pool
      → obeys
          (publish_qos2_rel trace.packet_id trace.id trace.protocol (begun second)).0.done
          (obeys (publish_qos2 trace (begun first)).0.done w)
        ≡ record w {
          hub = record w.hub { client_data = remove_found trace.packet_id w.hub.client_data };
          pool = pool;
          keep_alive_id = (w.keep_alive_id + 1) % 2 ^ 32;
          calls = suc w.calls;
          done =
              arm_keep_alive ((w.keep_alive_id + 1) % 2 ^ 32) w.hub.options.keep_alive
              ∷ start_publish_qos2_rel trace.packet_id trace.id trace.protocol
              ∷ w.done;
        }
  unfolding obeys packet_id acknowledge
  publish_qos2-completes trace first second w pool hid h k e space =
      let id = trace.packet_id in
      let stage = pub_rel id trace.id trace.protocol in
      let half : World = record w {
        hub = record w.hub { client_data = replace_found id stage w.hub.client_data };
        calls = suc w.calls;
        done = start_publish_qos2_rel id trace.id trace.protocol ∷ w.done;
      } in
      let settles = λ (x : World). (deal_hub_msg (recover_id id) x).0 in
      let one : obeys (publish_qos2 trace (begun first)).0.done w ≡ half =
        ap (λ actions. obeys actions w) (publish_qos2-done trace first h)
        ∙ ap settles (obeys-sent_again first.rounds _ _ w)
        ∙ recover-first open_bus trace w e in
      let two : obeys (publish_qos2_rel id trace.id trace.protocol (begun second)).0.done half
          ≡ settles half =
        ap (λ actions. obeys actions half)
          (publish_qos2_rel-done id trace.id trace.protocol second hid k)
        ∙ ap settles (obeys-sent_again second.rounds _ _ half) in
      rw one (
        two
        ∙ recover-last id stage stage half pool
            (find-replace id stage (same_id id) w.hub.client_data _ e) refl space
        ∙ ap
            (λ us. record half {
              hub = record half.hub { client_data = us };
              pool = pool;
              keep_alive_id = (w.keep_alive_id + 1) % 2 ^ 32;
              done =
                  arm_keep_alive ((w.keep_alive_id + 1) % 2 ^ 32) w.hub.options.keep_alive
                  ∷ half.done;
            })
            (remove-replace id stage (same_id id) w.hub.client_data))
