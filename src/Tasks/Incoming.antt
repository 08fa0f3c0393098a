-- ===== src/Tasks/Incoming.antt =====
-- The task of a publish of quality 2 from the broker (src/tasks/task_publish/publish_rx_qos_2.rs) with the hub of
-- src/tasks/task_hub/mod.rs.
use for_mqtt_client.Base.{
  ℕ, suc, ◌<◌, ◌≡◌, refl, ap, ◌∙◌, Bool-cases, inl, inr, ◌==◌, false, List, [], ◌∷◌, ◌++◌,
}
use for_mqtt_client.Base.Maps.{contains_key, insert, remove}
use for_mqtt_client.Protocol.{Protocol}
use for_mqtt_client.Bytes.{BytesCrate}
use for_mqtt_client.Wire.Lengths.{groups}
use for_mqtt_client.Wire.Reading.{be16}
use for_mqtt_client.Ring.{RingCrate}
use for_mqtt_client.Packet.Qos.{QoSWithPacketId}
use for_mqtt_client.Packet.Publish.{Publish}
use for_mqtt_client.Packet.PubCommon.{PubCommon, pub_rec_ty, pub_rel_ty, pub_comp_ty, new}
use for_mqtt_client.Packet.PubCommon.Laws.{data-new}
use for_mqtt_client.Client.Data.{publish_event}
use for_mqtt_client.Hub.Data.{rx_publish, affirm_rx_id, affirm_rx_publish}
use for_mqtt_client.Hub.World.{World, EventBus, call, tell, start_rx_qos2}
use for_mqtt_client.Hub.Handlers.{deal_hub_msg, receive, affirm_publish, affirm_id}
use for_mqtt_client.Tasks.World.{receipt, to_network, to_hub, dispatch, tx_network_default}
use for_mqtt_client.Tasks.Complete.{common_rel, common_dup}
use for_mqtt_client.Tasks.Publish.{rx_qos2}
use for_mqtt_client.Tasks.Answered.{IsOpen, called_again, sent_again, complete-answered}
use for_mqtt_client.Tasks.ToHub.{Answer, begun_with, IsFor, same_id, obeys, obeys-sent_again}

-- A fresh acknowledgement, whose first byte is `ty`.
abbrev pub four_bytes : ℕ → ℕ → List ℕ
four_bytes ty id = ty ∷ (groups 3 2 ++ be16 id)

remove-remove : {A : Type 0} (k : ℕ) (m : List (ℕ × A)) → remove k (remove k m) ≡ remove k m
remove-remove k [] = refl
remove-remove k (x ∷ m) = elim (Bool-cases (x.0 == k)) [
  | inl found ↦ rw (found, remove-remove k m) refl
  | inr other ↦ rw (other, other, remove-remove k m) refl
]

remove-insert :
    {A : Type 0} (k : ℕ) (a : A) (m : List (ℕ × A)) → remove k (insert k a m) ≡ remove k m
remove-insert k a m = rw (same_id k) (remove-remove k m)

module _ ⦃r : RingCrate⦄ ⦃bus : EventBus⦄ (open_bus : IsOpen bus) ⦃b : BytesCrate⦄ where
  rx_qos2-done :
      (id : ℕ) (v : Protocol) (a : Answer (PubCommon pub_rel_ty))
      → id < 65536
      → IsFor id a
      → (rx_qos2 id v (begun_with a (receipt ∷ []))).0.done
        ≡ to_hub (affirm_rx_id id)
          ∷ to_network (four_bytes pub_comp_ty.ty id)
          ∷ to_hub (affirm_rx_publish id)
          ∷ sent_again a.rounds
              (four_bytes pub_rec_ty.ty id)
              (to_network (four_bytes pub_rec_ty.ty id) ∷ [])
  unfolding rx_qos2 dispatch tx_network_default common_dup common_rel
  rx_qos2-done id v a hid h =
      let bytes = data-new pub_rec_ty id v hid in
      rw
        (
          complete-answered open_bus id (new pub_rec_ty id v) _ _ a.rounds a.others a.ack
              (receipt ∷ []) (begun_with a (receipt ∷ [])) bytes bytes h.rounds h.others h.mine,
          open_bus (called_again a.rounds 1),
          data-new pub_comp_ty id v hid,
          open_bus (suc (called_again a.rounds 1)),
          open_bus (suc (suc (called_again a.rounds 1))),
        )
        refl

  -- The hub when the publish has come, and when it has been given to the user.
  abbrev holding : Publish → ℕ → World → World
  holding p id w = record w {
    hub = record w.hub {
      rx_publish = insert id p w.hub.rx_publish;
      rx_publish_id = insert id id w.hub.rx_publish_id;
    };
    calls = suc w.calls;
    done = start_rx_qos2 id p.protocol ∷ w.done;
  }

  abbrev giving : Publish → ℕ → World → World
  giving p id w = record w {
    hub = record w.hub { rx_publish = remove id w.hub.rx_publish };
    calls = suc w.calls;
    done = tell (publish_event p) ∷ w.done;
  }

  comes :
      (p : Publish) (id : ℕ) (w : World)
      → p.qos ≡ QoSWithPacketId.exactly_once id
      → contains_key id w.hub.rx_publish_id ≡ false
      → (deal_hub_msg (rx_publish p) w).0 ≡ holding p id w
  unfolding deal_hub_msg receive call
  comes p id w e new_id = rw (e, new_id, open_bus w.calls) refl

  affirmed :
      (p : Publish) (id : ℕ) (w : World)
      → (deal_hub_msg (affirm_rx_publish id) (holding p id w)).0 ≡ giving p id (holding p id w)
  unfolding deal_hub_msg affirm_publish call
  affirmed p id w = rw (same_id id, open_bus (suc w.calls), same_id id) refl

  -- A publish of quality 2 comes whose identifier the hub does not hold. Every call of the bus
  -- succeeds, the task that the hub starts is given the receipts and, after any time-outs and
  -- packets for others, the PubRel. When the hub has dealt with what it sends, the user has been
  -- given the publish, once, and the identifier is free again.
  pub rx_qos2-completes :
      (p : Publish) (id : ℕ) (v : Protocol) (a : Answer (PubCommon pub_rel_ty)) (w : World)
      → id < 65536
      → p.qos ≡ QoSWithPacketId.exactly_once id
      → contains_key id w.hub.rx_publish_id ≡ false
      → IsFor id a
      → obeys (rx_qos2 id v (begun_with a (receipt ∷ []))).0.done (deal_hub_msg (rx_publish p) w).0
        ≡ record w {
          hub = record w.hub {
            rx_publish = remove id w.hub.rx_publish;
            rx_publish_id = remove id w.hub.rx_publish_id;
          };
          calls = suc (suc w.calls);
          done = tell (publish_event p) ∷ start_rx_qos2 id p.protocol ∷ w.done;
        }
  unfolding obeys deal_hub_msg affirm_id
  rx_qos2-completes p id v a w hid e new_id h =
      let gives = λ (x : World). (deal_hub_msg (affirm_rx_publish id) x).0 in
      let frees = λ (x : World). (deal_hub_msg (affirm_rx_id id) x).0 in
      let end : World = giving p id (holding p id w) in
      ap (obeys (rx_qos2 id v (begun_with a (receipt ∷ []))).0.done) (comes p id w e new_id)
      ∙ ap (λ actions. obeys actions (holding p id w)) (rx_qos2-done id v a hid h)
      ∙ ap (λ x. frees (gives x)) (obeys-sent_again a.rounds _ _ (holding p id w))
      ∙ ap frees (affirmed p id w)
      ∙ ap
          (λ m. record end {
            hub = record end.hub {
              rx_publish = m;
              rx_publish_id = remove id (insert id id w.hub.rx_publish_id);
            };
          })
          (remove-insert id p w.hub.rx_publish)
      ∙ ap
          (λ m. record end {
            hub = record end.hub { rx_publish = remove id w.hub.rx_publish; rx_publish_id = m };
          })
          (remove-insert id id w.hub.rx_publish_id)
