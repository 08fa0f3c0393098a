-- ===== src/Hub/Receive.antt =====
-- The handshake of a publish of quality 2 from the broker, as the hub of src/tasks/task_hub/mod.rs sees it.
use for_mqtt_client.Base.{ℕ, suc, true, false, ◌∷◌, ◌≡◌, refl, ◌==◌, ==_iff}
use for_mqtt_client.Base.Maps.{contains_key}
use for_mqtt_client.Ring.{RingCrate}
use for_mqtt_client.Packet.Qos.{QoSWithPacketId}
use for_mqtt_client.Packet.Publish.{Publish}
use for_mqtt_client.Client.Data.{publish_event}
use for_mqtt_client.Hub.Data.{rx_publish, affirm_rx_publish}
use for_mqtt_client.Hub.World.{World, ◌>>◌, call, EventBus, tell, start_rx_qos2}
use for_mqtt_client.Hub.Handlers.{deal_hub_msg, receive, affirm_publish}

module _ ⦃r : RingCrate⦄ ⦃bus : EventBus⦄ where
  same_key : (id : ℕ) → (id == id) ≡ true
  same_key id = (==_iff id id).1 refl

  -- A publish of quality 2 whose identifier is free starts the task of its handshake, and when that
  -- task affirms the publish, the user is given this publish, if the channels accept these two
  -- calls.
  pub receive_then_deliver :
      (p : Publish) (id : ℕ) (w : World)
      → p.qos ≡ QoSWithPacketId.exactly_once id
      → contains_key id w.hub.rx_publish_id ≡ false
      → bus.accepts w.calls ≡ true
      → bus.accepts (suc w.calls) ≡ true
      → ((deal_hub_msg (rx_publish p) >> deal_hub_msg (affirm_rx_publish id)) w).0.done
        ≡ tell (publish_event p) ∷ start_rx_qos2 id p.protocol ∷ w.done
  unfolding deal_hub_msg receive affirm_publish call
  receive_then_deliver p id w e new first second = rw (e, new, first, same_key id, second)
