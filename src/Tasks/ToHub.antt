-- ===== src/Tasks/ToHub.antt =====
-- The messages of the tasks of src/tasks/task_publish, and what the hub of src/tasks/task_hub/mod.rs does with
-- them.
use for_mqtt_client.Base.{
  ℕ, suc, ◌+◌, ◌%◌, ◌^◌, ◌≡◌, refl, inl, inr, Bool-cases, true, List, [], ◌∷◌, All, none, some,
  ◌==◌, ==_iff,
}
use for_mqtt_client.Ring.{RingCrate}
use for_mqtt_client.Packet.Qos.{QoS}
use for_mqtt_client.Client.Traces.{TracePublishQos}
use for_mqtt_client.Hub.Data.{recover_id}
use for_mqtt_client.Hub.Unacknowledged.{
  UnacknowledgedClientData, pub_rel, packet_id, acknowledge, find, remove_found, replace_found,
}
use for_mqtt_client.Hub.Unacknowledged as Unacknowledged
use for_mqtt_client.Hub.World.{
  World, EventBus, call, spawn, init_keep_alive_check, start_publish_qos2_rel, arm_keep_alive,
}
use for_mqtt_client.Hub.Handlers.{deal_hub_msg, recover, give_back, to_acknowledge}
use for_mqtt_client.Tasks.World.{
  Event, receipt, packet, Exchange, TaskAction, to_network, to_hub, to_user,
}
use for_mqtt_client.Tasks.Complete.{PacketRel, common_rel, publish_dup, common_dup}
use for_mqtt_client.Tasks.Answered.{IsOpen, heard, unanswered, sent_again, AreOthers}

-- What the broker and the network give to a task: receipts, packets for others in the attempts whose time goes
-- by and in the last, and the acknowledgement.
pub record Answer (Ack : Type 0) : Type 0 where
  pub rounds : List (List Ack)
  pub others : List Ack
  pub ack : Ack

-- A task that begins, with what comes behind the acknowledgement.
abbrev pub begun_with : {Ack : Type 0} → Answer Ack → List (Event Ack) → Exchange Ack
begun_with a rest = record {
  inputs = receipt ∷ unanswered a.rounds (heard a.others (packet a.ack ∷ rest));
  calls = 0;
  done = [];
}

abbrev pub begun : {Ack : Type 0} → Answer Ack → Exchange Ack
begun a = begun_with a []

-- The acknowledgement, and only it, has the identifier of the request.
pub record IsFor {Ack : Type 0} ⦃rel : PacketRel Ack⦄ (id : ℕ) (a : Answer Ack) : Type 0 where
  pub others : AreOthers id a.others
  pub rounds : All (AreOthers id) a.rounds
  pub mine : rel.is_rel a.ack id ≡ true

pub same_id : (id : ℕ) → (id == id) ≡ true
same_id id = (==_iff id id).1 refl

module _ (id : ℕ) (request : UnacknowledgedClientData)
    (mine : (packet_id request == id) ≡ true) where
  pub find-replace :
      (us : List UnacknowledgedClientData) (old : UnacknowledgedClientData)
      → find id us ≡ some old
      → find id (replace_found id request us) ≡ some request
  unfolding find replace_found
  find-replace [] old e = cc
  find-replace (u ∷ us) old e = elim (Bool-cases (packet_id u == id)) [
    | inl found ↦ rw (found, mine) refl
    | inr other ↦ rw (other, other) (find-replace us old (rw other at e))
  ]

  pub remove-replace :
      (us : List UnacknowledgedClientData)
      → remove_found id (replace_found id request us) ≡ remove_found id us
  unfolding remove_found replace_found
  remove-replace [] = refl
  remove-replace (u ∷ us) = elim (Bool-cases (packet_id u == id)) [
    | inl found ↦ rw (found, mine) refl
    | inr other ↦ rw (other, other, remove-replace us) refl
  ]

module _ ⦃r : RingCrate⦄ ⦃bus : EventBus⦄ where
  -- The hub when it has dealt with the messages that a task has sent to it, the oldest first.
  unfoldable pub obeys : List TaskAction → World → World
  obeys [] w = w
  obeys (to_hub m ∷ actions) w = (deal_hub_msg m (obeys actions w)).0
  obeys (to_network bytes ∷ actions) w = obeys actions w
  obeys (to_user event ∷ actions) w = obeys actions w

  pub obeys-sent_again :
      {Ack : Type 0} (rounds : List (List Ack)) (bytes : List ℕ) (actions : List TaskAction)
      (w : World)
      → obeys (sent_again rounds bytes actions) w ≡ obeys actions w
  unfolding obeys
  obeys-sent_again [] bytes actions w = refl
  obeys-sent_again (acks ∷ rounds) bytes actions w =
      obeys-sent_again rounds bytes (to_network bytes ∷ actions) w

  -- An acknowledgement that completes its request.
  pub recover-last :
      (id : ℕ) (u v : UnacknowledgedClientData) (w : World) (pool : List ℕ)
      → find id w.hub.client_data ≡ some u
      → acknowledge u ≡ (v, true)
      → r.push w.pool id ≡ some pool
      → (deal_hub_msg (recover_id id) w).0 ≡ record w {
        hub = record w.hub { client_data = remove_found id w.hub.client_data };
        pool = pool;
        keep_alive_id = (w.keep_alive_id + 1) % 2 ^ 32;
        done = arm_keep_alive ((w.keep_alive_id + 1) % 2 ^ 32) w.hub.options.keep_alive ∷ w.done;
      }
  unfolding deal_hub_msg recover init_keep_alive_check spawn give_back
  recover-last id u v w pool e complete space = rw (e, complete, space) refl

  -- An identifier that no request has.
  pub recover-nothing :
      (id : ℕ) (w : World)
      → find id w.hub.client_data ≡ none
      → (deal_hub_msg (recover_id id) w).0 ≡ w
  unfolding deal_hub_msg recover
  recover-nothing id w e = rw e refl

  module _ (open_bus : IsOpen bus) where
    -- The first acknowledgement moves the request into its second stage.
    pub recover-first :
        (trace : TracePublishQos QoS.exactly_once) (w : World)
        → find trace.packet_id w.hub.client_data ≡ some (Unacknowledged.publish_qos2 trace)
        → (deal_hub_msg (recover_id trace.packet_id) w).0 ≡ record w {
          hub = record w.hub {
            client_data =
                replace_found trace.packet_id
                  (pub_rel trace.packet_id trace.id trace.protocol)
                  w.hub.client_data;
          };
          calls = suc w.calls;
          done = start_publish_qos2_rel trace.packet_id trace.id trace.protocol ∷ w.done;
        }
    unfolding deal_hub_msg recover acknowledge to_acknowledge call
    recover-first trace w e = rw (e, open_bus w.calls) refl
