-- ===== src/Hub/Ownership.antt =====
-- Who owns a packet identifier, through every turn of src/tasks/task_hub/mod.rs.
use for_mqtt_client.Base.{
  ℕ, ◌≤◌, Bool, true, false, Option, none, some, List, [], ◌∷◌, ◌≡◌, ◌≢◌, refl, ◌∙◌, length, arith,
  Bool-cases, inl, inr, All, ◌==◌,
}
use for_mqtt_client.Base.Maps.{get, contains_key}
use for_mqtt_client.Outcome.{ok, err}
use for_mqtt_client.Bytes.{BytesCrate}
use for_mqtt_client.Ring.{RingCrate, capacity}
use for_mqtt_client.Packet.Publish.{Publish}
use for_mqtt_client.Packet.Qos.{QoSWithPacketId}
use for_mqtt_client.Packet.Subscribe as SubscribePacket
use for_mqtt_client.Packet.Subscribe.{Subscribe}
use for_mqtt_client.Packet.Unsubscribe as UnsubscribePacket
use for_mqtt_client.Packet.Unsubscribe.{Unsubscribe}
use for_mqtt_client.Client.Data.{ClientData, publish_qos0}
use for_mqtt_client.Hub.Data.{
  HubMsg, recover_id, ping_success, ping_fail, keep_alive, rx_publish, affirm_rx_id,
  affirm_rx_publish, packet_id_err,
}
use for_mqtt_client.Hub.Unacknowledged.{
  UnacknowledgedClientData, publish_qos1, publish_qos2, pub_rel, subscribe, unsubscribe, packet_id,
  acknowledge, find,
}
use for_mqtt_client.Hub.World.{
  World, Action, ◌>>=◌, ◌>>◌, spawn, call, EventBus, init_keep_alive_check, start_rx_qos1,
  start_rx_qos2,
}
use for_mqtt_client.Hub.Handlers.{
  to_acknowledge, take_id, give_back, enqueue, recover, settle, found, receive, receive_new,
  note_rx, affirm_id, affirm_publish, deliver, check_alive, deal_hub_msg,
  deal_client_data_when_connected,
}
use for_mqtt_client.Hub.Connection.{Input, hub_msg, nothing, run}
use for_mqtt_client.Hub.Frame.{
  Keeps, Frame, call_either, IsAllowed, then-Keeps, if-Keeps, to_acknowledge-Keeps, run-Keeps,
}
use for_mqtt_client.Hub.Pool.{
  AreShared, find-packet_id, acknowledge-packet_id, AreShared-request, AreShared-replace,
  AreShared-remove,
}

-- The identifiers `ids` are shared out between the ring buffer and the requests.
abbrev pub Owns : List ℕ → World → Type 0
Owns ids w = AreShared ids w.pool w.hub.client_data

module _ (ids : List ℕ) ⦃bus : EventBus⦄ where
  Owns-Frame : Frame (Owns ids)
  unfolding spawn init_keep_alive_check
  Owns-Frame = record {
    calls = λ a e w k. call_either (Owns ids) a w k k;
    spawns = λ a e w k. k;
    states = λ s w k. k;
    alarms = λ w k. k;
  }

  any_call : (a : Action) → Keeps (Owns ids) (call a)
  any_call a w k = call_either (Owns ids) a w k k

  receive-Keeps : (p : Publish) (q : QoSWithPacketId) → Keeps (Owns ids) (receive_new p q)
  receive-Keeps p QoSWithPacketId.at_most_once = any_call _
  receive-Keeps p (QoSWithPacketId.at_least_once id) = λ w k.
      if-Keeps (Owns ids) (contains_key id w.hub.rx_publish_id) _ _ (λ w k. k)
        (then-Keeps (Owns ids) (note_rx id p) (call (start_rx_qos1 id w.hub.protocol)) (λ w k. k)
          (any_call _))
        w k
  receive-Keeps p (QoSWithPacketId.exactly_once id) = λ w k.
      if-Keeps (Owns ids) (contains_key id w.hub.rx_publish_id) _ _ (λ w k. k)
        (then-Keeps (Owns ids) (call (start_rx_qos2 id p.protocol)) (note_rx id p) (any_call _)
          (λ w k. k))
        w k

  deliver-Keeps :
      (id : ℕ) (w : World) (o : Option Publish) → Owns ids w → Owns ids (deliver id w.hub o w).0
  deliver-Keeps id w none k = k
  deliver-Keeps id w (some p) k = any_call _ _ k

  alive-Keeps : (n : ℕ) → Keeps (Owns ids) (check_alive n)
  unfolding check_alive
  alive-Keeps n w k = if-Keeps (Owns ids) (w.keep_alive_id == n) _ _ (any_call _) (λ w k. k) w k

module _ (ids : List ℕ) ⦃r : RingCrate⦄ ⦃bus : EventBus⦄ where
  -- A request takes the first identifier of the pool.
  request-Keeps :
      (mk : ℕ → UnacknowledgedClientData) (a : ℕ → Action)
      → ((id : ℕ) → packet_id (mk id) ≡ id)
      → (w : World) (pool : List ℕ) → w.pool ≡ pool
      → Owns ids w
      → Owns ids ((take_id >>= λ id. enqueue (mk id) >> call (a id)) w).0
  unfolding take_id enqueue
  request-Keeps mk a h w [] e k = rw (e, r.pop_empty_law) (rw e at k)
  request-Keeps mk a h w (x ∷ pool) e k =
      rw (e, r.pop_law x pool)
        (any_call ids _ _ (AreShared-request ids x pool w.hub.client_data (mk x) (h x) (rw e at k)))

  subscribe-id :
      (s : Subscribe) (id : ℕ) → SubscribePacket.packet_id (SubscribePacket.set_packet_id s id) ≡ id
  unfolding SubscribePacket.packet_id SubscribePacket.set_packet_id
  subscribe-id (Subscribe.v4 i payload) id = refl
  subscribe-id (Subscribe.v5 i properties filters) id = refl

  unsubscribe-id :
      (s : Unsubscribe) (id : ℕ)
      → UnsubscribePacket.packet_id (UnsubscribePacket.set_packet_id s id) ≡ id
  unfolding UnsubscribePacket.packet_id UnsubscribePacket.set_packet_id
  unsubscribe-id (Unsubscribe.v4 i payload) id = refl
  unsubscribe-id (Unsubscribe.v5 i properties filters) id = refl

  data-Keeps : (d : ClientData) → Keeps (Owns ids) (deal_client_data_when_connected d)
  unfolding deal_client_data_when_connected spawn packet_id
  data-Keeps (ClientData.subscribe t) w k =
      request-Keeps _ _ (λ id. subscribe-id t.subscribe id) w w.pool refl k
  data-Keeps (ClientData.unsubscribe t) w k =
      request-Keeps _ _ (λ id. unsubscribe-id t.unsubscribe id) w w.pool refl k
  data-Keeps (publish_qos0 t) w k = k
  data-Keeps (ClientData.publish_qos1 t) w k = request-Keeps _ _ (λ id. refl) w w.pool refl k
  data-Keeps (ClientData.publish_qos2 t) w k = request-Keeps _ _ (λ id. refl) w w.pool refl k

  settle-Keeps :
      (id : ℕ) (w : World) (u : UnacknowledgedClientData) (p : UnacknowledgedClientData × Bool)
      → length ids ≤ capacity
      → find id w.hub.client_data ≡ some u
      → packet_id p.0 ≡ id
      → Owns ids w
      → Owns ids (settle id w.hub p w).0
  unfolding init_keep_alive_check spawn give_back
  settle-Keeps id w u (obj, true) c f e k =
      let (shared, room) = AreShared-remove ids id w.pool w.hub.client_data u f k in
      rw (r.push_law w.pool id (omega arith)) shared
  settle-Keeps id w u (obj, false) c f e k =
      to_acknowledge-Keeps (Owns-Frame ids) obj _
        (AreShared-replace ids id w.pool w.hub.client_data obj e k)

  found-Keeps :
      (id : ℕ) (w : World) (o : Option UnacknowledgedClientData)
      → length ids ≤ capacity
      → find id w.hub.client_data ≡ o
      → Owns ids w
      → Owns ids (found id w.hub o w).0
  found-Keeps id w none c f k = k
  found-Keeps id w (some u) c f k =
      settle-Keeps id w u (acknowledge u) c f (acknowledge-packet_id u ∙ find-packet_id id _ u f) k

  msg-Keeps : length ids ≤ capacity → (m : HubMsg) → Unit {0} → Keeps (Owns ids) (deal_hub_msg m)
  unfolding deal_hub_msg recover receive affirm_id affirm_publish init_keep_alive_check spawn
  msg-Keeps c (recover_id id) q = λ w k. found-Keeps id w (find id w.hub.client_data) c refl k
  msg-Keeps c ping_success q = λ w k. k
  msg-Keeps c ping_fail q = λ w k. any_call ids _ _ k
  msg-Keeps c (keep_alive time) q = alive-Keeps ids time
  msg-Keeps c (rx_publish p) q = receive-Keeps ids p p.qos
  msg-Keeps c (affirm_rx_id id) q = λ w k. k
  msg-Keeps c (affirm_rx_publish id) q = λ w k. deliver-Keeps ids id w (get id w.hub.rx_publish) k

  -- The error of a pool that has no room comes never.
  settle-no_error :
      (id : ℕ) (w : World) (u : UnacknowledgedClientData) (obj : UnacknowledgedClientData)
      → length ids ≤ capacity
      → find id w.hub.client_data ≡ some u
      → Owns ids w
      → (settle id w.hub (obj, true) w).1 ≡ ok tt
  unfolding init_keep_alive_check spawn give_back
  settle-no_error id w u obj c f k =
      let (shared, room) = AreShared-remove ids id w.pool w.hub.client_data u f k in
      rw (r.push_law w.pool id (omega arith))

  call-no_error : (a : Action) (w : World) → (call a w).1 ≢ err packet_id_err
  unfolding call
  call-no_error a w e = elim (Bool-cases (bus.accepts w.calls)) [
    | inl h ↦ let e' = rw h at e in cc
    | inr h ↦ let e' = rw h at e in cc
  ]

  acknowledge-no_error :
      (u : UnacknowledgedClientData) (w : World) → (to_acknowledge u w).1 ≢ err packet_id_err
  unfolding to_acknowledge
  acknowledge-no_error (publish_qos1 packet) w = call-no_error _ w
  acknowledge-no_error (publish_qos2 packet) w = call-no_error _ w
  acknowledge-no_error (pub_rel id trace protocol) w = call-no_error _ w
  acknowledge-no_error (subscribe packet) w = call-no_error _ w
  acknowledge-no_error (unsubscribe packet) w = call-no_error _ w

  -- Where the ring buffer and the waiting requests share at most 65535 identifiers, `RecoverId`
  -- never ends in the error of a full ring buffer.
  pub recover-no_error :
      (id : ℕ) (w : World)
      → length ids ≤ capacity
      → Owns ids w
      → (recover id w).1 ≢ err packet_id_err
  unfolding recover
  recover-no_error id w c k = go (find id w.hub.client_data) refl
    where
      stage :
          (u : UnacknowledgedClientData) (p : UnacknowledgedClientData × Bool)
          → find id w.hub.client_data ≡ some u
          → (settle id w.hub p w).1 ≢ err packet_id_err
      stage u (obj, true) f e = let s = settle-no_error id w u obj c f k in cc
      stage u (obj, false) f e = acknowledge-no_error obj _ e

      go :
          (o : Option UnacknowledgedClientData)
          → find id w.hub.client_data ≡ o
          → (found id w.hub o w).1 ≢ err packet_id_err
      go none f e = cc
      go (some u) f e = stage u (acknowledge u) f e

module _ ⦃b : BytesCrate⦄ ⦃r : RingCrate⦄ ⦃bus : EventBus⦄ where
  any_input : (i : Input) → IsAllowed (λ _. Unit {0}) i
  any_input (hub_msg m) = tt
  any_input nothing = tt
  any_input _ = tt

  allowed : (is : List Input) → All (IsAllowed (λ _. Unit {0})) is
  allowed [] = tt
  allowed (i ∷ is) = (any_input i, allowed is)

  -- Every run of the hub, whichever calls of the bus fail, keeps the identifiers shared out: if the
  -- ring buffer and the waiting requests hold the identifiers `ids`, at most 65535 of them, each as
  -- often as it stands there, then so they do after the run.
  pub run-Owns :
      (ids : List ℕ) (is : List Input) (w : World)
      → length ids ≤ capacity
      → Owns ids w
      → Owns ids (run is w)
  run-Owns ids is w c =
      run-Keeps (Owns-Frame ids) (λ _. Unit {0}) (msg-Keeps ids c) (data-Keeps ids) is w
        (allowed is)
