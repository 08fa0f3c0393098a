-- ===== src/Hub/Once.antt =====
-- A publish of the broker reaches the user at most once until its identifier is affirmed
-- (src/tasks/task_hub/mod.rs).
use for_mqtt_client.Base.{
  ℕ, suc, ◌≤◌, Bool, true, false, Option, none, some, List, ◌∷◌, ◌≡◌, ◌≢◌, refl, arith, Bool-cases,
  inl, inr, All, if◌then◌else◌, ◌==◌, ==_iff, ap,
}
use for_mqtt_client.Base.Maps.{get, contains_key}
use for_mqtt_client.Bytes.{BytesCrate}
use for_mqtt_client.Ring.{RingCrate}
use for_mqtt_client.Packet.Qos.{QoSWithPacketId, packet_id}
use for_mqtt_client.Packet.Publish.{Publish}
use for_mqtt_client.Client.Data.{ClientData, publish_qos0, publish_event}
use for_mqtt_client.Hub.Data.{
  HubMsg, recover_id, ping_success, ping_fail, keep_alive, rx_publish, affirm_rx_id,
  affirm_rx_publish,
}
use for_mqtt_client.Hub.Unacknowledged.{UnacknowledgedClientData, find, remove_found, acknowledge}
use for_mqtt_client.Hub.World.{
  World, Action, tell, ◌>>=◌, ◌>>◌, spawn, call, set_hub, EventBus, init_keep_alive_check,
  start_rx_qos1, start_rx_qos2, start_ping,
}
use for_mqtt_client.Hub.Handlers.{
  take_id, popped, give_back, pushed, enqueue, recover, settle, found, receive, receive_new,
  note_rx, affirm_id, affirm_publish, deliver, check_alive, deal_hub_msg,
  deal_client_data_when_connected,
}
use for_mqtt_client.Hub.Connection.{Input, run}
use for_mqtt_client.Hub.Frame.{
  Keeps, Frame, call_either, is_delivery, IsAllowed, then-Keeps, bind-Keeps, if-Keeps,
  to_acknowledge-Keeps, run-Keeps,
}
use for_mqtt_client.Hub.Delivery.{
  matches, has_id, delivers, delivered, held, free, pending, held-remove, held-get,
  contains_key-remove,
}

-- No more than `n` publishes with the identifier `x` have come to the user or can still come.
abbrev AreAtMost : ℕ → ℕ → World → Type 0
AreAtMost n x w = pending x w ≤ n

delivers_none : (x : ℕ) (a : Action) → is_delivery a ≡ false → delivers x a ≡ 0
delivers_none x (tell (publish_event p)) e = cc
delivers_none x start_ping e = refl
delivers_none x _ e = refl

-- Every message but the affirmation of the identifier.
abbrev pub IsOther : ℕ → HubMsg → Type 0
IsOther x (affirm_rx_id k) = k ≢ x
IsOther x _ = Unit {0}

module _ (n x : ℕ) ⦃bus : EventBus⦄ where
  once-Frame : Frame (AreAtMost n x)
  unfolding spawn init_keep_alive_check delivered
  once-Frame = record {
    calls = λ a e w k.
        let z = delivers_none x a e in call_either (AreAtMost n x) a w (omega (arith, z)) k;
    spawns = λ a e w k. let z = delivers_none x a e in omega (arith, z);
    states = λ s w k. k;
    alarms = λ w k. omega arith;
  }

  note-once :
      (id : ℕ) (p : Publish) (w : World)
      → packet_id p.qos ≡ some id
      → contains_key id w.hub.rx_publish_id ≡ false
      → AreAtMost n x w
      → AreAtMost n x (note_rx id p w).0
  unfolding held
  note-once id p w e new k = elim (Bool-cases (id == x)) [
    | inl h ↦
        let same = (==_iff id x).0 h in
        let was_free : free x w.hub.rx_publish_id ≡ 1 =
          ap (λ c. if c then 0 else 1) (rw same at new) in
        rw (e, h) (omega (arith, held-remove x id w.hub.rx_publish, was_free))
    | inr h ↦
        let other : id ≢ x = λ s. let t = (==_iff id x).1 s in cc in
        rw (e, h, contains_key-remove x id w.hub.rx_publish_id other)
          (omega (arith, held-remove x id w.hub.rx_publish))
  ]

  start-once :
      (id : ℕ) (p : Publish) (w : World)
      → packet_id p.qos ≡ some id
      → contains_key id w.hub.rx_publish_id ≡ false
      → AreAtMost n x w
      → AreAtMost n x ((call (start_rx_qos2 id p.protocol) >> note_rx id p) w).0
  unfolding call delivered
  start-once id p w e new k = elim (Bool-cases (bus.accepts w.calls)) [
    | inl h ↦
        let w1 = record w { calls = suc w.calls; done = start_rx_qos2 id p.protocol ∷ w.done } in
        rw h (note-once id p w1 e new (omega (arith, k)))
    | inr h ↦ rw h k
  ]

  receive-once :
      (p : Publish) (q : QoSWithPacketId) (w : World)
      → packet_id p.qos ≡ packet_id q
      → AreAtMost n x w
      → AreAtMost n x (receive_new p q w).0
  unfolding delivered
  receive-once p QoSWithPacketId.at_most_once w e k =
      let zero : has_id x p ≡ 0 = ap (matches x) e in
      call_either (AreAtMost n x) _ w (omega (arith, zero)) k
  receive-once p (QoSWithPacketId.at_least_once id) w e k =
      elim (Bool-cases (contains_key id w.hub.rx_publish_id)) [
        | inl h ↦ rw h k
        | inr h ↦
            rw h
              (once-Frame.calls (start_rx_qos1 id w.hub.protocol) refl _ (note-once id p w e h k))
      ]
  receive-once p (QoSWithPacketId.exactly_once id) w e k =
      elim (Bool-cases (contains_key id w.hub.rx_publish_id)) [
        | inl h ↦ rw h k
        | inr h ↦ rw h (start-once id p w e h k)
      ]

  deliver-once :
      (id : ℕ) (w : World) (o : Option Publish)
      → get id w.hub.rx_publish ≡ o
      → AreAtMost n x w
      → AreAtMost n x (deliver id w.hub o w).0
  unfolding delivered
  deliver-once id w none e k = k
  deliver-once id w (some p) e k =
      let less = held-get x id w.hub.rx_publish p e in
      call_either (AreAtMost n x) _ _ (omega (arith, less)) (omega (arith, less))

  affirm-once : (id : ℕ) → id ≢ x → Keeps (AreAtMost n x) (affirm_id id)
  unfolding affirm_id
  affirm-once id h w k = rw (contains_key-remove x id w.hub.rx_publish_id h) k

  alive-once : (m : ℕ) → Keeps (AreAtMost n x) (check_alive m)
  unfolding check_alive
  alive-once m w k =
      if-Keeps (AreAtMost n x) (w.keep_alive_id == m) _ _ (once-Frame.calls start_ping refl)
        (λ w k. k) w k

module _ (n x : ℕ) ⦃r : RingCrate⦄ ⦃bus : EventBus⦄ where
  take-once : (w : World) (o : Option (ℕ × List ℕ)) → AreAtMost n x w → AreAtMost n x (popped w o).0
  take-once w none k = k
  take-once w (some y) k = k

  push-once : (w : World) (o : Option (List ℕ)) → AreAtMost n x w → AreAtMost n x (pushed w o).0
  push-once w none k = k
  push-once w (some y) k = k

  request-once :
      (mk : ℕ → UnacknowledgedClientData) (a : ℕ → Action)
      → ((id : ℕ) → is_delivery (a id) ≡ false)
      → Keeps (AreAtMost n x) (take_id >>= λ id. enqueue (mk id) >> call (a id))
  unfolding take_id enqueue
  request-once mk a quiet =
      bind-Keeps (AreAtMost n x) take_id (λ id. enqueue (mk id) >> call (a id))
        (λ w k. take-once w (r.pop w.pool) k)
        λ id.
          then-Keeps (AreAtMost n x) (enqueue (mk id)) (call (a id)) (λ w k. k)
            ((once-Frame n x).calls (a id) (quiet id))

  data-once : (d : ClientData) → Keeps (AreAtMost n x) (deal_client_data_when_connected d)
  unfolding deal_client_data_when_connected
  data-once (ClientData.subscribe t) = request-once _ _ λ id. refl
  data-once (ClientData.unsubscribe t) = request-once _ _ λ id. refl
  data-once (publish_qos0 t) = (once-Frame n x).spawns _ refl
  data-once (ClientData.publish_qos1 t) = request-once _ _ λ id. refl
  data-once (ClientData.publish_qos2 t) = request-once _ _ λ id. refl

  settle-once :
      (id : ℕ) (w : World) (p : UnacknowledgedClientData × Bool)
      → AreAtMost n x w
      → AreAtMost n x (settle id w.hub p w).0
  unfolding init_keep_alive_check spawn give_back delivered
  settle-once id w (obj, true) k =
      let w1 = (set_hub (record w.hub { client_data = remove_found id w.hub.client_data }) w).0 in
      push-once (init_keep_alive_check w1).0 (r.push w.pool id) ((once-Frame n x).alarms w1 k)
  settle-once id w (obj, false) k = to_acknowledge-Keeps (once-Frame n x) obj _ k

  found-once :
      (id : ℕ) (w : World) (o : Option UnacknowledgedClientData)
      → AreAtMost n x w
      → AreAtMost n x (found id w.hub o w).0
  found-once id w none k = k
  found-once id w (some u) k = settle-once id w (acknowledge u) k

  msg-once : (m : HubMsg) → IsOther x m → Keeps (AreAtMost n x) (deal_hub_msg m)
  unfolding deal_hub_msg recover receive affirm_publish
  msg-once (recover_id id) q = λ w k. found-once id w (find id w.hub.client_data) k
  msg-once ping_success q = (once-Frame n x).alarms
  msg-once ping_fail q = λ w k. (once-Frame n x).calls _ refl _ k
  msg-once (keep_alive time) q = alive-once n x time
  msg-once (rx_publish p) q = λ w k. receive-once n x p p.qos w refl k
  msg-once (affirm_rx_id id) q = affirm-once n x id q
  msg-once (affirm_rx_publish id) q = λ w k. deliver-once n x id w (get id w.hub.rx_publish) refl k

module _ ⦃b : BytesCrate⦄ ⦃r : RingCrate⦄ ⦃bus : EventBus⦄ where
  -- As long as the identifier `x` is not affirmed by `AffirmRxId`, no run of the hub gives the user
  -- more publishes with the packet identifier `x` than it had given before, held, and was free to
  -- accept at the start.
  pub run-once :
      (x : ℕ) (is : List Input) (w : World)
      → All (IsAllowed (IsOther x)) is
      → delivered x (run is w).done ≤ pending x w
  run-once x is w q =
      let k =
        run-Keeps (once-Frame (pending x w) x) (IsOther x) (msg-once (pending x w) x)
          (data-once (pending x w) x) is w q (omega arith) in
      omega (arith, k)
