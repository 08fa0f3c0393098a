-- ===== src/Client/Limits.antt =====
-- What the size check of `publish_with_trace_id` (src/tasks/task_client/mod.rs) means for the length of the packet.
use for_mqtt_client.Base.{
  ℕ, suc, ◌+◌, ◌<◌, ◌≤◌, ◌^◌, ◌≡◌, refl, sym, ap, inl, inr, Bool, true, Bool-cases, ltb, not_ltb→le,
  le→not_ltb, List, ◌∷◌, length, arith,
}
use for_mqtt_client.Outcome.{ok}
use for_mqtt_client.Protocol.{v4, v5}
use for_mqtt_client.Properties.{Text}
use for_mqtt_client.Packet.Qos.{QoS, QoSWithPacketId}
use for_mqtt_client.Packet.Publish.{new, len}
use for_mqtt_client.Client.Ids.{subscribe_id}
use for_mqtt_client.Client.Data as Data
use for_mqtt_client.Client.Interface.{Client, request_data, dispatch, publish_with_trace_id}
use for_mqtt_client.Hub.World.{EventBus}

fits :
    (topic : Text) (payload : List ℕ) (retain : Bool) (q : QoSWithPacketId)
    → length payload + 4 + length topic ≤ 268_435_455
    → len (new topic q payload retain v4) < 2 ^ 28
unfolding len new
fits topic payload retain QoSWithPacketId.at_most_once h = omega (arith, h)
fits topic payload retain (QoSWithPacketId.at_least_once id) h = omega (arith, h)
fits topic payload retain (QoSWithPacketId.exactly_once id) h = omega (arith, h)

module _ ⦃bus : EventBus⦄ where
  dispatched-done :
      (topic : Text) (qos : QoS) (payload : List ℕ) (retain : Bool) (trace_id : ℕ) (w x : Client)
      → publish_with_trace_id topic qos payload retain trace_id w ≡ (x, ok tt)
      → (length payload + 4 + length topic ≤ 268_435_455)
        × (x.done
            ≡ request_data (Data.publish topic qos payload retain w.protocol trace_id) ∷ w.done)
  unfolding publish_with_trace_id dispatch
  dispatched-done topic qos payload retain trace_id w x e =
      elim (Bool-cases (ltb 268_435_455 (length payload + 4 + length topic))) [
        | inl long ↦ let failed = rw long at e in cc
        | inr short ↦ elim (Bool-cases (bus.accepts w.calls)) [
          | inl open_bus ↦
              let taken = rw (short, open_bus) at e in
              (not_ltb→le _ _ short, sym (ap (λ y. y.0.done) taken))
          | inr closed ↦ let failed = rw (short, closed) at e in cc
        ]
      ]

  -- A publish that a client of version 3.1.1 accepts has gone to the bus as a request with its
  -- content, and the packet that is made of it, whatever its quality and identifier, has a length
  -- that fits 28 bits.
  pub accepted-fits :
      (topic : Text) (qos : QoS) (payload : List ℕ) (retain : Bool) (trace_id : ℕ) (w x : Client)
      (q : QoSWithPacketId)
      → w.protocol ≡ v4
      → publish_with_trace_id topic qos payload retain trace_id w ≡ (x, ok tt)
      → (x.done ≡ request_data (Data.publish topic qos payload retain v4 trace_id) ∷ w.done)
        × (len (new topic q payload retain v4) < 2 ^ 28)
  accepted-fits topic qos payload retain trace_id w x q is_v4 e =
      let (short, content) = dispatched-done topic qos payload retain trace_id w x e in
      (rw (← is_v4) content, fits topic payload retain q short)

  -- In version 5 the check leaves out the byte for the length of the properties: a topic and a
  -- payload of 268435451 bytes together are accepted, if the bus takes the request, and the packet
  -- with quality 1 that is made of them has a length of 2^28, one more than a packet can have.
  pub accepted-too_long :
      (topic : Text) (payload : List ℕ) (retain : Bool) (trace_id id : ℕ) (w : Client)
      → w.protocol ≡ v5
      → length payload + length topic ≡ 268_435_451
      → bus.accepts w.calls ≡ true
      → (publish_with_trace_id topic QoS.at_least_once payload retain trace_id w ≡ (
        record w {
          calls = suc w.calls;
          done =
              request_data (Data.publish topic QoS.at_least_once payload retain v5 trace_id)
              ∷ w.done;
        },
        ok tt,
      ))
        × (len (new topic (QoSWithPacketId.at_least_once id) payload retain v5) ≡ 2 ^ 28)
  unfolding publish_with_trace_id dispatch len new
  accepted-too_long topic payload retain trace_id id w is_v5 size open_bus =
      let short =
        le→not_ltb 268_435_455 (length payload + 4 + length topic) (omega (arith, size)) in
      (rw (short, open_bus, is_v5) refl, omega (arith, size))

-- Whatever the counter is, the number that `SubscribeId::id` gives is one of MQTT's subscription
-- identifiers, from 1 to 268435455, and the next value of the counter is at most one more.
pub subscribe_id-range :
    (counter : ℕ)
    → (1 ≤ (subscribe_id counter).0)
      × ((subscribe_id counter).0 ≤ 268_435_455)
      × ((subscribe_id counter).1 ≤ (subscribe_id counter).0 + 1)
unfolding subscribe_id
subscribe_id-range counter = ground arith
