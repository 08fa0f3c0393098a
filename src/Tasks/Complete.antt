-- ===== src/Tasks/Complete.antt =====
-- `complete_to_tx_packet` of src/tasks/utils.rs: a packet is sent, and sent again each time that its
-- acknowledgement has not come for ten seconds.
use for_mqtt_client.Base.{
  ℕ, zero, suc, Bool, true, List, [], ◌∷◌, length, Option, none, some, if◌then◌else◌,
}
use for_mqtt_client.Outcome.{ok, out_of_fuel}
use for_mqtt_client.Bytes.{BytesCrate}
use for_mqtt_client.Wire.{Read}
use for_mqtt_client.Packet.Publish.{Publish}
use for_mqtt_client.Packet.Publish as PublishPacket
use for_mqtt_client.Packet.PubCommon.{PubCommon, Common, is_rel, data_of}
use for_mqtt_client.Packet.SubAck as SubAckPacket
use for_mqtt_client.Packet.SubAck.{SubAck}
use for_mqtt_client.Packet.UnsubAck as UnsubAckPacket
use for_mqtt_client.Packet.UnsubAck.{UnsubAck}
use for_mqtt_client.Packet.Subscribe as SubscribePacket
use for_mqtt_client.Packet.Subscribe.{Subscribe}
use for_mqtt_client.Packet.Unsubscribe as UnsubscribePacket
use for_mqtt_client.Packet.Unsubscribe.{Unsubscribe}
use for_mqtt_client.Hub.World.{EventBus}
use for_mqtt_client.Task.{Task, ◌>>=◌, ◌>>◌, return, fail, wait}
use for_mqtt_client.Tasks.World.{
  CommonErr, channel_abnormal, Event, packet, bus_closed, Exchange, Timed, in_time, in_error, late,
  set_inputs, timeout, bytes_of, tx_network_default,
}

-- The trait of src/traits/packet_rel.rs.
pub record PacketRel (Ack : Type 0) : Type 0 where
  pub is_rel : Ack → ℕ → Bool

-- The trait of src/traits/packet_dup.rs.
pub record PacketDup (T : Type 0) : Type 0 where
  pub data_of : T → Read (List ℕ)
  pub dup_data : T → Read (List ℕ)

instance unfoldable pub common_rel : {c : Common} → PacketRel (PubCommon c)
common_rel = record { is_rel = is_rel }

instance unfoldable pub sub_ack_rel : PacketRel SubAck
sub_ack_rel = record { is_rel = SubAckPacket.is_rel }

instance unfoldable pub unsub_ack_rel : PacketRel UnsubAck
unsub_ack_rel = record { is_rel = UnsubAckPacket.is_rel }

module _ ⦃b : BytesCrate⦄ where
  instance unfoldable pub publish_dup : PacketDup Publish
  publish_dup = record {
    data_of = λ p. ok (PublishPacket.write p []).0;
    dup_data = λ p. ok (PublishPacket.write (record p { dup = true }) []).0;
  }

  instance unfoldable pub common_dup : {c : Common} → PacketDup (PubCommon c)
  common_dup = record { data_of = data_of; dup_data = data_of }

  instance unfoldable pub subscribe_dup : PacketDup Subscribe
  subscribe_dup = record {
    data_of = λ p. ok (SubscribePacket.data_of p);
    dup_data = λ p. ok (SubscribePacket.data_of p);
  }

  instance unfoldable pub unsubscribe_dup : PacketDup Unsubscribe
  unsubscribe_dup = record {
    data_of = λ p. ok (UnsubscribePacket.data_of p);
    dup_data = λ p. ok (UnsubscribePacket.data_of p);
  }

abbrev pub acknowledged :
    {Ack : Type 0}
    → Task (Exchange Ack) CommonErr Ack
    → Timed CommonErr Ack
    → Task (Exchange Ack) CommonErr Ack
acknowledged retry (in_time ack) = return ack
acknowledged retry (in_error e) = fail e
acknowledged retry late = retry

module _ {Ack : Type 0} ⦃rel : PacketRel Ack⦄ where
  -- The loop of `timeout_rx`, on what the bus gives.
  unfoldable pub relevant : List (Event Ack) → ℕ → Task (Exchange Ack) CommonErr Ack
  relevant (packet msg ∷ inputs) packet_id =
      let rest = relevant inputs packet_id in
      set_inputs inputs >> (if rel.is_rel msg packet_id then return msg else rest)
  relevant (bus_closed ∷ inputs) packet_id = set_inputs inputs >> fail channel_abnormal
  relevant _ packet_id = wait

  unfoldable pub timeout_rx : ℕ → Task (Exchange Ack) CommonErr Ack
  timeout_rx packet_id w = relevant w.inputs packet_id w

  module _ ⦃bus : EventBus⦄ {T : Type 0} ⦃dup : PacketDup T⦄ where
    -- The bytes that are sent again, made once.
    abbrev pub again : Option (List ℕ) → T → Task (Exchange Ack) CommonErr (List ℕ)
    again (some bytes) request = return bytes
    again none request = bytes_of (dup.dup_data request)

    unfoldable pub attempts : ℕ → ℕ → Option (List ℕ) → T → Task (Exchange Ack) CommonErr Ack
    attempts zero packet_id dup_bytes request = λ w. (w, out_of_fuel)
    attempts (suc n) packet_id dup_bytes request =
        timeout (timeout_rx packet_id)
        >>= acknowledged (
            again dup_bytes request >>= λ bytes.
            tx_network_default bytes >> attempts n packet_id (some bytes) request)

    -- Each attempt but the last takes an input, the end of its time.
    unfoldable pub complete_to_tx_packet : ℕ → T → Task (Exchange Ack) CommonErr Ack
    complete_to_tx_packet packet_id request = do
      bytes ← bytes_of (dup.data_of request)
      tx_network_default bytes
      λ w. attempts (suc (length w.inputs)) packet_id none request w
