-- ===== src/Tests/Stream.antt =====
-- The stream of packets on concrete bytes.
use for_mqtt_client.Base.{ℕ, ◌≡◌, List, [], ◌∷◌, ◌++◌, arith, some}
use for_mqtt_client.Outcome.{ok, Returns}
use for_mqtt_client.Protocol.{v4, v5}
use for_mqtt_client.Packet.Publish.{write}
use for_mqtt_client.Packet.PubCommon.{pub_ack_ty, pub_rec_ty, pub_rel_ty, pub_comp_ty}
use for_mqtt_client.Packet.PubCommon.Laws.{received}
use for_mqtt_client.Network.{
  publish_packet, pub_ack_packet, pub_rec_packet, pub_rel_packet, pub_comp_packet,
  read_from_network,
}
use for_mqtt_client.Network.Totality.{read_from_network-Returns}
use for_mqtt_client.Network.Framing.{Consumes, read_from_network-Consumes, read_from_network-append}
use for_mqtt_client.Network.RoundTrip.{publish_round_trip}
use for_mqtt_client.Network.Acks.{sent_and_read, acks_round_trip}
use for_mqtt_client.Tests.Samples.{sample, sample-IsSendable, bytes}

-- A PubAck of version 5 that ends in the middle of its properties.
abbrev broken : List ℕ
broken = 0x40 ∷ 5 ∷ 0 ∷ 7 ∷ 0 ∷ 9 ∷ 31 ∷ []

read_from_network-Returns_example : Returns (λ _. Unit {0}) (read_from_network broken v5).1
read_from_network-Returns_example = read_from_network-Returns broken v5 (
  omega arith,
  (omega arith, (omega arith, (omega arith, (omega arith, (omega arith, (omega arith, tt)))))),
)

read_from_network-Consumes_example : Consumes broken (read_from_network broken v5)
read_from_network-Consumes_example = read_from_network-Consumes broken v5 (
  omega arith,
  (omega arith, (omega arith, (omega arith, (omega arith, (omega arith, (omega arith, tt)))))),
)

publish_round_trip_example :
    read_from_network ((write sample []).0 ++ (1 ∷ [])) v5
    ≡ (1 ∷ [], ok (some (publish_packet sample)))
publish_round_trip_example = publish_round_trip sample (1 ∷ []) sample-IsSendable

read_from_network-append_example :
    read_from_network (((write sample []).0 ++ (1 ∷ [])) ++ (2 ∷ [])) v5
    ≡ (1 ∷ 2 ∷ [], ok (some (publish_packet sample)))
read_from_network-append_example =
    read_from_network-append ((write sample []).0 ++ (1 ∷ [])) (2 ∷ []) v5 (1 ∷ [])
      (publish_packet sample) (publish_round_trip sample (1 ∷ []) sample-IsSendable)

acks_round_trip_example :
    (sent_and_read pub_ack_ty 5 v4 []
      ≡ ok ([], ok (some (pub_ack_packet (received pub_ack_ty 5 v4)))))
    × (sent_and_read pub_rec_ty 5 v4 []
        ≡ ok ([], ok (some (pub_rec_packet (received pub_rec_ty 5 v4)))))
    × (sent_and_read pub_rel_ty 5 v4 []
        ≡ ok ([], ok (some (pub_rel_packet (received pub_rel_ty 5 v4)))))
    × (sent_and_read pub_comp_ty 5 v4 []
        ≡ ok ([], ok (some (pub_comp_packet (received pub_comp_ty 5 v4)))))
acks_round_trip_example = acks_round_trip 5 v4 [] (omega arith)
