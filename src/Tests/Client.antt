-- ===== src/Tests/Client.antt =====
-- The client interface on concrete requests.
use for_mqtt_client.Base.{
  ℕ, zero, suc, ◌+◌, ◌<◌, ◌≤◌, ◌^◌, ◌≡◌, refl, ap, List, [], ◌∷◌, ◌++◌, length, none, true, arith,
}
use for_mqtt_client.Wire.{write_mqtt_string, write_mqtt_bytes}
use for_mqtt_client.Wire.Reading.{be16}
use for_mqtt_client.Wire.Lengths.{groups}
use for_mqtt_client.Packet.Publish as Publish
use for_mqtt_client.Client.Data as Data
use for_mqtt_client.Outcome.{ok}
use for_mqtt_client.Protocol.{v4, v5, len_len}
use for_mqtt_client.Packet.Qos.{QoS, QoSWithPacketId}
use for_mqtt_client.Packet.Subscribe.{set_packet_id, len, write, merge_to_u8}
use for_mqtt_client.Client.Ids.{subscribe_id}
use for_mqtt_client.Client.SubscribeBuilder.{
  SubscribeBuilder, new, build, add_filter, set_nolocal, change_last, add_user_properties,
  trace_subscribe, write_filter, write_filters, write_user_properties, write_properties,
}
use for_mqtt_client.Client.Interface.{Client, request_data, dispatch, publish_with_trace_id}
use for_mqtt_client.Client.Filters.{payload_of, AreShort, write-trace_subscribe}
use for_mqtt_client.Client.Limits.{accepted-fits, accepted-too_long, subscribe_id-range}
use for_mqtt_client.Tests.Samples.{bytes, open_bus}

-- Two filters, the second without local messages, and a user property.
unfoldable two_filters : SubscribeBuilder v5
unfolding new build add_filter set_nolocal change_last add_user_properties
two_filters =
    let builder = build (new (0x61 ∷ []) QoS.at_least_once) 4 in
    let builder = add_filter builder (0x62 ∷ []) QoS.exactly_once in
    let builder = change_last (λ f. set_nolocal f true) builder in
    add_user_properties builder (0x6b ∷ []) (0x76 ∷ [])

two_filters-id : two_filters.id ≡ none
unfolding two_filters
two_filters-id = refl

two_filters-AreShort : AreShort two_filters
unfolding two_filters new build add_filter set_nolocal change_last add_user_properties
two_filters-AreShort = record {
  paths = (omega arith, (omega arith, tt));
  pairs = ((omega arith, omega arith), tt);
}

two_filters-len : len (set_packet_id (trace_subscribe two_filters).subscribe 7) < 2 ^ 28
unfolding two_filters new build add_filter set_nolocal change_last add_user_properties
    trace_subscribe write_filter write_filters write_user_properties write_properties set_packet_id
    len len_len merge_to_u8 bytes write_mqtt_string write_mqtt_bytes
two_filters-len = omega arith

-- The bytes of the packet, with the number of the request that the hub has set.
write-trace_subscribe_example :
    (write (set_packet_id (trace_subscribe two_filters).subscribe 7) []).0
    ≡ 0x82
      ∷ (groups 3 (length (be16 7 ++ payload_of two_filters)) ++ (be16 7 ++ payload_of two_filters))
write-trace_subscribe_example =
    write-trace_subscribe two_filters 7 two_filters-id two_filters-AreShort (omega arith)
      two_filters-len

abbrev client : Client
client = record { protocol = v4; counter = 0; calls = 0; done = [] }

unfoldable zeros : ℕ → List ℕ
zeros zero = []
zeros (suc n) = 0 ∷ zeros n

length-zeros : (n : ℕ) → length (zeros n) ≡ n
unfolding zeros
length-zeros zero = refl
length-zeros (suc n) = ap suc (length-zeros n)

abbrev kept : Client
kept = record client {
  calls = 1;
  done = request_data (Data.publish (0x61 ∷ []) QoS.at_most_once (1 ∷ []) true v4 3) ∷ [];
}

accepted-fits_example :
    (kept.done ≡ request_data (Data.publish (0x61 ∷ []) QoS.at_most_once (1 ∷ []) true v4 3) ∷ [])
    × (Publish.len (Publish.new (0x61 ∷ []) (QoSWithPacketId.exactly_once 9) (1 ∷ []) true v4)
        < 2 ^ 28)
unfolding publish_with_trace_id dispatch open_bus
accepted-fits_example =
    accepted-fits (0x61 ∷ []) QoS.at_most_once (1 ∷ []) true 3 client kept
      (QoSWithPacketId.exactly_once 9) refl refl

long-size : length (zeros 268_435_450) + 1 ≡ 268_435_451
long-size = rw (length-zeros 268_435_450) refl

accepted-too_long_example :
    (publish_with_trace_id
        (0x61 ∷ [])
        QoS.at_least_once
        (zeros 268_435_450)
        true
        3
        (record client { protocol = v5 })
      ≡ (
        record client {
          protocol = v5;
          calls = 1;
          done =
              request_data
                (Data.publish (0x61 ∷ []) QoS.at_least_once (zeros 268_435_450) true v5 3)
              ∷ [];
        },
        ok tt,
      ))
    × (Publish.len
          (Publish.new (0x61 ∷ []) (QoSWithPacketId.at_least_once 9) (zeros 268_435_450) true v5)
        ≡ 2 ^ 28)
unfolding open_bus
accepted-too_long_example =
    accepted-too_long (0x61 ∷ []) (zeros 268_435_450) true 3 9 (record client { protocol = v5 })
      refl long-size refl

subscribe_id-range_example :
    (1 ≤ (subscribe_id 268_435_456).0)
    × ((subscribe_id 268_435_456).0 ≤ 268_435_455)
    × ((subscribe_id 268_435_456).1 ≤ (subscribe_id 268_435_456).0 + 1)
subscribe_id-range_example = subscribe_id-range 268_435_456
