-- ===== src/Tests/Wire.antt =====
-- The wire format on concrete bytes.
use for_mqtt_client.Base.{◌≡◌, refl, [], ◌∷◌, ◌++◌, true, false, arith, some, ◌+◌, length}
use for_mqtt_client.Outcome.{ok}
use for_mqtt_client.Protocol.{len_len}
use for_mqtt_client.Wire.{
  decode_length, write_remaining_length, read_mqtt_string, write_mqtt_string,
}
use for_mqtt_client.Wire.Utf8.{is_utf8}
use for_mqtt_client.Wire.Lengths.{groups, IsLength, decode_length_bounds, decode_length-append}
use for_mqtt_client.Wire.RoundTrip.{remaining_length_round_trip, mqtt_string_round_trip}
use for_mqtt_client.Packet.Publish.{write, len}
use for_mqtt_client.Packet.Publish.RoundTrip.{write-body, body, flag_byte}
use for_mqtt_client.Packet.Connect.Login as Login
use for_mqtt_client.Packet.Connect.Login.{read-write}
use for_mqtt_client.Packet.Disconnect.Codes.{
  try_from, reason_code_number, not_authorized, try_from-number,
}
use for_mqtt_client.Packet.Subscribe as SubscribePacket
use for_mqtt_client.Packet.Subscribe.{Subscribe}
use for_mqtt_client.Packet.Subscribe.Layout as SubscribeLayout
use for_mqtt_client.Packet.Subscribe.Layout.{subscribe_layout}
use for_mqtt_client.Packet.Unsubscribe as UnsubscribePacket
use for_mqtt_client.Packet.Unsubscribe.{Unsubscribe}
use for_mqtt_client.Packet.Unsubscribe.Layout as UnsubscribeLayout
use for_mqtt_client.Packet.Unsubscribe.Layout.{unsubscribe_layout}
use for_mqtt_client.Tests.Samples.{sample, sample-IsSendable, bytes}

remaining_length_round_trip_example :
    decode_length ((write_remaining_length [] 300).0 ++ (7 ∷ []))
    ≡ ok ((write_remaining_length [] 300).1, 300)
remaining_length_round_trip_example = remaining_length_round_trip 300 (7 ∷ []) (omega arith)

mqtt_string_round_trip_example :
    read_mqtt_string (write_mqtt_string [] (0xC3 ∷ 0xA9 ∷ []) ++ (7 ∷ []))
    ≡ ok (0xC3 ∷ 0xA9 ∷ [], 7 ∷ [])
unfolding is_utf8
mqtt_string_round_trip_example =
    mqtt_string_round_trip (0xC3 ∷ 0xA9 ∷ []) (7 ∷ []) (omega arith) refl

decode_length_bounds_example : IsLength (172 ∷ 2 ∷ []) (2, 300)
unfolding decode_length
decode_length_bounds_example =
    decode_length_bounds (172 ∷ 2 ∷ []) 2 300 (omega arith, (omega arith, tt)) refl

decode_length-append_example : decode_length ((172 ∷ 2 ∷ []) ++ (9 ∷ [])) ≡ ok (2, 300)
unfolding decode_length
decode_length-append_example = decode_length-append (172 ∷ 2 ∷ []) (9 ∷ []) refl

write-body_example :
    (write sample (1 ∷ []) ≡ (
      (1 ∷ []) ++ (flag_byte true sample.qos false ∷ (groups 3 (len sample) ++ body sample)),
      1 + len_len (len sample) + len sample,
    ))
    × (length (groups 3 (len sample)) ≡ len_len (len sample))
    × (length (body sample) ≡ len sample)
write-body_example = write-body sample (1 ∷ []) sample-IsSendable

abbrev a_subscribe : Subscribe
a_subscribe = Subscribe.v5 3 [] (0 ∷ 1 ∷ 0x61 ∷ 1 ∷ [])

subscribe_layout_example :
    (SubscribePacket.write a_subscribe [] ≡ (
      0x82 ∷ (groups 3 (SubscribePacket.len a_subscribe) ++ SubscribeLayout.body a_subscribe),
      1 + len_len (SubscribePacket.len a_subscribe) + SubscribePacket.len a_subscribe,
    ))
    × (length (SubscribeLayout.body a_subscribe) ≡ SubscribePacket.len a_subscribe)
unfolding SubscribePacket.len SubscribePacket.packet_id len_len
subscribe_layout_example = subscribe_layout a_subscribe [] (omega arith) (omega arith)

abbrev an_unsubscribe : Unsubscribe
an_unsubscribe = Unsubscribe.v4 3 (0 ∷ 1 ∷ 0x61 ∷ [])

unsubscribe_layout_example :
    (UnsubscribePacket.write an_unsubscribe [] ≡ (
      0xa2
          ∷ (groups 3 (UnsubscribePacket.len an_unsubscribe)
              ++ UnsubscribeLayout.body an_unsubscribe),
      1 + len_len (UnsubscribePacket.len an_unsubscribe) + UnsubscribePacket.len an_unsubscribe,
    ))
    × (length (UnsubscribeLayout.body an_unsubscribe) ≡ UnsubscribePacket.len an_unsubscribe)
unfolding UnsubscribePacket.len UnsubscribePacket.packet_id len_len
unsubscribe_layout_example = unsubscribe_layout an_unsubscribe [] (omega arith) (omega arith)

read-write_example :
    Login.read
      (Login.write (record { username = 0x61 ∷ []; password = [] }) []).0
      ((Login.write (record { username = 0x61 ∷ []; password = [] }) []).1 ++ (7 ∷ []))
    ≡ ok (some (record { username = 0x61 ∷ []; password = [] }), 7 ∷ [])
unfolding is_utf8
read-write_example =
    read-write (record { username = 0x61 ∷ []; password = [] }) (7 ∷ []) (omega arith, refl)
      (omega arith, refl)

try_from-number_example : try_from (reason_code_number not_authorized) ≡ ok not_authorized
try_from-number_example = try_from-number not_authorized
