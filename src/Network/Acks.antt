-- ===== src/Network/Acks.antt =====
-- The acknowledgements that the client makes (src/protocol/packet/pubcommon.rs), as
-- `read_from_network` takes them off the wire.
use for_mqtt_client.Base.{
  ℕ, ◌+◌, ◌<◌, ◌≡◌, refl, List, ◌++◌, length, arith, some, Option, ◌^◌, ap, drop, ◌≤◌,
}
use for_mqtt_client.Outcome.{ok, ◌>>=◌}
use for_mqtt_client.Protocol.{Protocol, new_header, packet_type, len_len}
use for_mqtt_client.Bytes.{BytesCrate}
use for_mqtt_client.Wire.{Read}
use for_mqtt_client.Wire.Reading.{be16}
use for_mqtt_client.Packet.PubCommon.{
  Common, PubCommon, read, data_of, new, pub_ack_ty, pub_rec_ty, pub_rel_ty, pub_comp_ty,
}
use for_mqtt_client.Packet.PubCommon.Laws.{data-new, received, read-received}
use for_mqtt_client.Network.{
  Packet, pub_ack_packet, pub_rec_packet, pub_rel_packet, pub_comp_packet, read_packet, read_frame,
  read_from_network,
}
use for_mqtt_client.Network.RoundTrip.{
  frame_of, length-frame_of, drop-frame_of, read_from_network-frame_of,
}

module _ ⦃b : BytesCrate⦄ where
  -- The frame of an acknowledgement of type `c`, which the match of `read_from_network` wraps.
  abbrev Wraps : (c : Common) → (PubCommon c → Packet) → Type 0
  Wraps c wrap =
      (n : ℕ) (frame : List ℕ) (v : Protocol)
      → read_frame (new_header c.ty n 2) frame v
        ≡ (read c (new_header c.ty n 2) frame v >>= (λ p. ok (wrap p)) >>= λ p. ok (some p))

  ack_frame :
      (c : Common) (wrap : PubCommon c → Packet) (id n : ℕ) (frame : List ℕ) (v : Protocol)
      → Wraps c wrap
      → n + 1 ≤ length frame
      → drop (n + 1) frame ≡ be16 id
      → read_frame (new_header c.ty n 2) frame v ≡ ok (some (wrap (received c id v)))
  ack_frame c wrap id n frame v w le d =
      rw (w n frame v, read-received c (new_header c.ty n 2) frame id v refl le d)

  -- The whole way: the bytes of a fresh packet, in front of others.
  abbrev pub sent_and_read :
      (c : Common) → ℕ → Protocol → List ℕ → Read (List ℕ × Read (Option Packet))
  sent_and_read c id v rest = data_of (new c id v) >>= λ s. ok (read_from_network (s ++ rest) v)

  ack_round_trip :
      (c : Common) (wrap : PubCommon c → Packet) (id : ℕ) (v : Protocol) (rest : List ℕ)
      → Wraps c wrap
      → id < 65536
      → sent_and_read c id v rest ≡ ok (rest, ok (some (wrap (received c id v))))
  ack_round_trip c wrap id v rest w hid =
      let small : length (be16 id) < 2 ^ 28 = omega arith in
      rw (data-new c id v hid, read_from_network-frame_of c.ty (be16 id) rest v small)
        (ap (λ t. ok (rest, t))
          (ack_frame c wrap id (len_len 2) (frame_of c.ty (be16 id)) v w
            (omega (arith, length-frame_of c.ty (be16 id) small))
            (drop-frame_of c.ty (be16 id) small)))

  pub_ack-Wraps : Wraps pub_ack_ty pub_ack_packet
  unfolding read_frame read_packet packet_type
  pub_ack-Wraps n frame v = refl

  pub_rec-Wraps : Wraps pub_rec_ty pub_rec_packet
  unfolding read_frame read_packet packet_type
  pub_rec-Wraps n frame v = refl

  pub_rel-Wraps : Wraps pub_rel_ty pub_rel_packet
  unfolding read_frame read_packet packet_type
  pub_rel-Wraps n frame v = refl

  pub_comp-Wraps : Wraps pub_comp_ty pub_comp_packet
  unfolding read_frame read_packet packet_type
  pub_comp-Wraps n frame v = refl

  -- Each of the four acknowledgements, made by `new` for a 16-bit identifier in either version, is
  -- written without a panic, and `read_from_network` reads it back from the bytes and leaves those
  -- behind it.
  pub acks_round_trip :
      (id : ℕ) (v : Protocol) (rest : List ℕ)
      → id < 65536
      → (sent_and_read pub_ack_ty id v rest
          ≡ ok (rest, ok (some (pub_ack_packet (received pub_ack_ty id v)))))
        × (sent_and_read pub_rec_ty id v rest
            ≡ ok (rest, ok (some (pub_rec_packet (received pub_rec_ty id v)))))
        × (sent_and_read pub_rel_ty id v rest
            ≡ ok (rest, ok (some (pub_rel_packet (received pub_rel_ty id v)))))
        × (sent_and_read pub_comp_ty id v rest
            ≡ ok (rest, ok (some (pub_comp_packet (received pub_comp_ty id v)))))
  acks_round_trip id v rest h = (
    ack_round_trip pub_ack_ty pub_ack_packet id v rest pub_ack-Wraps h,
    ack_round_trip pub_rec_ty pub_rec_packet id v rest pub_rec-Wraps h,
    ack_round_trip pub_rel_ty pub_rel_packet id v rest pub_rel-Wraps h,
    ack_round_trip pub_comp_ty pub_comp_packet id v rest pub_comp-Wraps h,
  )
