-- ===== src/Network/RoundTrip.antt =====
-- What `write` of src/protocol/packet/{publish,pubcommon}.rs puts on the wire, `read_from_network` of
-- src/protocol/packet/mod.rs takes off it again.
use for_mqtt_client.Base.{
  drop-length_append, take-length_append, append_assoc, length-append, ◌∙◌, ap, some, arith, drop,
  length, ◌++◌, ◌∷◌, [], List, false, true, Bool, refl, ◌≡◌, ◌<◌, ◌≤◌, ◌^◌, ◌+◌, ℕ,
}
use for_mqtt_client.Outcome.{ok}
use for_mqtt_client.Protocol.{Protocol, publish, new_header, packet_type, len_len}
use for_mqtt_client.Bytes.{BytesCrate}
use for_mqtt_client.Wire.{parse_fixed_header}
use for_mqtt_client.Wire.Lengths.{groups, length-groups}
use for_mqtt_client.Packet.Qos.{QoSWithPacketId}
use for_mqtt_client.Packet.Publish.{Publish}
use for_mqtt_client.Packet.Publish as PublishPacket
use for_mqtt_client.Packet.Publish.RoundTrip.{
  IsSendable, body, flag_byte, length-body, write-body, read-body,
}
use for_mqtt_client.Network.{publish_packet, read_packet, read_frame, read_from_network}
use for_mqtt_client.Network.Frames.{parse-groups}
use for_mqtt_client.Network.Verdict.{read_from_network-frames}

-- The bytes of a packet: the first byte, the length of the body, the body.
abbrev pub frame_of : ℕ → List ℕ → List ℕ
frame_of byte1 s = byte1 ∷ (groups 3 (length s) ++ s)

pub length-frame_of :
    (byte1 : ℕ) (s : List ℕ)
    → length s < 2 ^ 28
    → length (frame_of byte1 s) ≡ len_len (length s) + 1 + length s
length-frame_of byte1 s h =
    omega (arith, length-append (groups 3 (length s)) s, length-groups (length s) h)

drop_all_of : (n : ℕ) (xs ys : List ℕ) → n ≡ length xs → drop n (xs ++ ys) ≡ ys
drop_all_of n xs ys e = rw e (drop-length_append xs ys)

pub drop-frame_of :
    (byte1 : ℕ) (s : List ℕ)
    → length s < 2 ^ 28
    → drop (len_len (length s) + 1) (frame_of byte1 s) ≡ s
drop-frame_of byte1 s h =
    drop_all_of _ (byte1 ∷ groups 3 (length s)) s (omega (arith, length-groups (length s) h))

publish_type :
    (retain dup : Bool) (q : QoSWithPacketId) (l n : ℕ)
    → packet_type (new_header (flag_byte retain q dup) l n) ≡ ok publish
unfolding packet_type
publish_type false false QoSWithPacketId.at_most_once l n = refl
publish_type false false _ l n = refl
publish_type false true QoSWithPacketId.at_most_once l n = refl
publish_type false true _ l n = refl
publish_type true false QoSWithPacketId.at_most_once l n = refl
publish_type true false _ l n = refl
publish_type true true QoSWithPacketId.at_most_once l n = refl
publish_type true true _ l n = refl

module _ ⦃b : BytesCrate⦄ where
  -- A frame at the head of the stream is what `read_frame` is given.
  pub read_from_network-frame_of :
      (byte1 : ℕ) (s rest : List ℕ) (v : Protocol)
      → length s < 2 ^ 28
      → read_from_network (frame_of byte1 s ++ rest) v
        ≡ (rest, read_frame (new_header byte1 (len_len (length s)) (length s)) (frame_of byte1 s) v)
  read_from_network-frame_of byte1 s rest v h =
      let n = length s in
      let hd = new_header byte1 (len_len n) n in
      let size = length-frame_of byte1 s h in
      let parsed = parse-groups byte1 n (s ++ rest) h in
      read_from_network-frames (frame_of byte1 s ++ rest) v hd
        (ap (λ t. parse_fixed_header (byte1 ∷ t)) (append_assoc (groups 3 n) s rest) ∙ parsed)
        (omega (arith, size, length-append (frame_of byte1 s) rest))
      ∙ rw (
        ← size,
        take-length_append (frame_of byte1 s) rest,
        drop-length_append (frame_of byte1 s) rest,
      )

  publish_frame :
      (p : Publish) (l n : ℕ) (frame : List ℕ)
      → IsSendable p
      → l + 1 ≤ length frame
      → drop (l + 1) frame ≡ body p
      → read_frame (new_header (flag_byte p.retain p.qos p.dup) l n) frame p.protocol
        ≡ ok (some (publish_packet p))
  unfolding read_frame read_packet
  publish_frame p l n frame r le d = rw (
    publish_type p.retain p.dup p.qos l n,
    read-body p (new_header (flag_byte p.retain p.qos p.dup) l n) frame r refl le d,
  )

  -- The bytes that `Publish::write` makes of a publish, in front of any others, are taken off the
  -- stream by `read_from_network`, which returns this publish and leaves the others. The publish
  -- has a 16-bit identifier, a topic of UTF-8 below 65536 bytes, a length below 2^28 and, in
  -- version 5, no properties or a block of them that is not empty, in the ranges of their types and
  -- without subscription identifiers.
  pub publish_round_trip :
      (p : Publish) (rest : List ℕ)
      → IsSendable p
      → read_from_network ((PublishPacket.write p []).0 ++ rest) p.protocol
        ≡ (rest, ok (some (publish_packet p)))
  publish_round_trip p rest r =
      let byte1 = flag_byte p.retain p.qos p.dup in
      let size = length-body p r in
      let small : length (body p) < 2 ^ 28 = omega (arith, size, r.fits) in
      rw ((write-body p [] r).0, ← size)
        (read_from_network-frame_of byte1 (body p) rest p.protocol small
          ∙ ap (λ t. (rest, t))
              (publish_frame p _ _ (frame_of byte1 (body p)) r
                (omega (arith, length-frame_of byte1 (body p) small))
                (drop-frame_of byte1 (body p) small)))
