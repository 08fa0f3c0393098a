-- ===== src/Network/Totality.antt =====
-- No stream of bytes makes the reader of src/protocol/packet/mod.rs panic.
use for_mqtt_client.Base.{ℕ, ◌≤◌, List, length, All, All-take, length-take, take, arith, Option}
use for_mqtt_client.Outcome.{Returns, returns_ok, returns_err, Returns-bind}
use for_mqtt_client.Protocol.{
  Protocol, PacketType, conn_ack, publish, pub_ack, pub_rec, pub_rel, pub_comp, sub_ack, unsub_ack,
  ping_resp, disconnect, FixedHeader, frame_length,
}
use for_mqtt_client.Protocol.Laws.{packet_type-Returns}
use for_mqtt_client.Bytes.{BytesCrate, IsByte}
use for_mqtt_client.Wire.{Read}
use for_mqtt_client.Packet.Publish.Reads as Publish
use for_mqtt_client.Packet.PubCommon.{pub_ack_ty, pub_rec_ty, pub_rel_ty, pub_comp_ty}
use for_mqtt_client.Packet.PubCommon.Laws as PubCommon
use for_mqtt_client.Packet.SubAck as SubAck
use for_mqtt_client.Packet.UnsubAck as UnsubAck
use for_mqtt_client.Packet.ConnAck as ConnAck
use for_mqtt_client.Packet.Disconnect as Disconnect
use for_mqtt_client.Network.{Packet, read_disconnect, read_packet, read_frame, read_from_network}
use for_mqtt_client.Network.Verdict.{
  Verdict, short, discards, waits, frames, read_from_network-Verdict,
}

module _ ⦃b : BytesCrate⦄ where
  read_packet-Returns :
      (ty : PacketType) (h : FixedHeader) (s : List ℕ) (v : Protocol)
      → All IsByte s
      → h.fixed_header_len ≤ length s
      → Returns (λ _. Unit {0}) (read_packet ty h s v)
  unfolding read_packet read_disconnect
  read_packet-Returns conn_ack h s v hb le =
      Returns-bind (ConnAck.read-Returns h s v hb le) λ p _. returns_ok tt
  read_packet-Returns publish h s v hb le =
      Returns-bind (Publish.read-Returns h s v hb le) λ p _. returns_ok tt
  read_packet-Returns pub_ack h s v hb le =
      Returns-bind (PubCommon.read-Returns pub_ack_ty h s v hb le) λ p _. returns_ok tt
  read_packet-Returns pub_rec h s v hb le =
      Returns-bind (PubCommon.read-Returns pub_rec_ty h s v hb le) λ p _. returns_ok tt
  read_packet-Returns pub_rel h s v hb le =
      Returns-bind (PubCommon.read-Returns pub_rel_ty h s v hb le) λ p _. returns_ok tt
  read_packet-Returns pub_comp h s v hb le =
      Returns-bind (PubCommon.read-Returns pub_comp_ty h s v hb le) λ p _. returns_ok tt
  read_packet-Returns sub_ack h s v hb le =
      Returns-bind (SubAck.read-Returns h s v hb le) λ p _. returns_ok tt
  read_packet-Returns unsub_ack h s v hb le =
      Returns-bind (UnsubAck.read-Returns h s v hb le) λ p _. returns_ok tt
  read_packet-Returns ping_resp h s v hb le = returns_ok tt
  read_packet-Returns disconnect h s Protocol.v4 hb le = returns_err
  read_packet-Returns disconnect h s Protocol.v5 hb le =
      Returns-bind (Disconnect.read-Returns h s Protocol.v5 hb le) λ p _. returns_ok tt
  read_packet-Returns PacketType.connect h s v hb le = returns_err
  read_packet-Returns _ h s v hb le = returns_err

  read_frame-Returns :
      (h : FixedHeader) (s : List ℕ) (v : Protocol)
      → All IsByte s
      → h.fixed_header_len ≤ length s
      → Returns (λ _. Unit {0}) (read_frame h s v)
  unfolding read_frame
  read_frame-Returns h s v hb le =
      Returns-bind (packet_type-Returns h)
        λ ty _. Returns-bind (read_packet-Returns ty h s v hb le) λ p _. returns_ok tt

  Verdict-Returns :
      (s : List ℕ) (v : Protocol) {r : List ℕ × Read (Option Packet)}
      → All IsByte s
      → Verdict s v r
      → Returns (λ _. Unit {0}) r.1
  Verdict-Returns s v hb (short n e) = returns_err
  Verdict-Returns s v hb (discards e) = returns_err
  Verdict-Returns s v hb (waits h e l) = returns_ok tt
  Verdict-Returns s v hb (frames h e le) =
      read_frame-Returns h (take (frame_length h) s) v (All-take IsByte (frame_length h) s hb)
        (omega (arith, length-take (frame_length h) s le))

  -- Whatever bytes the stream holds, `read_from_network` returns a packet, `None` or an error, in
  -- both versions: no reader of a packet reads past the end of its bytes, which would panic.
  pub read_from_network-Returns :
      (s : List ℕ) (v : Protocol) → All IsByte s → Returns (λ _. Unit {0}) (read_from_network s v).1
  read_from_network-Returns s v hb = Verdict-Returns s v hb (read_from_network-Verdict s v)
