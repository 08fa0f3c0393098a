-- ===== src/Network.antt =====
-- `Packet` and `read_from_network` of src/protocol/packet/mod.rs: how the client takes packets off
-- the stream of bytes that the broker sends.
pub mod Frames
pub mod Verdict
pub mod Totality
pub mod Framing
pub mod RoundTrip
pub mod Acks
use for_mqtt_client.Base.{
  ℕ, ◌<◌, Bool, true, false, Option, none, some, List, [], length, ltb, if◌then◌else◌,
}
use for_mqtt_client.Outcome.{Outcome, ok, err, panic, out_of_fuel, ◌>>=◌}
use for_mqtt_client.Protocol.{
  Protocol, PacketType, conn_ack, publish, pub_ack, pub_rec, pub_rel, pub_comp, sub_ack, unsub_ack,
  ping_resp, disconnect, packet_type_code, packet_type, invalid_packet_type, FixedHeader,
  FixedHeaderError, frame_length, from_header_error, to_discard,
}
use for_mqtt_client.Bytes.{BytesCrate}
use for_mqtt_client.Wire.{Read, parse_fixed_header}
use for_mqtt_client.Packet.Publish as PublishPacket
use for_mqtt_client.Packet.Publish.{Publish}
use for_mqtt_client.Packet.PubCommon
use for_mqtt_client.Packet.PubCommon.{PubCommon, pub_ack_ty, pub_rec_ty, pub_rel_ty, pub_comp_ty}
use for_mqtt_client.Packet.SubAck as SubAckPacket
use for_mqtt_client.Packet.SubAck.{SubAck}
use for_mqtt_client.Packet.UnsubAck as UnsubAckPacket
use for_mqtt_client.Packet.UnsubAck.{UnsubAck}
use for_mqtt_client.Packet.ConnAck as ConnAckPacket
use for_mqtt_client.Packet.ConnAck.{ConnAck}
use for_mqtt_client.Packet.Disconnect as DisconnectPacket
use for_mqtt_client.Packet.Disconnect.{Disconnect}
use for_mqtt_client.Packet.Connect.Write.{Connect}
use for_mqtt_client.Packet.Subscribe.{Subscribe}
use for_mqtt_client.Packet.Unsubscribe.{Unsubscribe}

pub data Packet : Type 0 where
  connect_packet : Connect → Packet
  conn_ack_packet : ConnAck → Packet
  publish_packet : Publish → Packet
  pub_ack_packet : PubCommon pub_ack_ty → Packet
  ping_resp_packet : Packet
  subscribe_packet : Subscribe → Packet
  sub_ack_packet : SubAck → Packet
  pub_rec_packet : PubCommon pub_rec_ty → Packet
  pub_rel_packet : PubCommon pub_rel_ty → Packet
  pub_comp_packet : PubCommon pub_comp_ty → Packet
  unsubscribe_packet : Unsubscribe → Packet
  unsub_ack_packet : UnsubAck → Packet
  disconnect_packet : Disconnect → Packet

unfoldable pub packet_ty : Packet → PacketType
packet_ty (connect_packet p) = PacketType.connect
packet_ty (conn_ack_packet p) = conn_ack
packet_ty (publish_packet p) = publish
packet_ty (pub_ack_packet p) = pub_ack
packet_ty ping_resp_packet = ping_resp
packet_ty (subscribe_packet p) = PacketType.subscribe
packet_ty (sub_ack_packet p) = sub_ack
packet_ty (pub_rec_packet p) = pub_rec
packet_ty (pub_rel_packet p) = pub_rel
packet_ty (pub_comp_packet p) = pub_comp
packet_ty (unsubscribe_packet p) = PacketType.unsubscribe
packet_ty (unsub_ack_packet p) = unsub_ack
packet_ty (disconnect_packet p) = disconnect

module _ ⦃b : BytesCrate⦄ where
  unfoldable pub read_disconnect : FixedHeader → List ℕ → Protocol → Read Packet
  read_disconnect h packet Protocol.v4 = err (invalid_packet_type (packet_type_code disconnect))
  read_disconnect h packet Protocol.v5 = do
    p ← DisconnectPacket.read h packet Protocol.v5
    ok (disconnect_packet p)

  -- The match on the packet type.
  unfoldable pub read_packet : PacketType → FixedHeader → List ℕ → Protocol → Read Packet
  read_packet conn_ack h packet version =
      ConnAckPacket.read h packet version >>= λ p. ok (conn_ack_packet p)
  read_packet publish h packet version =
      PublishPacket.read h packet version >>= λ p. ok (publish_packet p)
  read_packet pub_ack h packet version =
      PubCommon.read pub_ack_ty h packet version >>= λ p. ok (pub_ack_packet p)
  read_packet pub_rec h packet version =
      PubCommon.read pub_rec_ty h packet version >>= λ p. ok (pub_rec_packet p)
  read_packet pub_rel h packet version =
      PubCommon.read pub_rel_ty h packet version >>= λ p. ok (pub_rel_packet p)
  read_packet pub_comp h packet version =
      PubCommon.read pub_comp_ty h packet version >>= λ p. ok (pub_comp_packet p)
  read_packet sub_ack h packet version =
      SubAckPacket.read h packet version >>= λ p. ok (sub_ack_packet p)
  read_packet unsub_ack h packet version =
      UnsubAckPacket.read h packet version >>= λ p. ok (unsub_ack_packet p)
  read_packet ping_resp h packet version = ok ping_resp_packet
  read_packet disconnect h packet version = read_disconnect h packet version
  read_packet ty h packet version = err (invalid_packet_type (packet_type_code ty))

  -- Behind the split: the packet is off the stream, whatever it holds.
  unfoldable pub read_frame : FixedHeader → List ℕ → Protocol → Read (Option Packet)
  read_frame h packet version = do
    ty ← packet_type h
    p ← read_packet ty h packet version
    ok (some p)

  abbrev pub split_frame :
      FixedHeader → Protocol → List ℕ → Read (List ℕ × List ℕ) → List ℕ × Read (Option Packet)
  split_frame h version stream (ok (packet, rest)) = (rest, read_frame h packet version)
  split_frame h version stream (err e) = (stream, err e)
  split_frame h version stream panic = (stream, panic)
  split_frame h version stream out_of_fuel = (stream, out_of_fuel)

  -- `let _ = stream.split_to(stream.len())`
  abbrev pub discard :
      FixedHeaderError → List ℕ → Read (List ℕ × List ℕ) → List ℕ × Read (Option Packet)
  discard e stream (ok (packet, rest)) = (rest, err (from_header_error e))
  discard e stream (err x) = (stream, err x)
  discard e stream panic = (stream, panic)
  discard e stream out_of_fuel = (stream, out_of_fuel)

  abbrev pub on_header :
      List ℕ → Protocol → Outcome FixedHeaderError FixedHeader → List ℕ × Read (Option Packet)
  on_header stream version (ok h) =
      if ltb (length stream) (frame_length h)
      then (stream, ok none)
      else split_frame h version stream (b.split_to (frame_length h) stream)
  on_header stream version (err e) =
      if to_discard e
      then discard e stream (b.split_to (length stream) stream)
      else (stream, err (from_header_error e))
  on_header stream version panic = (stream, panic)
  on_header stream version out_of_fuel = (stream, out_of_fuel)

  -- The stream afterwards, and the result.
  unfoldable pub read_from_network : List ℕ → Protocol → List ℕ × Read (Option Packet)
  read_from_network stream version = on_header stream version (parse_fixed_header stream)
