-- ===== src/Network/Framing.antt =====
-- What `read_from_network` of src/protocol/packet/mod.rs takes off the stream, and that the packets it
-- finds do not depend on how the bytes were cut up on the way.
use for_mqtt_client.Base.{
  ℕ, ◌≤◌, ◌≡◌, ◌≢◌, sym, List, [], length, take, drop, All, arith, ◌++◌, none, some, ap, ◌∙◌,
  Option, length-append, take-append, drop-append, take-append-drop, length-take,
}
use for_mqtt_client.Outcome.{ok, err, ok-of_bind}
use for_mqtt_client.Protocol.{Protocol, FixedHeader, PacketParseError, frame_length, packet_type}
use for_mqtt_client.Bytes.{BytesCrate, IsByte}
use for_mqtt_client.Wire.{Read, parse_fixed_header}
use for_mqtt_client.Network.{Packet, read_packet, read_frame, read_from_network}
use for_mqtt_client.Network.Frames.{parse-IsHeaderOf, parse-append}
use for_mqtt_client.Network.Verdict.{
  Verdict, short, discards, waits, frames, read_from_network-Verdict, read_from_network-frames,
}

-- The bytes that a call takes off the stream, and what it returns: it takes nothing and asks for more
-- bytes, or it takes all of them because the length is malformed, or it takes a packet.
pub data Consumes {A : Type 0} (s : List ℕ) : List ℕ × Read (Option A) → Type 0 where
  nothing : Consumes s (s, ok none)
  nothing_err : (n : ℕ) → Consumes s (s, err (PacketParseError.insufficient_bytes n))
  everything : Consumes s ([], err PacketParseError.malformed_remaining_length)
  a_packet :
      (frame rest : List ℕ) (r : Read (Option A))
      → s ≡ frame ++ rest
      → 2 ≤ length frame
      → (r ≢ ok none)
      → Consumes s (rest, r)

module _ ⦃b : BytesCrate⦄ where
  read_frame-not_none : (h : FixedHeader) (s : List ℕ) (v : Protocol) → read_frame h s v ≢ ok none
  unfolding read_frame
  read_frame-not_none h s v e =
      let (ty, typed, found) = ok-of_bind (packet_type h) e in
      let (p, wrapped, read) = ok-of_bind (read_packet ty h s v) typed in cc

  Verdict-Consumes :
      (s : List ℕ) (v : Protocol) {r : List ℕ × Read (Option Packet)}
      → All IsByte s
      → Verdict s v r
      → Consumes s r
  Verdict-Consumes s v hb (short n e) = nothing_err n
  Verdict-Consumes s v hb (discards e) = everything
  Verdict-Consumes s v hb (waits h e l) = nothing
  Verdict-Consumes s v hb (frames h e le) =
      let k = parse-IsHeaderOf s h hb e in
      a_packet (take (frame_length h) s) (drop (frame_length h) s) _
        (sym (take-append-drop (frame_length h) s))
        (omega (arith, length-take (frame_length h) s le, k.at_least)) (read_frame-not_none h _ v)

  -- A call of `read_from_network` either takes nothing and asks for more bytes, or takes everything
  -- because the remaining length is malformed, or takes two bytes or more off the front of the
  -- stream and does not return `None`.
  pub read_from_network-Consumes :
      (s : List ℕ) (v : Protocol) → All IsByte s → Consumes s (read_from_network s v)
  read_from_network-Consumes s v hb = Verdict-Consumes s v hb (read_from_network-Verdict s v)

  -- Whatever a call has found in a packet that is complete, it finds in every longer stream.
  pub frames-append :
      (s t : List ℕ) (v : Protocol) (h : FixedHeader)
      → parse_fixed_header s ≡ ok h
      → frame_length h ≤ length s
      → read_from_network (s ++ t) v
        ≡ (drop (frame_length h) s ++ t, read_frame h (take (frame_length h) s) v)
  frames-append s t v h e le =
      read_from_network-frames (s ++ t) v h (parse-append s t e) (omega (arith, length-append s t))
      ∙ rw (take-append (frame_length h) s t le, drop-append (frame_length h) s t le)

  Verdict-append :
      (s t : List ℕ) (v : Protocol) {r : List ℕ × Read (Option Packet)} {rest : List ℕ} {p : Packet}
      → Verdict s v r
      → r ≡ (rest, ok (some p))
      → read_from_network (s ++ t) v ≡ (rest ++ t, ok (some p))
  Verdict-append s t v (short n e) eq = cc
  Verdict-append s t v (discards e) eq = cc
  Verdict-append s t v (waits h e l) eq = cc
  Verdict-append s t v (frames h e le) eq =
      frames-append s t v h e le ∙ ap (λ x. (x.0 ++ t, x.1)) eq

  -- A packet that `read_from_network` finds in a stream, it finds in every longer stream, and what
  -- is left is longer by the same bytes.
  pub read_from_network-append :
      (s t : List ℕ) (v : Protocol) (rest : List ℕ) (p : Packet)
      → read_from_network s v ≡ (rest, ok (some p))
      → read_from_network (s ++ t) v ≡ (rest ++ t, ok (some p))
  read_from_network-append s t v rest p e = Verdict-append s t v (read_from_network-Verdict s v) e
