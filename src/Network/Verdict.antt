-- ===== src/Network/Verdict.antt =====
-- The four things that `read_from_network` of src/protocol/packet/mod.rs may do with a stream.
use for_mqtt_client.Base.{
  ℕ, ◌≤◌, ◌<◌, ◌≡◌, refl, List, [], length, take, drop, ltb, arith, true, none, ltb→lt, not_ltb→le,
  ap, ◌∙◌, le→not_ltb, Option, drop_all, Bool-cases, inl, inr,
}
use for_mqtt_client.Outcome.{Outcome, ok, err, panic, out_of_fuel, is_answer}
use for_mqtt_client.Protocol.{
  Protocol, FixedHeader, FixedHeaderError, PacketParseError, frame_length,
}
use for_mqtt_client.Bytes.{BytesCrate}
use for_mqtt_client.Wire.{Read, parse_fixed_header}
use for_mqtt_client.Network.{Packet, read_frame, on_header, read_from_network}
use for_mqtt_client.Network.Frames.{malformed, parse_answers}

module _ ⦃b : BytesCrate⦄ where
  -- What happens to the stream `s`, by what its first bytes are.
  pub data Verdict (s : List ℕ) (v : Protocol) : List ℕ × Read (Option Packet) → Type 0 where
    short :
        (n : ℕ)
        → parse_fixed_header s ≡ err (FixedHeaderError.insufficient_bytes n)
        → Verdict s v (s, err (PacketParseError.insufficient_bytes n))
    discards :
        parse_fixed_header s ≡ malformed
        → Verdict s v ([], err PacketParseError.malformed_remaining_length)
    waits :
        (h : FixedHeader)
        → parse_fixed_header s ≡ ok h
        → length s < frame_length h
        → Verdict s v (s, ok none)
    frames :
        (h : FixedHeader)
        → parse_fixed_header s ≡ ok h
        → frame_length h ≤ length s
        → Verdict s v (drop (frame_length h) s, read_frame h (take (frame_length h) s) v)

  on_header-frames :
      (s : List ℕ) (v : Protocol) (h : FixedHeader)
      → frame_length h ≤ length s
      → on_header s v (ok h) ≡ (drop (frame_length h) s, read_frame h (take (frame_length h) s) v)
  on_header-frames s v h le =
      rw (le→not_ltb (length s) (frame_length h) le, b.split_to_law (frame_length h) s le)

  pub read_from_network-frames :
      (s : List ℕ) (v : Protocol) (h : FixedHeader)
      → parse_fixed_header s ≡ ok h
      → frame_length h ≤ length s
      → read_from_network s v ≡ (drop (frame_length h) s, read_frame h (take (frame_length h) s) v)
  unfolding read_from_network
  read_from_network-frames s v h e le = ap (on_header s v) e ∙ on_header-frames s v h le

  pub read_from_network-discards :
      (s : List ℕ) (v : Protocol)
      → parse_fixed_header s ≡ malformed
      → read_from_network s v ≡ ([], err PacketParseError.malformed_remaining_length)
  unfolding read_from_network
  read_from_network-discards s v e =
      ap (on_header s v) e ∙ rw (b.split_to_law (length s) s (omega arith), drop_all s)

  on_header-Verdict :
      (s : List ℕ) (v : Protocol) (r : Outcome FixedHeaderError FixedHeader)
      → parse_fixed_header s ≡ r
      → is_answer r ≡ true
      → Verdict s v (on_header s v r)
  on_header-Verdict s v (ok h) e ha = elim (Bool-cases (ltb (length s) (frame_length h))) [
    | inl less ↦ rw less (waits h e (ltb→lt _ _ less))
    | inr not_less ↦
        let le = not_ltb→le (length s) (frame_length h) not_less in
        rw (on_header-frames s v h le) (frames h e le)
  ]
  on_header-Verdict s v (err (FixedHeaderError.insufficient_bytes n)) e ha = short n e
  on_header-Verdict s v (err FixedHeaderError.malformed_remaining_length) e ha =
      rw (b.split_to_law (length s) s (omega arith), drop_all s) (discards e)
  on_header-Verdict s v panic e ha = cc
  on_header-Verdict s v out_of_fuel e ha = cc

  pub read_from_network-Verdict : (s : List ℕ) (v : Protocol) → Verdict s v (read_from_network s v)
  unfolding read_from_network
  read_from_network-Verdict s v =
      on_header-Verdict s v (parse_fixed_header s) refl (parse_answers s)
