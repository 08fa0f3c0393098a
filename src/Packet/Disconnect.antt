-- ===== src/Packet/Disconnect.antt =====
-- src/protocol/packet/disconnect.rs
pub mod Codes
pub mod Properties
use for_mqtt_client.Base.{
  ℕ, ◌+◌, ◌/◌, ◌≤◌, List, [], Option, none, some, Bool, true, false, not, bit_and, length, All,
  All-drop, ◌==◌, if◌then◌else◌, Bool-cases, inl, inr,
}
use for_mqtt_client.Outcome.{
  Outcome, ok, err, ◌>>=◌, Returns, returns_ok, returns_err, Returns-bind, Returns-of_answer,
}
use for_mqtt_client.Protocol.{Protocol, FixedHeader, invalid_packet_type, malformed_packet, len_len}
use for_mqtt_client.Bytes.{BytesCrate, IsByte}
use for_mqtt_client.Wire.{Read, read_u8, write_remaining_length}
use for_mqtt_client.Wire.Reading.{read_u8-Takes}
use for_mqtt_client.Properties.Laws.{read_properties-Leaves}
use Codes.{
  DisconnectReasonCode, normal_disconnection, reason_code_number, try_from, try_from_answers,
}
use Properties.{DisconnectProperties, handle, handle-IsReader}

pub data Disconnect : Type 0 where
  v4 : Disconnect
  v5 : DisconnectReasonCode → Option DisconnectProperties → Disconnect

unfoldable pub new : Protocol → Disconnect
new Protocol.v4 = v4
new Protocol.v5 = v5 normal_disconnection none

abbrev pub is_normal : DisconnectReasonCode → Option DisconnectProperties → Bool
is_normal normal_disconnection none = true
is_normal _ _ = false

abbrev pub reason_len : Option DisconnectProperties → ℕ
reason_len (some p) = 1 + (len_len (Properties.len p) + Properties.len p)
reason_len none = 1

unfoldable pub len : Disconnect → ℕ
len v4 = 2
len (v5 reason_code properties) =
    if is_normal reason_code properties then 2 else reason_len properties

module _ ⦃b : BytesCrate⦄ where
  -- The `match protocol` of `read`.
  unfoldable pub read_version : Protocol → FixedHeader → List ℕ → Read Disconnect
  read_version Protocol.v4 h bytes = ok v4
  read_version Protocol.v5 h bytes =
      if h.remaining_len == 0 then ok (v5 normal_disconnection none) else (do
        (reason_code, bytes) ← read_u8 bytes
        reason ← try_from reason_code
        (properties, bytes) ← Properties.extract bytes
        ok (v5 reason properties))

  unfoldable pub read : FixedHeader → List ℕ → Protocol → Read Disconnect
  read h bytes protocol = do
    bytes ← b.advance h.fixed_header_len bytes
    if not (h.byte1 / 16 == 14)
        then err (invalid_packet_type (h.byte1 / 16))
        else if not (bit_and h.byte1 0b0000_1111 == 0)
        then err malformed_packet
        else read_version protocol h bytes

  abbrev pub write_block : Option DisconnectProperties → List ℕ → List ℕ
  write_block (some p) buffer = Properties.write p buffer
  write_block none buffer = (write_remaining_length buffer 0).0

  -- The buffer, and the number that `write` returns.
  unfoldable pub write : Disconnect → List ℕ → List ℕ × ℕ
  write v4 buffer = (b.put_u8 (b.put_u8 buffer 0xE0) 0x00, 2)
  write (v5 reason_code properties) buffer =
      let buffer = b.put_u8 buffer 0xE0 in
      let length = len (v5 reason_code properties) in
      let (long, len_len) = write_remaining_length buffer length in
      if length == 2 then (b.put_u8 buffer 0x00, length) else (
        write_block properties (b.put_u8 long (reason_code_number reason_code)),
        1 + len_len + length,
      )

  unfoldable pub data_of : Disconnect → List ℕ
  data_of p = (write p []).0

  read_version-Returns :
      (v : Protocol) (h : FixedHeader) (s : List ℕ)
      → All IsByte s
      → Returns (λ _. Unit {0}) (read_version v h s)
  unfolding read_version Properties.extract
  read_version-Returns Protocol.v4 h s hb = returns_ok tt
  read_version-Returns Protocol.v5 h s hb = elim (Bool-cases (h.remaining_len == 0)) [
    | inl e ↦ rw e (returns_ok tt)
    | inr e ↦ rw e (
        Returns-bind (read_u8-Takes s hb) λ r t.
          Returns-bind (Returns-of_answer _ (try_from_answers r.0)) λ _ _.
            Returns-bind (read_properties-Leaves handle handle-IsReader Properties.empty r.1 t.1)
              λ _ _. returns_ok tt)
  ]

  pub read-Returns :
      (h : FixedHeader) (s : List ℕ) (v : Protocol)
      → All IsByte s
      → h.fixed_header_len ≤ length s
      → Returns (λ _. Unit {0}) (read h s v)
  unfolding read
  read-Returns h s v hb le =
      rw (b.advance_law h.fixed_header_len s le) (elim (Bool-cases (h.byte1 / 16 == 14)) [
        | inr e ↦ rw e returns_err
        | inl e ↦ rw e (elim (Bool-cases (bit_and h.byte1 15 == 0)) [
          | inr f ↦ rw f returns_err
          | inl f ↦ rw f (read_version-Returns v h _ (All-drop IsByte h.fixed_header_len s hb))
        ])
      ])
