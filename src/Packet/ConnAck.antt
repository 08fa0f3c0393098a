-- ===== src/Packet/ConnAck.antt =====
-- src/protocol/packet/connack.rs
pub mod Codes
pub mod Properties
use for_mqtt_client.Base.{ℕ, ◌≤◌, List, Option, none, Bool, bit_and, length, All, All-drop, ◌==◌}
use for_mqtt_client.Outcome.{
  Outcome, ok, ◌>>=◌, Returns, returns_ok, Returns-bind, Returns-of_answer,
}
use for_mqtt_client.Protocol.{Protocol, v4, v5, FixedHeader}
use for_mqtt_client.Bytes.{BytesCrate, IsByte}
use for_mqtt_client.Wire.{Read, read_u8}
use for_mqtt_client.Wire.Reading.{read_u8-Takes}
use for_mqtt_client.Properties.Laws.{read_properties-Leaves}
use Codes.{ConnectReturnCode, connect_return_v3, connect_return_v5, v3_answers, v5_answers}
use Properties.{ConnAckProperties, handle, handle-IsReader}

pub record ConnAck : Type 0 where
  pub session_present : Bool
  pub code : ConnectReturnCode
  pub properties : Option ConnAckProperties

module _ ⦃b : BytesCrate⦄ where
  -- The `match version` of `read`.
  unfoldable pub read_version : Protocol → ℕ → ℕ → List ℕ → Read ConnAck
  read_version v4 flags return_code bytes = do
    code ← connect_return_v3 return_code
    ok (record { session_present = bit_and flags 0x01 == 1; code = code; properties = none })
  read_version v5 flags return_code bytes = do
    (properties, bytes) ← Properties.read bytes
    code ← connect_return_v5 return_code
    ok (record { session_present = bit_and flags 0x01 == 1; code = code; properties = properties })

  unfoldable pub read : FixedHeader → List ℕ → Protocol → Read ConnAck
  read h bytes version = do
    bytes ← b.advance h.fixed_header_len bytes
    (flags, bytes) ← read_u8 bytes
    (return_code, bytes) ← read_u8 bytes
    read_version version flags return_code bytes

  read_version-Returns :
      (v : Protocol) (flags code : ℕ) (s : List ℕ)
      → All IsByte s
      → Returns (λ _. Unit {0}) (read_version v flags code s)
  unfolding read_version Properties.read
  read_version-Returns v4 flags code s h =
      Returns-bind (Returns-of_answer _ (v3_answers code)) λ _ _. returns_ok tt
  read_version-Returns v5 flags code s h =
      Returns-bind (read_properties-Leaves handle handle-IsReader Properties.empty s h)
        λ _ _. Returns-bind (Returns-of_answer _ (v5_answers code)) λ _ _. returns_ok tt

  pub read-Returns :
      (h : FixedHeader) (s : List ℕ) (v : Protocol)
      → All IsByte s
      → h.fixed_header_len ≤ length s
      → Returns (λ _. Unit {0}) (read h s v)
  unfolding read
  read-Returns h s v hb le = rw (b.advance_law h.fixed_header_len s le) (
      Returns-bind (read_u8-Takes _ (All-drop IsByte h.fixed_header_len s hb))
        λ r t. Returns-bind (read_u8-Takes r.1 t.1) λ q u. read_version-Returns v r.0 q.0 q.1 u.1)
