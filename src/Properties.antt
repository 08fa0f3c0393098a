-- ===== src/Properties.antt =====
-- The properties of version 5. The six readers of properties under src/protocol/packet are one loop
-- over six matches: the loop is `property_loop`, and the match is its argument `handle`.
pub mod Laws
pub mod Pieces
pub mod Segments
use for_mqtt_client.Base.{
  ℕ, zero, suc, ◌+◌, Option, none, some, List, [], ◌∷◌, length, ltb, ◌==◌, if◌then◌else◌,
}
use for_mqtt_client.Outcome.{Outcome, ok, err, out_of_fuel, ◌>>=◌}
use for_mqtt_client.Protocol.{PropertyType, property_code}
use for_mqtt_client.Bytes.{BytesCrate}
use for_mqtt_client.Wire.{
  Read, read_u8, read_u16, read_u32, read_mqtt_bytes, read_mqtt_string, read_length,
  write_mqtt_bytes, write_mqtt_string,
}

-- A `String` is the list of its bytes, and `Vec<(String, String)>` holds the user properties.
abbrev pub Text : Type 0
Text = List ℕ

abbrev pub Pairs : Type 0
Pairs = List (Text × Text)

-- One round of the match: the identifier, what has been read so far and the bytes left, to what has
-- been read then, how far `cursor` goes on, and the bytes left.
abbrev pub Handle : Type 0 → Type 0
Handle S = ℕ → S → List ℕ → Read (S × ℕ × List ℕ)

module _ ⦃b : BytesCrate⦄ where
  -- `while cursor < properties_len`, with fuel. A round takes a byte at least, so one round more than
  -- there are bytes is enough.
  unfoldable pub property_loop :
      {S : Type 0} → Handle S → ℕ → ℕ → ℕ → S → List ℕ → Read (S × List ℕ)
  property_loop handle zero cursor properties_len s bytes = out_of_fuel
  property_loop handle (suc fuel) cursor properties_len s bytes =
      let round = read_u8 bytes >>= λ (prop, bytes). handle prop s bytes >>= λ (s, more, bytes).
      property_loop handle fuel (cursor + 1 + more) properties_len s bytes in
      if ltb cursor properties_len then round else ok (s, bytes)

  unfoldable pub read_properties : {S : Type 0} → Handle S → S → List ℕ → Read (Option S × List ℕ)
  read_properties handle empty bytes = do
    (properties_len, bytes) ← read_length bytes
    let rest = property_loop handle (suc (length bytes)) 0 properties_len empty bytes
    if properties_len == 0 then ok (none, bytes) else rest >>= λ (s, bytes). ok (some s, bytes)

  -- The bodies of the match: `field = Some(read_u8(bytes)?); cursor += 1`, and so on.
  unfoldable pub on_u8 : {S : Type 0} → (ℕ → S) → List ℕ → Read (S × ℕ × List ℕ)
  on_u8 put bytes = do (v, bytes) ← read_u8 bytes; ok (put v, 1, bytes)

  unfoldable pub on_u16 : {S : Type 0} → (ℕ → S) → List ℕ → Read (S × ℕ × List ℕ)
  on_u16 put bytes = do (v, bytes) ← read_u16 bytes; ok (put v, 2, bytes)

  unfoldable pub on_u32 : {S : Type 0} → (ℕ → S) → List ℕ → Read (S × ℕ × List ℕ)
  on_u32 put bytes = do (v, bytes) ← read_u32 bytes; ok (put v, 4, bytes)

  unfoldable pub on_bytes : {S : Type 0} → (List ℕ → S) → List ℕ → Read (S × ℕ × List ℕ)
  on_bytes put bytes = do (v, bytes) ← read_mqtt_bytes bytes; ok (put v, 2 + length v, bytes)

  unfoldable pub on_string : {S : Type 0} → (Text → S) → List ℕ → Read (S × ℕ × List ℕ)
  on_string put bytes = do (v, bytes) ← read_mqtt_string bytes; ok (put v, 2 + length v, bytes)

  unfoldable pub on_pair : {S : Type 0} → (Text × Text → S) → List ℕ → Read (S × ℕ × List ℕ)
  on_pair put bytes = do
    (key, bytes) ← read_mqtt_string bytes
    (value, bytes) ← read_mqtt_string bytes
    ok (put (key, value), 2 + length key + 2 + length value, bytes)

  -- The statements of the writers: a field is written, if it is set, behind its identifier.
  unfoldable pub write_u8 : PropertyType → Option ℕ → List ℕ → List ℕ
  write_u8 p none buffer = buffer
  write_u8 p (some v) buffer = b.put_u8 (b.put_u8 buffer (property_code p)) v

  unfoldable pub write_u16 : PropertyType → Option ℕ → List ℕ → List ℕ
  write_u16 p none buffer = buffer
  write_u16 p (some v) buffer = b.put_u16 (b.put_u8 buffer (property_code p)) v

  unfoldable pub write_u32 : PropertyType → Option ℕ → List ℕ → List ℕ
  write_u32 p none buffer = buffer
  write_u32 p (some v) buffer = b.put_u32 (b.put_u8 buffer (property_code p)) v

  unfoldable pub write_bytes : PropertyType → Option (List ℕ) → List ℕ → List ℕ
  write_bytes p none buffer = buffer
  write_bytes p (some v) buffer = write_mqtt_bytes (b.put_u8 buffer (property_code p)) v

  unfoldable pub write_string : PropertyType → Option Text → List ℕ → List ℕ
  write_string p none buffer = buffer
  write_string p (some v) buffer = write_mqtt_string (b.put_u8 buffer (property_code p)) v

  unfoldable pub write_pairs : Pairs → List ℕ → List ℕ
  write_pairs [] buffer = buffer
  write_pairs ((key, value) ∷ pairs) buffer = write_pairs pairs (
      write_mqtt_string
        (write_mqtt_string (b.put_u8 buffer (property_code PropertyType.user_property)) key) value)

-- The terms of the `len` methods.
abbrev pub fixed_len : ℕ → Option ℕ → ℕ
fixed_len n none = 0
fixed_len n (some v) = 1 + n

abbrev pub string_len : Option (List ℕ) → ℕ
string_len none = 0
string_len (some v) = 1 + 2 + length v

abbrev pub pairs_len : Pairs → ℕ
pairs_len [] = 0
pairs_len ((key, value) ∷ pairs) = 1 + 2 + length key + 2 + length value + pairs_len pairs
