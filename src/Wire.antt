-- ===== src/Wire.antt =====
-- src/protocol/packet/mod.rs, the readers and writers of the wire format. A reader takes what the
-- stream holds and returns its value with what is left; a writer returns the buffer.
pub mod Utf8
pub mod Lengths
pub mod Reading
pub mod RoundTrip
use for_mqtt_client.Base.{
  ℕ, zero, suc, ◌+◌, ◌-◌, ◌*◌, ◌/◌, ◌%◌, ◌^◌, ◌<◌, bit_and, bit_or, Bool, true, false, List, [],
  ◌∷◌, length, ltb, ◌==◌, if◌then◌else◌, arith,
}
use for_mqtt_client.Base.Order.{lt_wf}
use for_mqtt_client.Outcome.{Outcome, ok, err, ◌>>=◌, map_err}
use for_mqtt_client.Protocol.{
  PacketParseError, FixedHeaderError, from_header_error, FixedHeader, new_header, malformed_packet,
  boundary_crossed, topic_not_utf8,
}
use for_mqtt_client.Bytes.{BytesCrate}
use Utf8.{is_utf8}
use mathlib.Core.Logic.{dite}
use mathlib.Core.WellFounded.{Acc}
use native.Mathlib.Decide.{dec_lt}

abbrev pub Read : Type 0 → Type 0
Read A = Outcome PacketParseError A

-- `length`: the loop over the bytes that are left. `done` is the local of that name after the last
-- round, which is false where the loop ends without a `break`.
unfoldable pub length_loop : List ℕ → ℕ → ℕ → ℕ → Outcome FixedHeaderError (ℕ × ℕ)
length_loop [] len len_len shift = err (FixedHeaderError.insufficient_bytes 1)
length_loop (byte ∷ stream) len len_len shift =
    let len' = len + bit_and byte 0x7F * 2 ^ shift in
    let more = length_loop stream len' (len_len + 1) (shift + 7) in
    if bit_and byte 0x80 == 0
    then ok (len_len + 1, len')
    else if ltb 21 (shift + 7)
    then err FixedHeaderError.malformed_remaining_length
    else more

-- `length`, under a name that tells it from the length of a list: how many bytes the integer takes,
-- and its value.
unfoldable pub decode_length : List ℕ → Outcome FixedHeaderError (ℕ × ℕ)
unfolding length_loop
decode_length stream = length_loop stream 0 0 0

-- `parse_fixed_header_by_slice`
unfoldable pub parse_fixed_header : List ℕ → Outcome FixedHeaderError FixedHeader
parse_fixed_header [] = err (FixedHeaderError.insufficient_bytes 2)
parse_fixed_header (byte1 ∷ []) = err (FixedHeaderError.insufficient_bytes 1)
parse_fixed_header (byte1 ∷ stream) = do
  (len_len, len) ← decode_length stream
  ok (new_header byte1 len_len len)

module _ ⦃b : BytesCrate⦄ where
  unfoldable pub read_u8 : List ℕ → Read (ℕ × List ℕ)
  read_u8 stream = if length stream == 0 then err malformed_packet else b.get_u8 stream

  unfoldable pub read_u16 : List ℕ → Read (ℕ × List ℕ)
  read_u16 stream = if ltb (length stream) 2 then err malformed_packet else b.get_u16 stream

  unfoldable pub read_u32 : List ℕ → Read (ℕ × List ℕ)
  read_u32 stream = if ltb (length stream) 4 then err malformed_packet else b.get_u32 stream

  unfoldable pub read_mqtt_bytes : List ℕ → Read (List ℕ × List ℕ)
  read_mqtt_bytes stream = do
    (len, stream) ← read_u16 stream
    if ltb (length stream) len then err (boundary_crossed len) else b.split_to len stream

  -- A `String` is the list of its bytes.
  unfoldable pub read_mqtt_string : List ℕ → Read (List ℕ × List ℕ)
  read_mqtt_string stream = do
    (s, stream) ← read_mqtt_bytes stream
    if is_utf8 s then ok (s, stream) else err topic_not_utf8

  -- The two lines that every reader of properties begins with: the length, and `advance` over it.
  unfoldable pub read_length : List ℕ → Read (ℕ × List ℕ)
  read_length bytes = do
    (properties_len_len, properties_len) ← map_err from_header_error (decode_length bytes)
    bytes ← b.advance properties_len_len bytes
    ok (properties_len, bytes)

  unfoldable pub write_mqtt_bytes : List ℕ → List ℕ → List ℕ
  write_mqtt_bytes stream bytes =
      b.extend_from_slice (b.put_u16 stream (length bytes % 2 ^ 16)) bytes

  unfoldable pub write_mqtt_string : List ℕ → List ℕ → List ℕ
  write_mqtt_string stream string = write_mqtt_bytes stream string

  -- The `while` of `write_remaining_length`: `x` is what is left to write.
  write_length_loop : List ℕ → ℕ → (x : ℕ) → Acc ◌<◌ x → List ℕ × ℕ
  write_length_loop stream count x (Acc.intro _ smaller) =
      dite (dec_lt 0 (x / 128))
        (λ more.
          write_length_loop (b.put_u8 stream (bit_or (x % 128) 128)) (count + 1) (x / 128)
            (smaller (x / 128) (omega arith)))
        (λ _. (b.put_u8 stream (x % 128), count + 1))

  -- The buffer, and the number of bytes written.
  unfoldable pub write_remaining_length : List ℕ → ℕ → List ℕ × ℕ
  unfolding write_length_loop lt_wf dec_lt
  write_remaining_length stream len = write_length_loop stream 0 len (lt_wf.apply len)
