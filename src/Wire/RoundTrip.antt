-- ===== src/Wire/RoundTrip.antt =====
-- What the writers of src/protocol/packet/mod.rs write, its readers read back.
use for_mqtt_client.Base.{ℕ, ◌<◌, ◌^◌, ◌≡◌, List, [], ◌++◌, length, true}
use for_mqtt_client.Outcome.{ok}
use for_mqtt_client.Bytes.{BytesCrate}
use for_mqtt_client.Wire.{
  decode_length, write_remaining_length, read_mqtt_string, write_mqtt_string,
}
use for_mqtt_client.Wire.Utf8.{is_utf8}
use for_mqtt_client.Wire.Lengths.{
  write_remaining_length-groups, decode_length-groups, length-groups,
}
use for_mqtt_client.Wire.Reading.{read_mqtt_string-framed, write_mqtt_string-framed}

module _ ⦃b : BytesCrate⦄ where
  -- Every length below 2^28 that `write_remaining_length` writes in front of any bytes is read back
  -- by `length`, with the number of bytes that the writer has returned.
  pub remaining_length_round_trip :
      (n : ℕ) (rest : List ℕ)
      → n < 2 ^ 28
      → decode_length ((write_remaining_length [] n).0 ++ rest)
        ≡ ok ((write_remaining_length [] n).1, n)
  remaining_length_round_trip n rest h =
      rw (write_remaining_length-groups [] n h, length-groups n h) (decode_length-groups n rest h)

  -- A string of less than 65536 bytes of UTF-8 that `write_mqtt_string` writes in front of any
  -- bytes is read back by `read_mqtt_string`, which leaves those bytes.
  pub mqtt_string_round_trip :
      (s rest : List ℕ)
      → length s < 65536
      → is_utf8 s ≡ true
      → read_mqtt_string (write_mqtt_string [] s ++ rest) ≡ ok (s, rest)
  mqtt_string_round_trip s rest h u =
      rw (write_mqtt_string-framed [] s) (read_mqtt_string-framed s rest h u)
