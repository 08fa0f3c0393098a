-- ===== src/Packet/Connect/Login.antt =====
-- src/protocol/packet/connect/login.rs
use for_mqtt_client.Base.{
  ℕ, ◌+◌, ◌≡◌, Bool, true, false, ◌&&◌, Option, none, some, List, [], ◌∷◌, ◌++◌, append-nil,
  append_assoc, length, bit_and, bit_or, ◌==◌, if◌then◌else◌, refl, sym,
}
use for_mqtt_client.Outcome.{ok, ◌>>=◌}
use for_mqtt_client.Bytes.{BytesCrate}
use for_mqtt_client.Wire.{Read, read_mqtt_string, write_mqtt_string}
use for_mqtt_client.Wire.Reading.{framed, read_mqtt_string-framed, write_mqtt_string-framed}
use for_mqtt_client.Properties.{Text}
use for_mqtt_client.Properties.Pieces.{IsText, length-framed}

pub record Login : Type 0 where
  pub username : Text
  pub password : Text

abbrev pub is_empty : Text → Bool
is_empty [] = true
is_empty (c ∷ s) = false

abbrev pub text_len : Text → ℕ
text_len [] = 0
text_len (c ∷ s) = 2 + length (c ∷ s)

unfoldable pub len : Login → ℕ
len l = text_len l.username + text_len l.password

module _ ⦃b : BytesCrate⦄ where
  -- A string if its bit is set, the empty string if not.
  abbrev pub read_if : ℕ → List ℕ → Read (Text × List ℕ)
  read_if bit bytes = if bit == 0 then ok ([], bytes) else read_mqtt_string bytes

  unfoldable pub read : ℕ → List ℕ → Read (Option Login × List ℕ)
  read connect_flags bytes = do
    (username, bytes) ← read_if (bit_and connect_flags 0b1000_0000) bytes
    (password, bytes) ← read_if (bit_and connect_flags 0b0100_0000) bytes
    if is_empty username && is_empty password
        then ok (none, bytes)
        else ok (some (record { username = username; password = password }), bytes)

  abbrev pub write_text : Text → List ℕ → List ℕ
  write_text [] buffer = buffer
  write_text (c ∷ s) buffer = write_mqtt_string buffer (c ∷ s)

  abbrev pub flag_if : ℕ → Text → ℕ → ℕ
  flag_if bit [] flags = flags
  flag_if bit (c ∷ s) flags = bit_or flags bit

  -- The flags that `write` returns, and the buffer.
  unfoldable pub write : Login → List ℕ → ℕ × List ℕ
  write l buffer = (
    flag_if 0x40 l.password (flag_if 0x80 l.username 0),
    write_text l.password (write_text l.username buffer),
  )

abbrev pub text_bytes : Text → List ℕ
text_bytes [] = []
text_bytes (c ∷ s) = framed (c ∷ s)

pub length-text_bytes : (s : Text) → length (text_bytes s) ≡ text_len s
length-text_bytes [] = refl
length-text_bytes (c ∷ s) = length-framed (c ∷ s)

module _ ⦃b : BytesCrate⦄ where
  write_text-bytes : (s : Text) (buffer : List ℕ) → write_text s buffer ≡ buffer ++ text_bytes s
  write_text-bytes [] buffer = sym (append-nil buffer)
  write_text-bytes (c ∷ s) buffer = write_mqtt_string-framed buffer (c ∷ s)

  pub write-bytes :
      (l : Login) (buffer : List ℕ)
      → (write l buffer).1 ≡ buffer ++ (text_bytes l.username ++ text_bytes l.password)
  unfolding write
  write-bytes l buffer = rw (
    write_text-bytes l.username buffer,
    write_text-bytes l.password (buffer ++ text_bytes l.username),
    append_assoc,
  )

  -- Credentials of UTF-8 below 65536 bytes each, written by `Login::write` in front of any bytes,
  -- are read back by `Login::read` with the flags that `write` returns; two empty strings are read
  -- as no login.
  pub read-write :
      (l : Login) (rest : List ℕ)
      → IsText l.username
      → IsText l.password
      → read (write l []).0 ((write l []).1 ++ rest)
        ≡ ok (if is_empty l.username && is_empty l.password then none else some l, rest)
  read-write l rest hu hp = rw (write-bytes l []) (cases l.username l.password hu hp)
    where
      cases :
          (u p : Text)
          → IsText u
          → IsText p
          → read
              (write (record { username = u; password = p }) []).0
              ((text_bytes u ++ text_bytes p) ++ rest)
            ≡ ok (
              if is_empty u && is_empty p
                  then none
                  else some (record { username = u; password = p }),
              rest,
            )
      cases [] [] hu hp = unfold read write in refl
      cases [] (c ∷ p) hu hp =
          unfold read write in rw (read_mqtt_string-framed (c ∷ p) rest hp.0 hp.1)
      cases (c ∷ u) [] hu hp =
          unfold read write in rw (append-nil, read_mqtt_string-framed (c ∷ u) rest hu.0 hu.1)
      cases (c ∷ u) (d ∷ p) hu hp =
          unfold read write in
          rw (
            append_assoc (framed (c ∷ u)) (framed (d ∷ p)) rest,
            read_mqtt_string-framed (c ∷ u) (framed (d ∷ p) ++ rest) hu.0 hu.1,
            read_mqtt_string-framed (d ∷ p) rest hp.0 hp.1,
          )
