-- ===== src/Packet/Subscribe/Layout.antt =====
-- What `Subscribe::write` of src/protocol/packet/subscribe.rs appends.
use for_mqtt_client.Base.{
  ℕ, sym, ◌+◌, ◌^◌, ◌<◌, ◌≡◌, List, [], ◌∷◌, ◌++◌, append_assoc, append-nil, length, length-append,
  ltb, if◌then◌else◌, arith,
}
use for_mqtt_client.Protocol.{len_len}
use for_mqtt_client.Bytes.{BytesCrate}
use for_mqtt_client.Wire.Lengths.{groups, write_remaining_length-groups, length-groups}
use for_mqtt_client.Wire.Reading.{be16}
use for_mqtt_client.Packet.Subscribe.{Subscribe, v4, v5, packet_id, len, write}

-- The part of the packet behind its fixed header.
unfoldable pub body : Subscribe → List ℕ
body (v4 id payload) = be16 id ++ payload
body (v5 id properties filters) =
    be16 id ++ (groups 3 (length properties) ++ (properties ++ filters))

length-body : (p : Subscribe) → len p < 2 ^ 28 → length (body p) ≡ len p
unfolding body len
length-body (v4 id payload) h = omega arith
length-body (v5 id properties filters) h = omega (
  arith,
  length-groups (length properties),
  length-append (groups 3 (length properties)) (properties ++ filters),
  length-append properties filters,
)

module _ ⦃b : BytesCrate⦄ where
  extend_some : (s t : List ℕ) → (if ltb 0 (length t) then b.extend_from_slice s t else s) ≡ s ++ t
  extend_some s [] = sym (append-nil s)
  extend_some s (x ∷ t) = ground (arith, b.extend_law s (x ∷ t))

  -- For a subscription with a 16-bit identifier whose length fits 28 bits, `Subscribe::write`
  -- appends its first byte, the length of the body and the body, returns how many bytes that is,
  -- and the length is the one of the body.
  pub subscribe_layout :
      (p : Subscribe) (s : List ℕ)
      → packet_id p < 65536
      → len p < 2 ^ 28
      → (write p s ≡ (s ++ (0x82 ∷ (groups 3 (len p) ++ body p)), 1 + len_len (len p) + len p))
        × (length (body p) ≡ len p)
  unfolding write packet_id body
  subscribe_layout (v4 id payload) s hid h = (
    rw
        (
          b.put_u8_law s 0x82 (omega arith),
          write_remaining_length-groups (s ++ (0x82 ∷ [])) (len (v4 id payload)) h,
          b.put_u16_law _ id hid,
          b.extend_law,
          length-groups (len (v4 id payload)) h,
        )
        (simp append_assoc),
    length-body (v4 id payload) h,
  )
  subscribe_layout (v5 id properties filters) s hid h =
      let n = len (v5 id properties filters) in
      let swap : 1 + n + len_len n ≡ 1 + len_len n + n = omega arith in
      let small : length properties < 2 ^ 28 = unfold len in omega (arith, h) in
      (
        rw
            (
              b.put_u8_law s 0x82 (omega arith),
              write_remaining_length-groups (s ++ (0x82 ∷ [])) n h,
              b.put_u16_law _ id hid,
              write_remaining_length-groups _ (length properties) small,
              extend_some,
              b.extend_law,
              length-groups n h,
              swap,
            )
            (simp append_assoc),
        length-body (v5 id properties filters) h,
      )
