-- ===== src/Packet/Publish/RoundTrip.antt =====
-- What `Publish::write` appends, and that `Publish::read` takes it back.
use for_mqtt_client.Base.{
  ℕ, ◌+◌, ◌*◌, ◌/◌, ◌^◌, ◌≤◌, ◌<◌, ◌≡◌, refl, sym, ap, List, [], ◌∷◌, ◌++◌, append_assoc,
  append-nil, length, length-append, drop, bit_and, bit_or, Bool, true, false, not, ◌==◌, Option,
  none, some, arith,
}
use for_mqtt_client.Outcome.{ok}
use for_mqtt_client.Protocol.{Protocol, v4, v5, FixedHeader, len_len}
use for_mqtt_client.Bytes.{BytesCrate}
use for_mqtt_client.Wire.Lengths.{groups, write_remaining_length-groups, length-groups}
use for_mqtt_client.Wire.Reading.{
  be16, framed, read_u16-be16, read_mqtt_string-framed, write_mqtt_string-framed,
}
use for_mqtt_client.Properties.Pieces.{IsText, one, length-framed}
use for_mqtt_client.Properties.Segments.{read_properties-Segment, read_properties-none}
use for_mqtt_client.Packet.Qos.{QoS, QoSWithPacketId, qos, qos_number, packet_id}
use for_mqtt_client.Packet.Publish.{
  Publish, read, write, len, read_id, read_block, write_id, write_block, bool_code, id_len,
  block_len, first_byte,
}
use for_mqtt_client.Packet.Publish.Properties
use for_mqtt_client.Packet.Publish.Properties.{
  PublishProperties, empty, on_property, handle, write_ids,
}
use for_mqtt_client.Packet.Publish.Blocks.{
  AreReadable, block, length-block, block-Segment, write-block,
}

abbrev pub AreIds : QoSWithPacketId → Type 0
AreIds QoSWithPacketId.at_most_once = Unit
AreIds (QoSWithPacketId.at_least_once id) = id < 65536
AreIds (QoSWithPacketId.exactly_once id) = id < 65536

-- Version 4 has no properties, and an empty block is `None`.
abbrev pub IsBlock : Protocol → Option PublishProperties → Type 0
IsBlock v4 none = Unit
IsBlock v4 (some p) = ⊥
IsBlock v5 none = Unit
IsBlock v5 (some p) = AreReadable p

-- A packet that can go over the wire: the identifier is a `u16`, the topic a string of fewer than
-- 2^16 bytes, and the whole fits the remaining length.
pub record IsSendable (p : Publish) : Type 0 where
  pub id : AreIds p.qos
  pub text : IsText p.topic
  pub properties : IsBlock p.protocol p.properties
  pub fits : len p < 2 ^ 28

abbrev pub id_bytes : QoSWithPacketId → List ℕ
id_bytes QoSWithPacketId.at_most_once = []
id_bytes (QoSWithPacketId.at_least_once id) = be16 id
id_bytes (QoSWithPacketId.exactly_once id) = be16 id

abbrev pub block_bytes : Protocol → Option PublishProperties → List ℕ
block_bytes v4 p = []
block_bytes v5 none = groups 3 0
block_bytes v5 (some p) = groups 3 (Properties.len p) ++ block p

-- What stands behind the fixed header.
abbrev pub body : Publish → List ℕ
body p = framed p.topic ++ (id_bytes p.qos ++ (block_bytes p.protocol p.properties ++ p.payload))

length-id_bytes : (q : QoSWithPacketId) → length (id_bytes q) ≡ id_len q
length-id_bytes QoSWithPacketId.at_most_once = refl
length-id_bytes (QoSWithPacketId.at_least_once id) = refl
length-id_bytes (QoSWithPacketId.exactly_once id) = refl

length-block_bytes :
    (v : Protocol) (p : Option PublishProperties)
    → IsBlock v p
    → block_len v p < 2 ^ 28
    → length (block_bytes v p) ≡ block_len v p
length-block_bytes v4 p r h = refl
length-block_bytes v5 none r h = unfold groups in refl
length-block_bytes v5 (some p) r h = omega (
  arith,
  length-append (groups 3 (Properties.len p)) (block p),
  length-groups (Properties.len p) (omega arith),
  length-block p r.no_ids,
)

pub length-body : (p : Publish) → IsSendable p → length (body p) ≡ len p
unfolding len
length-body p r = omega (
  arith,
  length-append (framed p.topic)
      (id_bytes p.qos ++ (block_bytes p.protocol p.properties ++ p.payload)),
  length-append (id_bytes p.qos) (block_bytes p.protocol p.properties ++ p.payload),
  length-append (block_bytes p.protocol p.properties) p.payload,
  length-framed p.topic,
  length-id_bytes p.qos,
  length-block_bytes p.protocol p.properties r.properties (omega (arith, r.fits)),
)

-- The three fields of the first byte.
abbrev pub flag_byte : Bool → QoSWithPacketId → Bool → ℕ
flag_byte retain q dup =
    bit_or (bit_or (bit_or 48 (bool_code retain)) (qos_number q * 2)) (bool_code dup * 8)

abbrev pub AreFlags : Bool → QoSWithPacketId → Bool → Type 0
AreFlags retain q dup =
    (bit_and (flag_byte retain q dup) 6 / 2 ≡ qos_number q)
    × (not (bit_and (flag_byte retain q dup) 8 == 0) ≡ dup)
    × (not (bit_and (flag_byte retain q dup) 1 == 0) ≡ retain)
    × (flag_byte retain q dup / 16 ≡ 3)
    × (flag_byte retain q dup < 256)

pub flags_lem : (retain dup : Bool) (q : QoSWithPacketId) → AreFlags retain q dup
flags_lem false false QoSWithPacketId.at_most_once = (refl, refl, refl, refl, omega arith)
flags_lem false false _ = (refl, refl, refl, refl, omega arith)
flags_lem false true QoSWithPacketId.at_most_once = (refl, refl, refl, refl, omega arith)
flags_lem false true _ = (refl, refl, refl, refl, omega arith)
flags_lem true false QoSWithPacketId.at_most_once = (refl, refl, refl, refl, omega arith)
flags_lem true false _ = (refl, refl, refl, refl, omega arith)
flags_lem true true QoSWithPacketId.at_most_once = (refl, refl, refl, refl, omega arith)
flags_lem true true _ = (refl, refl, refl, refl, omega arith)

abbrev kind : QoSWithPacketId → QoS
kind QoSWithPacketId.at_most_once = QoS.at_most_once
kind (QoSWithPacketId.at_least_once id) = QoS.at_least_once
kind (QoSWithPacketId.exactly_once id) = QoS.exactly_once

qos-number : (q : QoSWithPacketId) → qos (qos_number q) ≡ ok (kind q)
unfolding qos
qos-number QoSWithPacketId.at_most_once = refl
qos-number _ = refl

module _ ⦃b : BytesCrate⦄ where
  write_id-bytes :
      (q : QoSWithPacketId) (s : List ℕ) → AreIds q → write_id (packet_id q) s ≡ s ++ id_bytes q
  unfolding write_id
  write_id-bytes QoSWithPacketId.at_most_once s h = sym (append-nil s)
  write_id-bytes (QoSWithPacketId.at_least_once id) s h = b.put_u16_law s id h
  write_id-bytes (QoSWithPacketId.exactly_once id) s h = b.put_u16_law s id h

  write_block-bytes :
      (v : Protocol) (p : Option PublishProperties) (s : List ℕ)
      → IsBlock v p
      → block_len v p < 2 ^ 28
      → write_block v p s ≡ s ++ block_bytes v p
  unfolding write_block
  write_block-bytes v4 p s r h = sym (append-nil s)
  write_block-bytes v5 none s r h = ap (λ t. t.0) (write_remaining_length-groups s 0 (omega arith))
  write_block-bytes v5 (some p) s r h = write-block p s r (omega arith)

  written-body :
      (p : Publish) (s : List ℕ)
      → IsSendable p
      → write p s ≡ (
        s ++ (flag_byte p.retain p.qos p.dup ∷ (groups 3 (len p) ++ body p)),
        1 + len_len (len p) + len p,
      )
  unfolding write
  written-body p s r =
      rw
        (
          b.put_u8_law s (first_byte p) (flags_lem p.retain p.dup p.qos).4,
          write_remaining_length-groups (s ++ one (first_byte p)) (len p) r.fits,
          write_mqtt_string-framed,
          write_id-bytes p.qos _ r.id,
          write_block-bytes p.protocol p.properties _ r.properties
              (unfold len in omega (arith, r.fits)),
          b.extend_law,
          length-groups (len p) r.fits,
        )
        (simp append_assoc)

  -- For a publish as in the round trip (16-bit identifier, topic of UTF-8 below 65536 bytes, length
  -- below 2^28, and in version 5 no properties or a block of them that is not empty, in their
  -- ranges and without subscription identifiers), `Publish::write` appends the flags byte, the
  -- remaining length and the body to the buffer, and returns how many bytes that is: `len` is the
  -- length of the body, and `len_len` the one of the remaining length.
  pub write-body :
      (p : Publish) (s : List ℕ)
      → IsSendable p
      → (write p s ≡ (
        s ++ (flag_byte p.retain p.qos p.dup ∷ (groups 3 (len p) ++ body p)),
        1 + len_len (len p) + len p,
      ))
        × (length (groups 3 (len p)) ≡ len_len (len p))
        × (length (body p) ≡ len p)
  write-body p s r = (written-body p s r, length-groups (len p) r.fits, length-body p r)

  read_id-bytes :
      (q : QoSWithPacketId) (rest : List ℕ) → read_id (kind q) (id_bytes q ++ rest) ≡ ok (q, rest)
  unfolding read_id
  read_id-bytes QoSWithPacketId.at_most_once rest = refl
  read_id-bytes (QoSWithPacketId.at_least_once id) rest = rw (read_u16-be16 id rest)
  read_id-bytes (QoSWithPacketId.exactly_once id) rest = rw (read_u16-be16 id rest)

  read_block-bytes :
      (v : Protocol) (p : Option PublishProperties) (rest : List ℕ)
      → IsBlock v p
      → block_len v p < 2 ^ 28
      → read_block v (block_bytes v p ++ rest) ≡ ok (p, rest)
  unfolding read_block Properties.read
  read_block-bytes v4 none rest r h = refl
  read_block-bytes v4 (some p) rest r h = elim r [ ]
  read_block-bytes v5 none rest r h = read_properties-none handle empty rest
  read_block-bytes v5 (some p) rest r h =
      let size = length-block p r.no_ids in
      rw (append_assoc (groups 3 (Properties.len p)) (block p) rest, ← size)
        (read_properties-Segment rest (block-Segment p r) (omega (arith, r.not_empty))
          (omega arith))

  -- `read` takes the body back.
  pub read-body :
      (p : Publish) (h : FixedHeader) (s : List ℕ)
      → IsSendable p
      → h.byte1 ≡ flag_byte p.retain p.qos p.dup
      → h.fixed_header_len ≤ length s
      → drop h.fixed_header_len s ≡ body p
      → read h s p.protocol ≡ ok p
  unfolding read
  read-body p h s r e le d =
      let flags = flags_lem p.retain p.dup p.qos in
      rw (
        e,
        flags.0,
        flags.1,
        flags.2,
        qos-number p.qos,
        b.advance_law h.fixed_header_len s le,
        d,
        read_mqtt_string-framed p.topic _ r.text.0 r.text.1,
        read_id-bytes p.qos,
        read_block-bytes p.protocol p.properties p.payload r.properties
            (unfold len in omega (arith, r.fits)),
      )
