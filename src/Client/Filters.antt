-- ===== src/Client/Filters.antt =====
-- The bytes that the builders of src/tasks/task_client/data/builder.rs make, and the packet that they are sent in.
use for_mqtt_client.Base.{
  ℕ, All, bit_or, if◌then◌else◌, ◌+◌, ◌*◌, ◌<◌, ◌^◌, ◌≡◌, refl, sym, ap, ◌∙◌, Bool, true, false,
  List, [], ◌∷◌, ◌++◌, append_assoc, append-nil, length, none, arith,
}
use for_mqtt_client.Protocol.{Protocol, v4, v5}
use for_mqtt_client.Bytes.{BytesCrate}
use for_mqtt_client.Wire.Reading.{be16, framed, write_mqtt_string-framed}
use for_mqtt_client.Wire.Lengths.{groups}
use for_mqtt_client.Wire.{write_mqtt_string}
use for_mqtt_client.Properties.{Pairs, Text}
use for_mqtt_client.Packet.Qos.{QoS, qos_code}
use for_mqtt_client.Packet.Subscribe.{
  Subscribe, RetainForwardRule, on_every_subscribe, on_new_subscribe, never, merge_to_u8,
  set_packet_id, packet_id, len, write,
}
use for_mqtt_client.Packet.Subscribe.Layout.{body, subscribe_layout}
use for_mqtt_client.Client.SubscribeBuilder.{
  FilterBuilder, SubscribeBuilder, options_of, write_filter, write_filters, write_user_properties,
  write_properties, trace_subscribe,
}

abbrev pub flag : Bool → ℕ
flag false = 0
flag true = 1

abbrev pub rule_code : RetainForwardRule → ℕ
rule_code on_every_subscribe = 0
rule_code on_new_subscribe = 1
rule_code never = 2

-- The options of a subscription as MQTT lays them out: two bits for the quality, one for each flag, two for
-- the rule. Version 3.1.1 has only the quality.
abbrev pub options_byte : {t : Protocol} → FilterBuilder t → ℕ
options_byte {t = v4} f = qos_code f.qos
options_byte {t = v5} f =
    qos_code f.qos
    + 4 * flag f.no_local
    + 8 * flag f.preserve_retain
    + 16 * rule_code f.retain_forward_rule

options_v5 :
    (q : QoS) (l p : Bool) (rule : RetainForwardRule)
    → merge_to_u8 rule (
        let options = if l then bit_or (qos_code q) 4 else qos_code q in
        if p then bit_or options 8 else options)
      ≡ qos_code q + 4 * flag l + 8 * flag p + 16 * rule_code rule
unfolding merge_to_u8
options_v5 q l p rule = grind arith

qos_code-small : (q : QoS) → qos_code q < 3
qos_code-small q = grind arith

flag-small : (x : Bool) → flag x < 2
flag-small x = grind arith

rule_code-small : (rule : RetainForwardRule) → rule_code rule < 3
rule_code-small rule = grind arith

options_of-byte : {t : Protocol} (f : FilterBuilder t) → options_of f ≡ options_byte f
options_of-byte {t = v4} f = refl
options_of-byte {t = v5} f = options_v5 f.qos f.no_local f.preserve_retain f.retain_forward_rule

options_byte-small : {t : Protocol} (f : FilterBuilder t) → options_byte f < 256
options_byte-small {t = v4} f = omega (arith, qos_code-small f.qos)
options_byte-small {t = v5} f = omega (
  arith,
  qos_code-small f.qos,
  flag-small f.no_local,
  flag-small f.preserve_retain,
  rule_code-small f.retain_forward_rule,
)

-- A string behind its length, of two bytes.
abbrev pub sized : Text → List ℕ
sized s = be16 (length s) ++ s

abbrev pub IsShort : Text → Type 0
IsShort s = length s < 65536

write_mqtt_string-sized :
    ⦃b : BytesCrate⦄ (buffer : List ℕ) (s : Text)
    → IsShort s
    → write_mqtt_string buffer s ≡ buffer ++ sized s
unfolding framed
write_mqtt_string-sized buffer s h =
    write_mqtt_string-framed buffer s ∙ ap (λ n. buffer ++ (be16 n ++ s)) (omega (arith, h))

-- Every string of the builder has a length that two bytes hold.
pub record AreShort {t : Protocol} (builder : SubscribeBuilder t) : Type 0 where
  pub paths : All (λ f. IsShort f.path) builder.filters
  pub pairs : All (λ pair. IsShort pair.0 × IsShort pair.1) builder.user_properties

-- The filters of a subscription on the wire: each path with its length, and its options.
abbrev pub filter_bytes : {t : Protocol} → List (FilterBuilder t) → List ℕ
filter_bytes [] = []
filter_bytes (f ∷ fs) = sized f.path ++ (options_byte f ∷ filter_bytes fs)

-- And its properties.
abbrev pub pair_bytes : Pairs → List ℕ
pair_bytes [] = []
pair_bytes (pair ∷ pairs) = 38 ∷ (sized pair.0 ++ (sized pair.1 ++ pair_bytes pairs))

-- What stands behind the identifier of the packet.
abbrev pub payload_of : {t : Protocol} → SubscribeBuilder t → List ℕ
payload_of {t = v4} builder = filter_bytes builder.filters
payload_of {t = v5} builder =
    groups 3 (length (pair_bytes builder.user_properties))
    ++ (pair_bytes builder.user_properties ++ filter_bytes builder.filters)

module _ ⦃b : BytesCrate⦄ where
  write_filter-bytes :
      {t : Protocol} (f : FilterBuilder t) (buffer : List ℕ)
      → IsShort f.path
      → write_filter f buffer ≡ buffer ++ (sized f.path ++ (options_byte f ∷ []))
  unfolding write_filter
  write_filter-bytes f buffer h =
      ap (b.put_u8 (write_mqtt_string buffer f.path)) (options_of-byte f)
      ∙ ap (λ s. b.put_u8 s (options_byte f)) (write_mqtt_string-sized buffer f.path h)
      ∙ b.put_u8_law (buffer ++ sized f.path) (options_byte f) (options_byte-small f)
      ∙ append_assoc buffer (sized f.path) (options_byte f ∷ [])

  write_filters-bytes :
      {t : Protocol} (fs : List (FilterBuilder t)) (buffer : List ℕ)
      → All (λ f. IsShort f.path) fs
      → write_filters fs buffer ≡ buffer ++ filter_bytes fs
  unfolding write_filters
  write_filters-bytes [] buffer h = sym (append-nil buffer)
  write_filters-bytes (f ∷ fs) buffer h =
      ap (write_filters fs) (write_filter-bytes f buffer h.0)
      ∙ write_filters-bytes fs (buffer ++ (sized f.path ++ (options_byte f ∷ []))) h.1
      ∙ append_assoc buffer (sized f.path ++ (options_byte f ∷ [])) (filter_bytes fs)
      ∙ ap (λ s. buffer ++ s) (append_assoc (sized f.path) (options_byte f ∷ []) (filter_bytes fs))

  write_user_properties-bytes :
      (pairs : Pairs) (buffer : List ℕ)
      → All (λ pair. IsShort pair.0 × IsShort pair.1) pairs
      → write_user_properties pairs buffer ≡ buffer ++ pair_bytes pairs
  unfolding write_user_properties
  write_user_properties-bytes [] buffer h = sym (append-nil buffer)
  write_user_properties-bytes (pair ∷ pairs) buffer h =
      let first = (buffer ++ (38 ∷ [])) ++ sized pair.0 in
      rw
        (
          b.put_u8_law buffer 38 (omega arith),
          write_mqtt_string-sized (buffer ++ (38 ∷ [])) pair.0 h.0.0,
          write_mqtt_string-sized first pair.1 h.0.1,
          write_user_properties-bytes pairs (first ++ sized pair.1) h.1,
        )
        (simp append_assoc)

  -- The subscription that becomes of the builder.
  abbrev pub made_of : {t : Protocol} → SubscribeBuilder t → Subscribe
  made_of {t = v4} builder = Subscribe.v4 0 (filter_bytes builder.filters)
  made_of {t = v5} builder =
      Subscribe.v5 0 (pair_bytes builder.user_properties) (filter_bytes builder.filters)

  trace_subscribe-bytes :
      {t : Protocol} (builder : SubscribeBuilder t)
      → builder.id ≡ none
      → AreShort builder
      → (trace_subscribe builder).subscribe ≡ made_of builder
  unfolding trace_subscribe write_properties
  trace_subscribe-bytes {t = v4} builder e short =
      ap (Subscribe.v4 0) (write_filters-bytes builder.filters [] short.paths)
  trace_subscribe-bytes {t = v5} builder e short =
      rw
        (
          e,
          write_user_properties-bytes builder.user_properties [] short.pairs,
          write_filters-bytes builder.filters [] short.paths,
        )
        refl

  -- The packet, where `made_of` is known.
  packet-bytes :
      (p : Subscribe) (content : List ℕ)
      → packet_id p < 65536
      → len p < 2 ^ 28
      → body p ≡ content
      → (write p []).0 ≡ 0x82 ∷ (groups 3 (length content) ++ content)
  packet-bytes p content hid h e =
      let (written, size) = subscribe_layout p [] hid h in
      ap (λ x. x.0) written ∙ rw (← size, e) refl

  made-body :
      {t : Protocol} (builder : SubscribeBuilder t) (id : ℕ)
      → (body (set_packet_id (made_of builder) id) ≡ be16 id ++ payload_of builder)
        × (packet_id (set_packet_id (made_of builder) id) ≡ id)
  unfolding body set_packet_id packet_id
  made-body {t = v4} builder id = (refl, refl)
  made-body {t = v5} builder id = (refl, refl)

  -- A subscription that the builder has made without a subscription identifier, whose strings (the
  -- paths, and the keys and values of the user properties) are shorter than 65536 bytes, and to
  -- which the hub has given a 16-bit identifier, is written as one packet, if its length fits 28
  -- bits: the first byte, the length of the rest, the identifier, in version 5 the user properties
  -- behind their length, and each filter with the length of its path, the path, and its options
  -- laid out as in MQTT.
  pub write-trace_subscribe :
      {t : Protocol} (builder : SubscribeBuilder t) (id : ℕ)
      → builder.id ≡ none
      → AreShort builder
      → id < 65536
      → len (set_packet_id (trace_subscribe builder).subscribe id) < 2 ^ 28
      → (write (set_packet_id (trace_subscribe builder).subscribe id) []).0
        ≡ 0x82
          ∷ (groups 3 (length (be16 id ++ payload_of builder)) ++ (be16 id ++ payload_of builder))
  write-trace_subscribe builder id none_set short hid h =
      let made = trace_subscribe-bytes builder none_set short in
      let (content, same) = made-body builder id in
      ap (λ p. (write (set_packet_id p id) []).0) made
      ∙ packet-bytes (set_packet_id (made_of builder) id) (be16 id ++ payload_of builder)
          (rw same hid) (rw (← made) h) content
