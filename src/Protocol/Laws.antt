-- ===== src/Protocol/Laws.antt =====
-- The tables of Protocol: every code is read back, and every look-up answers.
use for_mqtt_client.Base.{ℕ, ◌≤◌, ◌≡◌, refl, true, arith}
use for_mqtt_client.Outcome.{ok, is_answer, Returns, Returns-of_answer}
use for_mqtt_client.Protocol.{
  PropertyType, payload_format_indicator, property, property_code, FixedHeader, packet_type,
  len_len,
}

-- Every property type is what `property` makes of its code.
property-code : (p : PropertyType) → property (property_code p) ≡ ok p
unfolding property
property-code payload_format_indicator = refl
property-code _ = refl

property_answers : (n : ℕ) → is_answer (property n) ≡ true
unfolding property
property_answers n = ground arith

pub property-Returns : (n : ℕ) → Returns (λ _. Unit {0}) (property n)
property-Returns n = Returns-of_answer _ (property_answers n)

packet_type_answers : (h : FixedHeader) → is_answer (packet_type h) ≡ true
unfolding packet_type
packet_type_answers h = ground arith

pub packet_type-Returns : (h : FixedHeader) → Returns (λ _. Unit {0}) (packet_type h)
packet_type-Returns h = Returns-of_answer _ (packet_type_answers h)

pub len_len_bounds : (n : ℕ) → (1 ≤ len_len n) × (len_len n ≤ 4)
unfolding len_len
len_len_bounds n = ground arith
