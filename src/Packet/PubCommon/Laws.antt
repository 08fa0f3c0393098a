-- ===== src/Packet/PubCommon/Laws.antt =====
-- The acknowledgements: reading returns, and what the client sends for them is read back.
use for_mqtt_client.Base.{
  ℕ, ◌≤◌, ◌<◌, ◌≡◌, List, [], ◌∷◌, ◌++◌, length, drop, All, All-drop, ltb, ◌==◌, Bool-cases, inl,
  inr, Option, none, some, arith,
}
use for_mqtt_client.Outcome.{ok, Returns, returns_ok, returns_err, Returns-bind, Returns-of_answer}
use for_mqtt_client.Protocol.{Protocol, FixedHeader}
use for_mqtt_client.Bytes.{BytesCrate, IsByte}
use for_mqtt_client.Wire.Lengths.{groups, write_remaining_length-groups}
use for_mqtt_client.Wire.Reading.{be16, read_u8-Takes, read_u16-Takes, read_u16-be16}
use for_mqtt_client.Properties.Laws.{read_properties-Leaves}
use for_mqtt_client.Packet.AckProperties
use for_mqtt_client.Packet.AckProperties.{
  AckProperties, handle_number, handle_number-IsReader, read_number,
}
use for_mqtt_client.Packet.PubCommon.{
  Common, PubCommon, v4, v5, read_reason, read_v5, read, write, data_of, new, len,
}

module _ ⦃b : BytesCrate⦄ (c : Common) where
  read_reason-Returns :
      (id code : ℕ) (o : Option AckProperties) → Returns (λ _. Unit {0}) (read_reason c id code o)
  unfolding read_reason
  read_reason-Returns id code none =
      Returns-bind (Returns-of_answer _ (c.reason_answers code)) λ _ _. returns_ok tt
  read_reason-Returns id code (some p) =
      Returns-bind (Returns-of_answer _ (c.reason_answers code)) λ _ _. returns_ok tt

  read_v5-Returns :
      (h : FixedHeader) (id : ℕ) (s : List ℕ)
      → All IsByte s
      → Returns (λ _. Unit {0}) (read_v5 c h id s)
  unfolding read_v5 read_number
  read_v5-Returns h id s hb = elim (Bool-cases (h.remaining_len == 2)) [
    | inl e ↦ rw e (returns_ok tt)
    | inr e ↦ rw e (
        Returns-bind (read_u8-Takes s hb) λ r t. elim (Bool-cases (ltb h.remaining_len 4)) [
          | inl f ↦ rw f (read_reason-Returns id r.0 none)
          | inr f ↦ rw f (
              Returns-bind
                (read_properties-Leaves handle_number handle_number-IsReader AckProperties.empty r.1
                  t.1)
                λ q _. read_reason-Returns id r.0 q.0)
        ])
  ]

  pub read-Returns :
      (h : FixedHeader) (s : List ℕ) (v : Protocol)
      → All IsByte s
      → h.fixed_header_len ≤ length s
      → Returns (λ _. Unit {0}) (read c h s v)
  unfolding read
  read-Returns h s Protocol.v4 hb le = rw (b.advance_law h.fixed_header_len s le) (
      Returns-bind (read_u16-Takes _ (All-drop IsByte h.fixed_header_len s hb)) λ r t.
        elim (Bool-cases (h.remaining_len == 2)) [
          | inl e ↦ rw e (returns_ok tt)
          | inr e ↦ rw e returns_err
        ])
  read-Returns h s Protocol.v5 hb le = rw (b.advance_law h.fixed_header_len s le) (
      Returns-bind (read_u16-Takes _ (All-drop IsByte h.fixed_header_len s hb))
        λ r t. read_v5-Returns h r.0 r.1 t.1)

  -- What `new` makes of an identifier, as the other side reads it.
  abbrev pub received : ℕ → Protocol → PubCommon c
  received id Protocol.v4 = v4 id
  received id Protocol.v5 = v5 id c.default none []

  -- A fresh acknowledgement is four bytes, in both versions.
  pub data-new :
      (id : ℕ) (v : Protocol)
      → id < 65536
      → data_of (new c id v) ≡ ok (c.ty ∷ (groups 3 2 ++ be16 id))
  unfolding data_of new write len
  data-new id Protocol.v4 hid = rw (
    b.put_u8_law [] c.ty c.ty_is_byte,
    write_remaining_length-groups (c.ty ∷ []) 2 (omega arith),
    b.put_u16_law _ id hid,
  )
  data-new id Protocol.v5 hid = rw (
    c.default_is_success,
    b.put_u8_law [] c.ty c.ty_is_byte,
    write_remaining_length-groups (c.ty ∷ []) 2 (omega arith),
    b.put_u16_law _ id hid,
  )

  pub read-received :
      (h : FixedHeader) (s : List ℕ) (id : ℕ) (v : Protocol)
      → h.remaining_len ≡ 2
      → h.fixed_header_len ≤ length s
      → drop h.fixed_header_len s ≡ be16 id
      → read c h s v ≡ ok (received id v)
  unfolding read read_v5
  read-received h s id Protocol.v4 e le d =
      rw (b.advance_law h.fixed_header_len s le, d, read_u16-be16 id [], e)
  read-received h s id Protocol.v5 e le d =
      rw (b.advance_law h.fixed_header_len s le, d, read_u16-be16 id [], e)
