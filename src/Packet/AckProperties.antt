-- ===== src/Packet/AckProperties.antt =====
-- The properties of the acknowledgements: `SubAckProperties`, `UnsubAckProperties` and
-- `PubCommonProperties` under src/protocol/packet are three structs with the same two fields.
use for_mqtt_client.Base.{
  ℕ, List, [], ◌∷◌, ◌++◌, Option, none, some, ◌==◌, if◌then◌else◌, Bool-cases, inl, inr,
}
use for_mqtt_client.Outcome.{err, ◌>>=◌, returns_err, Returns-bind}
use for_mqtt_client.Protocol.{
  PropertyType, reason_string, user_property, property, invalid_property_type,
}
use for_mqtt_client.Protocol.Laws.{property-Returns}
use for_mqtt_client.Bytes.{BytesCrate}
use for_mqtt_client.Wire.{Read}
use for_mqtt_client.Properties.{Text, Pairs, Handle, read_properties, on_string, on_pair}
use for_mqtt_client.Properties.Laws.{IsReader, on_string-IsReader, on_pair-IsReader}

pub record AckProperties : Type 0 where
  pub reason_string : Option Text
  pub user_properties : Pairs

abbrev pub empty : AckProperties
empty = record { reason_string = none; user_properties = [] }

module _ ⦃b : BytesCrate⦄ where
  unfoldable pub on_property :
      ℕ → PropertyType → AckProperties → List ℕ → Read (AckProperties × ℕ × List ℕ)
  on_property prop reason_string s bytes =
      on_string (λ v. record s { reason_string = some v }) bytes
  on_property prop user_property s bytes =
      on_pair (λ v. record s { user_properties = s.user_properties ++ (v ∷ []) }) bytes
  on_property prop _ s bytes = err (invalid_property_type prop)

  unfoldable pub handle : Handle AckProperties
  handle prop s bytes = do p ← property prop; on_property prop p s bytes

  -- `SubAckProperties::read` and `UnsubAckProperties::read`
  unfoldable pub read : List ℕ → Read (Option AckProperties × List ℕ)
  read bytes = read_properties handle empty bytes

  -- `PubCommon::read_properties` matches on the number itself.
  unfoldable pub handle_number : Handle AckProperties
  handle_number prop s bytes =
      if prop == 31
      then on_string (λ v. record s { reason_string = some v }) bytes
      else if prop == 38
      then on_pair (λ v. record s { user_properties = s.user_properties ++ (v ∷ []) }) bytes
      else err (invalid_property_type prop)

  unfoldable pub read_number : List ℕ → Read (Option AckProperties × List ℕ)
  read_number bytes = read_properties handle_number empty bytes

  on_property-IsReader :
      (prop : ℕ) (p : PropertyType) (s : AckProperties) → IsReader (on_property prop p s)
  unfolding on_property
  on_property-IsReader prop reason_string s = on_string-IsReader _
  on_property-IsReader prop user_property s = on_pair-IsReader _
  on_property-IsReader prop _ s = λ bytes h. returns_err

  pub handle-IsReader : (prop : ℕ) (s : AckProperties) → IsReader (handle prop s)
  unfolding handle
  handle-IsReader prop s bytes h =
      Returns-bind (property-Returns prop) λ p _. on_property-IsReader prop p s bytes h

  pub handle_number-IsReader : (prop : ℕ) (s : AckProperties) → IsReader (handle_number prop s)
  unfolding handle_number
  handle_number-IsReader prop s bytes h = elim (Bool-cases (prop == 31)) [
    | inl e ↦ rw e (on_string-IsReader _ bytes h)
    | inr e ↦ rw e (elim (Bool-cases (prop == 38)) [
      | inl f ↦ rw f (on_pair-IsReader _ bytes h)
      | inr f ↦ rw f returns_err
    ])
  ]
