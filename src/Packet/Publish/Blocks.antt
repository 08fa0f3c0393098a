-- ===== src/Packet/Publish/Blocks.antt =====
-- The properties of a publish in bytes: what `PublishProperties::write` of
-- src/protocol/packet/publish.rs appends, and that `read` takes it back field by field.
use mathlib.Core.Path.{subst}
use for_mqtt_client.Base.{
  ℕ, ◌^◌, ◌<◌, ◌≡◌, refl, sym, List, [], ◌++◌, append_assoc, length, length-append, arith,
}
use for_mqtt_client.Protocol.{
  property, payload_format_indicator, message_expiry_interval, topic_alias, response_topic,
  correlation_data, content_type,
}
use for_mqtt_client.Bytes.{BytesCrate}
use for_mqtt_client.Wire.Lengths.{groups, write_remaining_length-groups}
use for_mqtt_client.Wire.Reading.{be16, be32}
use for_mqtt_client.Properties.Pieces.{
  Within, IsOptText, IsOptBytes, ArePairs, piece, one, text_piece, pair_pieces, write_u8-piece,
  write_u16-piece, write_u32-piece, write_bytes-piece, write_string-piece, write_pairs-pieces,
  length-u8_piece, length-u16_piece, length-u32_piece, length-text_piece, length-pair_pieces,
}
use for_mqtt_client.Properties.Segments.{
  Segment, Segment-append, Segment-u8, Segment-u16, Segment-u32, Segment-bytes, Segment-string,
  Segment-pairs,
}
use for_mqtt_client.Packet.Publish.Properties
use for_mqtt_client.Packet.Publish.Properties.{
  PublishProperties, empty, on_property, handle, write_ids,
}

-- Properties that the reader gives back: values in the range of their types, no subscription
-- identifier, and something set.
pub record AreReadable (p : PublishProperties) : Type 0 where
  pub indicator : Within 256 p.payload_format_indicator
  pub expiry : Within 4294967296 p.message_expiry_interval
  pub alias : Within 65536 p.topic_alias
  pub response : IsOptText p.response_topic
  pub correlation : IsOptBytes p.correlation_data
  pub pairs : ArePairs p.user_properties
  pub no_ids : p.subscription_identifiers ≡ []
  pub content : IsOptText p.content_type
  pub not_empty : 0 < Properties.len p

abbrev pub block : PublishProperties → List ℕ
block p =
    piece payload_format_indicator one p.payload_format_indicator
    ++ (piece message_expiry_interval be32 p.message_expiry_interval
        ++ (piece topic_alias be16 p.topic_alias
            ++ (text_piece response_topic p.response_topic
                ++ (text_piece correlation_data p.correlation_data
                    ++ (pair_pieces p.user_properties ++ text_piece content_type p.content_type)))))

pub length-block :
    (p : PublishProperties) → p.subscription_identifiers ≡ [] → length (block p) ≡ Properties.len p
unfolding Properties.len
length-block p e = rw e (
    simp
      (
        length-append, length-u8_piece, length-u16_piece, length-u32_piece, length-text_piece,
        length-pair_pieces,
      )
      (omega arith))

module _ ⦃b : BytesCrate⦄ where
  block_fields :
      (p : PublishProperties)
      → AreReadable p
      → Segment handle empty (block p) (record p { subscription_identifiers = [] })
  unfolding handle on_property property
  block_fields p r =
      Segment-append
        (Segment-u8 payload_format_indicator (λ o. record empty { payload_format_indicator = o })
          p.payload_format_indicator (λ bytes. refl))
        (Segment-append
          (Segment-u32 message_expiry_interval
            (λ o. record at_expiry { message_expiry_interval = o }) p.message_expiry_interval
            (λ bytes. refl))
          (Segment-append
            (Segment-u16 topic_alias (λ o. record at_alias { topic_alias = o }) p.topic_alias
              (λ bytes. refl))
            (Segment-append
              (Segment-string response_topic (λ o. record at_response { response_topic = o })
                p.response_topic r.response (λ bytes. refl))
              (Segment-append
                (Segment-bytes correlation_data
                  (λ o. record at_correlation { correlation_data = o }) p.correlation_data
                  r.correlation (λ bytes. refl))
                (Segment-append
                  (Segment-pairs (λ o. record at_pairs { user_properties = o }) p.user_properties
                    r.pairs (λ acc bytes. refl))
                  (Segment-string content_type (λ o. record at_content { content_type = o })
                    p.content_type r.content (λ bytes. refl)))))))
    where
      at_expiry : PublishProperties
      at_expiry = record empty { payload_format_indicator = p.payload_format_indicator }

      at_alias : PublishProperties
      at_alias = record at_expiry { message_expiry_interval = p.message_expiry_interval }

      at_response : PublishProperties
      at_response = record at_alias { topic_alias = p.topic_alias }

      at_correlation : PublishProperties
      at_correlation = record at_response { response_topic = p.response_topic }

      at_pairs : PublishProperties
      at_pairs = record at_correlation { correlation_data = p.correlation_data }

      at_content : PublishProperties
      at_content = record at_pairs { user_properties = p.user_properties }

  pub block-Segment : (p : PublishProperties) → AreReadable p → Segment handle empty (block p) p
  block-Segment p r =
      subst (λ ids. Segment handle empty (block p) (record p { subscription_identifiers = ids }))
        (sym r.no_ids) (block_fields p r)

  pub write-block :
      (p : PublishProperties) (s : List ℕ)
      → AreReadable p
      → Properties.len p < 2 ^ 28
      → Properties.write p s ≡ s ++ (groups 3 (Properties.len p) ++ block p)
  unfolding Properties.write write_ids
  write-block p s r h =
      rw
        (
          write_remaining_length-groups s (Properties.len p) h,
          write_u8-piece _ _ _ r.indicator,
          write_u32-piece _ _ _ r.expiry,
          write_u16-piece _ _ _ r.alias,
          write_string-piece,
          write_bytes-piece,
          write_pairs-pieces,
          r.no_ids,
          write_string-piece,
        )
        (simp append_assoc)
