-- ===== src/Client/UnsubscribeBuilder.antt =====
-- src/tasks/task_client/data/builder/unsubscribe.rs
use for_mqtt_client.Base.{ℕ, List, [], ◌∷◌, ◌++◌}
use for_mqtt_client.Protocol.{Protocol, v4, v5, property_code, user_property}
use for_mqtt_client.Bytes.{BytesCrate}
use for_mqtt_client.Wire.{write_mqtt_string}
use for_mqtt_client.Properties.{Text, Pairs}
use for_mqtt_client.Packet.Unsubscribe.{Unsubscribe}
use for_mqtt_client.Client.Traces.{TraceUnubscribe}

pub record UnsubscribeFilterBuilder (t : Protocol) : Type 0 where
  pub path : Text

pub record UnsubscribeBuilder (t : Protocol) : Type 0 where
  pub trace_id : ℕ
  pub user_properties : Pairs
  pub filters : List (UnsubscribeFilterBuilder t)

module _ {t : Protocol} where
  unfoldable pub new : Text → UnsubscribeFilterBuilder t
  new path = record { path = path }

  unfoldable pub build : UnsubscribeFilterBuilder t → ℕ → UnsubscribeBuilder t
  build filter trace_id = record {
    trace_id = trace_id;
    user_properties = [];
    filters = filter ∷ [];
  }

  unfoldable pub add_filter : UnsubscribeBuilder t → Text → UnsubscribeBuilder t
  unfolding new
  add_filter builder path = record builder { filters = builder.filters ++ (new path ∷ []) }

unfoldable pub add_user_properties : UnsubscribeBuilder v5 → Text → Text → UnsubscribeBuilder v5
add_user_properties builder key val = record builder {
  user_properties = builder.user_properties ++ ((key, val) ∷ []);
}

module _ ⦃b : BytesCrate⦄ where
  unfoldable pub write_filters :
      {t : Protocol} → List (UnsubscribeFilterBuilder t) → List ℕ → List ℕ
  write_filters [] buffer = buffer
  write_filters (filter ∷ filters) buffer =
      write_filters filters (write_mqtt_string buffer filter.path)

  unfoldable pub write_user_properties : Pairs → List ℕ → List ℕ
  write_user_properties [] buffer = buffer
  write_user_properties (pair ∷ pairs) buffer =
      let buffer = b.put_u8 buffer (property_code user_property) in
      write_user_properties pairs (write_mqtt_string (write_mqtt_string buffer pair.0) pair.1)

  -- `From<UnsubscribeBuilder<T>> for TraceUnubscribe`
  unfoldable pub trace_unsubscribe : {t : Protocol} → UnsubscribeBuilder t → TraceUnubscribe
  trace_unsubscribe {t = v4} builder = record {
    id = builder.trace_id;
    unsubscribe = Unsubscribe.v4 0 (write_filters builder.filters []);
  }
  trace_unsubscribe {t = v5} builder = record {
    id = builder.trace_id;
    unsubscribe =
        Unsubscribe.v5 0 (write_user_properties builder.user_properties [])
          (write_filters builder.filters []);
  }
