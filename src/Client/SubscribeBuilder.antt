-- ===== src/Client/SubscribeBuilder.antt =====
-- src/tasks/task_client/data/builder.rs: a subscription is put together and becomes the bytes of its packet. The
-- parameter is the type `ProtocolV4` or `ProtocolV5` of src/lib.rs; some methods exist for one of them only.
use for_mqtt_client.Base.{
  ℕ, bit_or, Bool, false, Option, none, some, List, [], ◌∷◌, ◌++◌, if◌then◌else◌,
}
use for_mqtt_client.Protocol.{
  Protocol, v4, v5, property_code, subscription_identifier, user_property,
}
use for_mqtt_client.Bytes.{BytesCrate}
use for_mqtt_client.Wire.{write_mqtt_bytes, write_mqtt_string}
use for_mqtt_client.Properties.{Text, Pairs}
use for_mqtt_client.Packet.Qos.{QoS, qos_code}
use for_mqtt_client.Packet.Subscribe.{Subscribe, RetainForwardRule, on_every_subscribe, merge_to_u8}
use for_mqtt_client.Client.Traces.{TraceSubscribe}

pub record FilterBuilder (t : Protocol) : Type 0 where
  pub path : Text
  pub qos : QoS
  pub no_local : Bool
  pub preserve_retain : Bool
  pub retain_forward_rule : RetainForwardRule

-- The bytes of a `SubscribeId`, which nothing in the crate makes.
pub record SubscribeBuilder (t : Protocol) : Type 0 where
  pub trace_id : ℕ
  pub id : Option (List ℕ)
  pub user_properties : Pairs
  pub filters : List (FilterBuilder t)

module _ {t : Protocol} where
  unfoldable pub new : Text → QoS → FilterBuilder t
  new path qos = record {
    path = path;
    qos = qos;
    no_local = false;
    preserve_retain = false;
    retain_forward_rule = on_every_subscribe;
  }

  unfoldable pub build : FilterBuilder t → ℕ → SubscribeBuilder t
  build filter trace_id = record {
    trace_id = trace_id;
    id = none;
    user_properties = [];
    filters = filter ∷ [];
  }

  -- The new filter is the last; the reference to it that the source returns, `change_last` works through.
  unfoldable pub add_filter : SubscribeBuilder t → Text → QoS → SubscribeBuilder t
  unfolding new
  add_filter builder path qos = record builder { filters = builder.filters ++ (new path qos ∷ []) }

  abbrev pub changed_last :
      (FilterBuilder t → FilterBuilder t) → List (FilterBuilder t) → List (FilterBuilder t)
  changed_last change [] = []
  changed_last change (f ∷ []) = change f ∷ []
  changed_last change (f ∷ g ∷ filters) = f ∷ changed_last change (g ∷ filters)

  unfoldable pub change_last :
      (FilterBuilder t → FilterBuilder t) → SubscribeBuilder t → SubscribeBuilder t
  change_last change builder = record builder { filters = changed_last change builder.filters }

unfoldable pub add_user_properties : SubscribeBuilder v5 → Text → Text → SubscribeBuilder v5
add_user_properties builder key val = record builder {
  user_properties = builder.user_properties ++ ((key, val) ∷ []);
}

unfoldable pub set_nolocal : FilterBuilder v5 → Bool → FilterBuilder v5
set_nolocal filter no_local = record filter { no_local = no_local }

unfoldable pub set_preserve_retain : FilterBuilder v5 → Bool → FilterBuilder v5
set_preserve_retain filter preserve_retain = record filter { preserve_retain = preserve_retain }

unfoldable pub set_retain_forward_rule : FilterBuilder v5 → RetainForwardRule → FilterBuilder v5
set_retain_forward_rule filter rule = record filter { retain_forward_rule = rule }

-- The byte behind the path, as `write_filter` makes it for each protocol.
abbrev pub options_of : {t : Protocol} → FilterBuilder t → ℕ
options_of {t = v4} filter = qos_code filter.qos
options_of {t = v5} filter =
    let options = qos_code filter.qos in
    let options = if filter.no_local then bit_or options 4 else options in
    let options = if filter.preserve_retain then bit_or options 8 else options in
    merge_to_u8 filter.retain_forward_rule options

module _ ⦃b : BytesCrate⦄ where
  unfoldable pub write_filter : {t : Protocol} → FilterBuilder t → List ℕ → List ℕ
  write_filter filter buffer = b.put_u8 (write_mqtt_string buffer filter.path) (options_of filter)

  unfoldable pub write_filters : {t : Protocol} → List (FilterBuilder t) → List ℕ → List ℕ
  write_filters [] buffer = buffer
  write_filters (filter ∷ filters) buffer = write_filters filters (write_filter filter buffer)

  abbrev pub write_id : Option (List ℕ) → List ℕ → List ℕ
  write_id none buffer = buffer
  write_id (some bytes) buffer =
      write_mqtt_bytes (b.put_u8 buffer (property_code subscription_identifier)) bytes

  unfoldable pub write_user_properties : Pairs → List ℕ → List ℕ
  write_user_properties [] buffer = buffer
  write_user_properties (pair ∷ pairs) buffer =
      let buffer = b.put_u8 buffer (property_code user_property) in
      write_user_properties pairs (write_mqtt_string (write_mqtt_string buffer pair.0) pair.1)

  unfoldable pub write_properties : Option (List ℕ) → Pairs → List ℕ
  write_properties id user_properties = write_user_properties user_properties (write_id id [])

  -- `From<SubscribeBuilder<T>> for TraceSubscribe`
  unfoldable pub trace_subscribe : {t : Protocol} → SubscribeBuilder t → TraceSubscribe
  trace_subscribe {t = v4} builder = record {
    id = builder.trace_id;
    subscribe = Subscribe.v4 0 (write_filters builder.filters []);
  }
  trace_subscribe {t = v5} builder = record {
    id = builder.trace_id;
    subscribe =
        Subscribe.v5 0 (write_properties builder.id builder.user_properties)
          (write_filters builder.filters []);
  }
