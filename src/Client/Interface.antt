-- ===== src/Client/Interface.antt =====
-- src/tasks/task_client/mod.rs: what the user calls. Every request that is accepted goes to the hub over the
-- bus.
use for_mqtt_client.Base.{ℕ, suc, ◌+◌, List, ◌∷◌, length, ltb, Bool, if◌then◌else◌}
use for_mqtt_client.Outcome.{ok, err}
use for_mqtt_client.Protocol.{Protocol, v4, v5}
use for_mqtt_client.Bytes.{BytesCrate}
use for_mqtt_client.Properties.{Text}
use for_mqtt_client.Packet.Qos.{QoS}
use for_mqtt_client.Client.Ids as Ids
use for_mqtt_client.Client.SubscribeBuilder as Filter
use for_mqtt_client.Client.SubscribeBuilder.{trace_subscribe}
use for_mqtt_client.Client.UnsubscribeBuilder as UnsubscribeFilter
use for_mqtt_client.Client.UnsubscribeBuilder.{trace_unsubscribe}
use for_mqtt_client.Client.Traces.{TraceSubscribe, TraceUnubscribe}
use for_mqtt_client.Client.Data as Data
use for_mqtt_client.Client.Data.{ClientCommand, ClientData, disconnect_and_drop}
use for_mqtt_client.Hub.World.{EventBus}
use for_mqtt_client.Task.{Stop, Task, ◌>>=◌, ◌>>◌, return, fail}

pub data ClientErr : Type 0 where
  disconnected payload_too_long channel_err : ClientErr

pub data Request : Type 0 where
  request_data : ClientData → Request
  request_command : ClientCommand → Request

-- The client, the static counter of src/datas/id.rs, the number of calls of the bus so far, and what it has
-- taken, the latest first.
pub record Client : Type 0 where
  pub protocol : Protocol
  pub counter : ℕ
  pub calls : ℕ
  pub done : List Request

abbrev pub next_id : Task Client ClientErr ℕ
next_id w = (record w { counter = (Ids.id w.counter).1 }, ok (Ids.id w.counter).0)

module _ ⦃bus : EventBus⦄ where
  -- `dispatch_event(…).await?`; `From<BusError> for ClientErr` has one value.
  unfoldable pub dispatch : Request → Task Client ClientErr (Unit {0})
  dispatch request w =
      if bus.accepts w.calls
      then (record w { calls = suc w.calls; done = request ∷ w.done }, ok tt)
      else (record w { calls = suc w.calls }, err (Stop.failed channel_err))

  unfoldable pub publish_with_trace_id :
      Text → QoS → List ℕ → Bool → ℕ → Task Client ClientErr (Unit {0})
  publish_with_trace_id topic qos payload retain trace_id w =
      (if ltb 268_435_455 (length payload + 4 + length topic)
          then fail payload_too_long
          else dispatch (request_data (Data.publish topic qos payload retain w.protocol trace_id)))
        w

  unfoldable pub publish : Text → QoS → List ℕ → Bool → Task Client ClientErr ℕ
  publish topic qos payload retain = do
    id ← next_id
    publish_with_trace_id topic qos payload retain id
    return id

  -- `publish_by_arc`
  unfoldable pub publish_by_arc : Text → QoS → List ℕ → Bool → Task Client ClientErr ℕ
  publish_by_arc topic qos payload retain = do
    id ← next_id
    λ w.
        (if ltb 268_435_455 (length payload + 4 + length topic) then fail payload_too_long else (do
          dispatch (request_data (Data.publish topic qos payload retain w.protocol id))
          return id))
          w

  unfoldable pub disconnect : Task Client ClientErr (Unit {0})
  disconnect = dispatch (request_command disconnect_and_drop)

  module _ ⦃b : BytesCrate⦄ where
    abbrev pub subscribe_by : Protocol → Text → QoS → ℕ → TraceSubscribe
    subscribe_by v4 topic qos id = trace_subscribe {t = v4} (Filter.build (Filter.new topic qos) id)
    subscribe_by v5 topic qos id = trace_subscribe {t = v5} (Filter.build (Filter.new topic qos) id)

    unfoldable pub to_subscribe_with_trace_id : Text → QoS → ℕ → Task Client ClientErr (Unit {0})
    to_subscribe_with_trace_id topic qos id w =
        dispatch (request_data (ClientData.subscribe (subscribe_by w.protocol topic qos id))) w

    unfoldable pub to_subscribe : Text → QoS → Task Client ClientErr ℕ
    to_subscribe topic qos = do id ← next_id; to_subscribe_with_trace_id topic qos id; return id

    abbrev pub unsubscribe_by : Protocol → Text → ℕ → TraceUnubscribe
    unsubscribe_by v4 topic id =
        trace_unsubscribe {t = v4} (UnsubscribeFilter.build (UnsubscribeFilter.new topic) id)
    unsubscribe_by v5 topic id =
        trace_unsubscribe {t = v5} (UnsubscribeFilter.build (UnsubscribeFilter.new topic) id)

    unfoldable pub unsubscribe_with_trace_id : Text → ℕ → Task Client ClientErr (Unit {0})
    unsubscribe_with_trace_id topic id w =
        dispatch (request_data (ClientData.unsubscribe (unsubscribe_by w.protocol topic id))) w

    unfoldable pub unsubscribe : Text → Task Client ClientErr ℕ
    unsubscribe topic = do id ← next_id; unsubscribe_with_trace_id topic id; return id
