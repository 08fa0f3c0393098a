-- ===== src/Tasks/Subscribe.antt =====
-- The `run` of the tasks of src/tasks/task_subscribe.
use for_mqtt_client.Bytes.{BytesCrate}
use for_mqtt_client.Packet.SubAck.{SubAck, return_codes}
use for_mqtt_client.Packet.UnsubAck.{UnsubAck}
use for_mqtt_client.Client.Traces.{
  TraceSubscribe, TraceUnubscribe, subscribe_packet_id, unsubscribe_packet_id,
}
use for_mqtt_client.Client.Data.{subscribe_ack_event, unsubscribe_ack_event, unsubscribe_ack}
use for_mqtt_client.Hub.Data.{recover_id}
use for_mqtt_client.Hub.World.{EventBus}
use for_mqtt_client.Task.{Task, ◌>>=◌, ◌>>◌}
use for_mqtt_client.Tasks.World.{CommonErr, Exchange, to_hub, dispatch, tx_to_user}
use for_mqtt_client.Tasks.Complete.{
  complete_to_tx_packet, sub_ack_rel, unsub_ack_rel, subscribe_dup, unsubscribe_dup,
}

module _ ⦃b : BytesCrate⦄ ⦃bus : EventBus⦄ where
  -- `TaskSubscribe::run`
  unfoldable pub subscribe : TraceSubscribe → Task (Exchange SubAck) CommonErr (Unit {0})
  subscribe trace = do
    ack ← complete_to_tx_packet (subscribe_packet_id trace) trace.subscribe
    dispatch (to_hub (recover_id (subscribe_packet_id trace)))
    tx_to_user (subscribe_ack_event (record { id = trace.id; acks = return_codes ack }))

  -- `TaskUnsubscribe::run`
  unfoldable pub unsubscribe : TraceUnubscribe → Task (Exchange UnsubAck) CommonErr (Unit {0})
  unsubscribe trace = do
    ack ← complete_to_tx_packet (unsubscribe_packet_id trace) trace.unsubscribe
    dispatch (to_hub (recover_id (unsubscribe_packet_id trace)))
    tx_to_user (unsubscribe_ack_event (unsubscribe_ack ack trace.id))
