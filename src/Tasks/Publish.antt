-- ===== src/Tasks/Publish.antt =====
-- The `run` of every task of src/tasks/task_publish.
use for_mqtt_client.Base.{ℕ, []}
use for_mqtt_client.Bytes.{BytesCrate}
use for_mqtt_client.Protocol.{Protocol}
use for_mqtt_client.Packet.Qos.{QoS, QoSWithPacketId}
use for_mqtt_client.Packet.Publish.{Publish, new, write}
use for_mqtt_client.Packet.PubCommon as PubCommon
use for_mqtt_client.Packet.PubCommon.{pub_ack_ty, pub_rec_ty, pub_rel_ty, pub_comp_ty, data_of}
use for_mqtt_client.Client.Traces.{TracePublishQos}
use for_mqtt_client.Client.Data.{publish_success}
use for_mqtt_client.Hub.Data.{recover_id, affirm_rx_id, affirm_rx_publish}
use for_mqtt_client.Hub.World.{EventBus}
use for_mqtt_client.Task.{Task, ◌>>=◌, ◌>>◌}
use for_mqtt_client.Tasks.World.{
  CommonErr, Exchange, to_hub, bytes_of, dispatch, tx_network_default, tx_to_user,
}
use for_mqtt_client.Tasks.Complete.{complete_to_tx_packet, common_rel, publish_dup, common_dup}

-- The packet that a request becomes.
abbrev pub packet_of : {qos : QoS} → TracePublishQos qos → QoSWithPacketId → Publish
packet_of trace qos = new trace.topic qos trace.payload trace.retain trace.protocol

module _ ⦃b : BytesCrate⦄ ⦃bus : EventBus⦄ where
  -- `TaskPublishQos0::run`, which waits for no packet.
  unfoldable pub publish_qos0 :
      TracePublishQos QoS.at_most_once → Task (Exchange (Unit {0})) CommonErr (Unit {0})
  publish_qos0 trace = do
    tx_network_default (write (packet_of trace QoSWithPacketId.at_most_once) []).0
    tx_to_user (publish_success trace.id)

  -- `TaskPublishQos1::run`
  unfoldable pub publish_qos1 :
      TracePublishQos QoS.at_least_once
      → Task (Exchange (PubCommon.PubCommon pub_ack_ty)) CommonErr (Unit {0})
  publish_qos1 trace = do
    ack ←
        complete_to_tx_packet trace.packet_id
          (packet_of trace (QoSWithPacketId.at_least_once trace.packet_id))
    dispatch (to_hub (recover_id trace.packet_id))
    dispatch (to_hub (recover_id trace.packet_id))
    tx_to_user (publish_success trace.id)

  -- `TaskPublishQos2::run`
  unfoldable pub publish_qos2 :
      TracePublishQos QoS.exactly_once
      → Task (Exchange (PubCommon.PubCommon pub_rec_ty)) CommonErr (Unit {0})
  publish_qos2 trace = do
    ack ←
        complete_to_tx_packet trace.packet_id
          (packet_of trace (QoSWithPacketId.exactly_once trace.packet_id))
    dispatch (to_hub (recover_id trace.packet_id))

  -- `TaskPublishQos2Rel::run`
  unfoldable pub publish_qos2_rel :
      ℕ → ℕ → Protocol → Task (Exchange (PubCommon.PubCommon pub_comp_ty)) CommonErr (Unit {0})
  publish_qos2_rel packet_id id protocol = do
    ack ← complete_to_tx_packet packet_id (PubCommon.new pub_rel_ty packet_id protocol)
    dispatch (to_hub (recover_id packet_id))
    tx_to_user (publish_success id)

  -- `TaskPublishRxQos1::run`, which waits for no packet.
  unfoldable pub rx_qos1 : ℕ → Protocol → Task (Exchange (Unit {0})) CommonErr (Unit {0})
  rx_qos1 packet_id protocol = do
    bytes ← bytes_of (data_of (PubCommon.new pub_ack_ty packet_id protocol))
    tx_network_default bytes
    dispatch (to_hub (affirm_rx_publish packet_id))
    dispatch (to_hub (affirm_rx_id packet_id))

  -- `TaskPublishRxQos2::run`
  unfoldable pub rx_qos2 :
      ℕ → Protocol → Task (Exchange (PubCommon.PubCommon pub_rel_ty)) CommonErr (Unit {0})
  rx_qos2 packet_id protocol = do
    ack ← complete_to_tx_packet packet_id (PubCommon.new pub_rec_ty packet_id protocol)
    dispatch (to_hub (affirm_rx_publish packet_id))
    bytes ← bytes_of (data_of (PubCommon.new pub_comp_ty packet_id protocol))
    tx_network_default bytes
    dispatch (to_hub (affirm_rx_id packet_id))
