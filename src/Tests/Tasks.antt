-- ===== src/Tests/Tasks.antt =====
-- The tasks on concrete packets.
use for_mqtt_client.Base.{◌≡◌, refl, [], ◌∷◌, none, false, arith}
use for_mqtt_client.Outcome.{ok}
use for_mqtt_client.Protocol.{v4}
use for_mqtt_client.Packet.Qos.{QoS}
use for_mqtt_client.Packet.PubCommon.{
  PubCommon, pub_ack_ty, pub_rec_ty, pub_rel_ty, pub_comp_ty, is_rel, packet_id, new,
}
use for_mqtt_client.Packet.PubCommon.Laws.{data-new}
use for_mqtt_client.Packet.Subscribe as SubscribePacket
use for_mqtt_client.Packet.Subscribe.{Subscribe, data_of}
use for_mqtt_client.Packet.Unsubscribe as UnsubscribePacket
use for_mqtt_client.Packet.Unsubscribe.{Unsubscribe}
use for_mqtt_client.Packet.UnsubAck as UnsubAckPacket
use for_mqtt_client.Packet.UnsubAck.{UnsubAck, UnsubAckReason}
use for_mqtt_client.Packet.SubAck as SubAckPacket
use for_mqtt_client.Packet.SubAck.{SubAck, SubscribeReasonCode}
use for_mqtt_client.Wire.Lengths.{groups}
use for_mqtt_client.Hub.Identifiers.{new_hub}
use for_mqtt_client.Client.Traces.{TraceUnubscribe, TraceSubscribe, TracePublishQos}
use for_mqtt_client.Client.Data.{
  publish_event, subscribe_ack_event, unsubscribe_ack_event, unsubscribe_ack,
}
use for_mqtt_client.Hub.Data.{rx_publish, recover_id}
use for_mqtt_client.Hub.Unacknowledged as Unacknowledged
use for_mqtt_client.Hub.World.{World, tell, start_rx_qos2, start_publish_qos2_rel, arm_keep_alive}
use for_mqtt_client.Hub.Handlers.{deal_hub_msg}
use for_mqtt_client.Tasks.World.{
  receipt, receipt_lost, packet, elapsed, Exchange, to_network, to_hub, to_user,
}
use for_mqtt_client.Tasks.Complete.{
  complete_to_tx_packet, sub_ack_rel, unsub_ack_rel, common_rel, common_dup,
}
use for_mqtt_client.Tasks.Publish.{publish_qos1, publish_qos2, publish_qos2_rel, rx_qos2}
use for_mqtt_client.Tasks.Ping.{ping}
use for_mqtt_client.Tasks.Answered.{IsOpen, complete-answered}
use for_mqtt_client.Tasks.Offers.{Ran}
use for_mqtt_client.Tasks.Totality.{complete-Ran}
use for_mqtt_client.Tasks.PingWays.{PingEnds}
use for_mqtt_client.Tasks.PingEnds.{ping-ends}
use for_mqtt_client.Tasks.ToHub.{Answer, begun, begun_with, IsFor, obeys}
use for_mqtt_client.Tasks.AtLeastOnce.{publish_qos1-completes}
use for_mqtt_client.Tasks.Subscribe.{subscribe, unsubscribe}
use for_mqtt_client.Tasks.Subscribed.{subscribe-completes, unsubscribe-completes}
use for_mqtt_client.Tasks.ExactlyOnce.{publish_qos2-completes}
use for_mqtt_client.Tasks.Incoming.{rx_qos2-completes}
use for_mqtt_client.Tests.Samples.{exact, online, trace, bytes, ring, open_bus}

open_bus-IsOpen : IsOpen open_bus
unfolding open_bus
open_bus-IsOpen n = refl

-- A publish with the identifier 7, in the queue of a hub.
abbrev sent : TracePublishQos QoS.exactly_once
sent = record trace { packet_id = 7 }

abbrev waiting : World
waiting = record online {
  hub = record online.hub { client_data = Unacknowledged.publish_qos2 sent ∷ [] };
}

-- In the first attempt a packet for another identifier comes, in the second the one for 7.
abbrev recs : Answer (PubCommon pub_rec_ty)
recs = record { rounds = (PubCommon.v4 3 ∷ []) ∷ []; others = []; ack = PubCommon.v4 7 }

abbrev comps : Answer (PubCommon pub_comp_ty)
comps = record { rounds = []; others = PubCommon.v4 3 ∷ []; ack = PubCommon.v4 7 }

abbrev rels : Answer (PubCommon pub_rel_ty)
rels = record { rounds = []; others = []; ack = PubCommon.v4 5 }

recs-IsFor : IsFor 7 recs
unfolding is_rel packet_id common_rel
recs-IsFor = record { others = tt; rounds = ((refl, tt), tt); mine = refl }

comps-IsFor : IsFor 7 comps
unfolding is_rel packet_id common_rel
comps-IsFor = record { others = (refl, tt); rounds = tt; mine = refl }

rels-IsFor : IsFor 5 rels
unfolding is_rel packet_id common_rel
rels-IsFor = record { others = tt; rounds = tt; mine = refl }

publish_qos2-completes_example :
    obeys
      (publish_qos2_rel 7 9 v4 (begun comps)).0.done
      (obeys (publish_qos2 sent (begun recs)).0.done waiting)
    ≡ record online {
      pool = 1 ∷ 2 ∷ 3 ∷ 7 ∷ [];
      keep_alive_id = 1;
      calls = 1;
      done = arm_keep_alive 1 60 ∷ start_publish_qos2_rel 7 9 v4 ∷ [];
    }
unfolding Unacknowledged.find Unacknowledged.packet_id Unacknowledged.remove_found ring new_hub
publish_qos2-completes_example =
    publish_qos2-completes open_bus-IsOpen sent recs comps waiting (1 ∷ 2 ∷ 3 ∷ 7 ∷ [])
      (omega arith) recs-IsFor comps-IsFor refl refl

-- A publish of quality 1 with the identifier 7, and its acknowledgement in the second attempt.
abbrev posted : TracePublishQos QoS.at_least_once
posted = record {
  protocol = v4;
  id = 9;
  topic = 0x61 ∷ [];
  packet_id = 7;
  payload = [];
  retain = false;
}

abbrev holding_it : World
holding_it = record online {
  hub = record online.hub {
    client_data = Unacknowledged.publish_qos1 posted ∷ Unacknowledged.publish_qos2 trace ∷ [];
  };
}

abbrev acks : Answer (PubCommon pub_ack_ty)
acks = record { rounds = (PubCommon.v4 3 ∷ []) ∷ []; others = []; ack = PubCommon.v4 7 }

acks-IsFor : IsFor 7 acks
unfolding is_rel packet_id common_rel
acks-IsFor = record { others = tt; rounds = ((refl, tt), tt); mine = refl }

publish_qos1-completes_example :
    obeys (publish_qos1 posted (begun acks)).0.done holding_it ≡ record online {
      hub = record online.hub { client_data = Unacknowledged.publish_qos2 trace ∷ [] };
      pool = 1 ∷ 2 ∷ 3 ∷ 7 ∷ [];
      keep_alive_id = 1;
      done = arm_keep_alive 1 60 ∷ [];
    }
unfolding Unacknowledged.find Unacknowledged.packet_id Unacknowledged.remove_found ring new_hub
publish_qos1-completes_example =
    publish_qos1-completes open_bus-IsOpen posted acks holding_it (1 ∷ 2 ∷ 3 ∷ 7 ∷ []) acks-IsFor
      refl refl refl

-- A subscription with the identifier 7, which waits behind the publish, and its acknowledgement.
abbrev asked : TraceSubscribe
asked = record { id = 8; subscribe = Subscribe.v4 7 (0 ∷ 1 ∷ 0x61 ∷ 0 ∷ []) }

abbrev asking : World
asking = record online {
  hub = record online.hub {
    client_data = Unacknowledged.publish_qos2 trace ∷ Unacknowledged.subscribe asked ∷ [];
  };
}

abbrev granted : Answer SubAck
granted = record {
  rounds = (SubAck.v4 3 [] ∷ []) ∷ [];
  others = [];
  ack = SubAck.v4 7 (SubscribeReasonCode.qos1 ∷ []);
}

granted-IsFor : IsFor 7 granted
unfolding sub_ack_rel SubAckPacket.is_rel SubAckPacket.packet_id
granted-IsFor = record { others = tt; rounds = ((refl, tt), tt); mine = refl }

subscribe-completes_example :
    ((subscribe asked (begun granted)).0.done
      ≡ to_user (subscribe_ack_event (record { id = 8; acks = SubscribeReasonCode.qos1 ∷ [] }))
        ∷ to_hub (recover_id 7)
        ∷ to_network (data_of asked.subscribe)
        ∷ to_network (data_of asked.subscribe)
        ∷ [])
    × (obeys (subscribe asked (begun granted)).0.done asking ≡ record online {
      hub = record online.hub { client_data = Unacknowledged.publish_qos2 trace ∷ [] };
      pool = 1 ∷ 2 ∷ 3 ∷ 7 ∷ [];
      keep_alive_id = 1;
      done = arm_keep_alive 1 60 ∷ [];
    })
unfolding SubAckPacket.return_codes SubscribePacket.packet_id Unacknowledged.find
    Unacknowledged.packet_id Unacknowledged.remove_found ring new_hub
subscribe-completes_example =
    subscribe-completes open_bus-IsOpen asked granted asking (1 ∷ 2 ∷ 3 ∷ 7 ∷ []) granted-IsFor refl
      refl

-- The end of a subscription, in version 5.
abbrev given_up : TraceUnubscribe
given_up = record { id = 4; unsubscribe = Unsubscribe.v5 7 [] (0 ∷ 1 ∷ 0x61 ∷ []) }

abbrev giving_up : World
giving_up = record online {
  hub = record online.hub {
    client_data = Unacknowledged.publish_qos2 trace ∷ Unacknowledged.unsubscribe given_up ∷ [];
  };
}

abbrev confirmed : Answer UnsubAck
confirmed = record {
  rounds = [];
  others = UnsubAck.v4 3 ∷ [];
  ack = UnsubAck.v5_read_mode 7 none (UnsubAckReason.no_subscription_existed ∷ []);
}

confirmed-IsFor : IsFor 7 confirmed
unfolding unsub_ack_rel UnsubAckPacket.is_rel UnsubAckPacket.packet_id
confirmed-IsFor = record { others = (refl, tt); rounds = tt; mine = refl }

unsubscribe-completes_example :
    ((unsubscribe given_up (begun confirmed)).0.done
      ≡ to_user (
          unsubscribe_ack_event
            (record { id = 4; acks = UnsubAckReason.no_subscription_existed ∷ [] }))
        ∷ to_hub (recover_id 7)
        ∷ to_network (UnsubscribePacket.data_of given_up.unsubscribe)
        ∷ [])
    × (obeys (unsubscribe given_up (begun confirmed)).0.done giving_up ≡ record online {
      hub = record online.hub { client_data = Unacknowledged.publish_qos2 trace ∷ [] };
      pool = 1 ∷ 2 ∷ 3 ∷ 7 ∷ [];
      keep_alive_id = 1;
      done = arm_keep_alive 1 60 ∷ [];
    })
unfolding unsubscribe_ack UnsubscribePacket.packet_id Unacknowledged.find Unacknowledged.packet_id
    Unacknowledged.remove_found ring new_hub
unsubscribe-completes_example =
    unsubscribe-completes open_bus-IsOpen given_up confirmed giving_up (1 ∷ 2 ∷ 3 ∷ 7 ∷ [])
      confirmed-IsFor refl refl

rx_qos2-completes_example :
    obeys
      (rx_qos2 5 v4 (begun_with rels (receipt ∷ []))).0.done
      (deal_hub_msg (rx_publish exact) online).0
    ≡ record online {
      calls = 2;
      done = tell (publish_event exact) ∷ start_rx_qos2 5 exact.protocol ∷ [];
    }
unfolding new_hub
rx_qos2-completes_example =
    rx_qos2-completes open_bus-IsOpen exact 5 v4 rels online (omega arith) refl refl rels-IsFor

complete-answered_example :
    complete_to_tx_packet {Ack = PubCommon pub_comp_ty} 7
      (new pub_rel_ty 7 v4)
      (record { inputs = receipt ∷ packet (PubCommon.v4 7) ∷ []; calls = 0; done = [] })
    ≡ (
      record { inputs = []; calls = 1; done = to_network (0x62 ∷ 2 ∷ 0 ∷ 7 ∷ []) ∷ [] },
      ok (PubCommon.v4 7),
    )
unfolding is_rel packet_id common_rel common_dup groups
complete-answered_example =
    complete-answered {Ack = PubCommon pub_comp_ty} open_bus-IsOpen 7 (new pub_rel_ty 7 v4)
      (0x62 ∷ 2 ∷ 0 ∷ 7 ∷ []) (0x62 ∷ 2 ∷ 0 ∷ 7 ∷ []) [] [] (PubCommon.v4 7) []
      (record { inputs = []; calls = 0; done = [] }) (data-new pub_rel_ty 7 v4 (omega arith))
      (data-new pub_rel_ty 7 v4 (omega arith)) tt tt refl

-- A packet for another identifier, the end of the time, and the packet for 7.
abbrev late_answer : Exchange (PubCommon pub_comp_ty)
late_answer = record {
  inputs =
      receipt
      ∷ packet (PubCommon.v4 3)
      ∷ elapsed
      ∷ receipt
      ∷ packet (PubCommon.v4 7)
      ∷ elapsed
      ∷ [];
  calls = 0;
  done = [];
}

complete-Ran_example :
    Ran 7
      (0x62 ∷ 2 ∷ 0 ∷ 7 ∷ [])
      (record late_answer { calls = 1; done = to_network (0x62 ∷ 2 ∷ 0 ∷ 7 ∷ []) ∷ [] })
      (complete_to_tx_packet 7 (new pub_rel_ty 7 v4) late_answer)
unfolding common_dup groups open_bus
complete-Ran_example =
    complete-Ran 7 (0x62 ∷ 2 ∷ 0 ∷ 7 ∷ []) (new pub_rel_ty 7 v4) (0x62 ∷ 2 ∷ 0 ∷ 7 ∷ []) late_answer
      (data-new pub_rel_ty 7 v4 (omega arith)) (data-new pub_rel_ty 7 v4 (omega arith))

-- No receipt comes in time, and then the ping is sent and answered in the last attempt.
ping-ends_example : PingEnds 3 (elapsed ∷ receipt_lost ∷ receipt ∷ packet tt ∷ []) [] (
    ping
      (record { inputs = elapsed ∷ receipt_lost ∷ receipt ∷ packet tt ∷ []; calls = 0; done = [] }))
ping-ends_example = ping-ends open_bus-IsOpen (elapsed ∷ receipt_lost ∷ receipt ∷ packet tt ∷ [])
