-- ===== src/NetworkTask/Publishes.antt =====
-- From `Publish::write` of src/protocol/packet/publish.rs to the message that the hub gets from the network
-- task of src/tasks/task_network/mod.rs.
use for_mqtt_client.Base.{ℕ, ◌≡◌, refl, ap, ◌∙◌, true, List, [], ◌∷◌, ◌++◌, All}
use for_mqtt_client.Outcome.{err}
use for_mqtt_client.Protocol.{Protocol, insufficient_bytes}
use for_mqtt_client.Bytes.{BytesCrate}
use for_mqtt_client.Wire.{parse_fixed_header}
use for_mqtt_client.Packet.Publish.{Publish}
use for_mqtt_client.Packet.Publish as PublishPacket
use for_mqtt_client.Packet.Publish.RoundTrip.{IsSendable}
use for_mqtt_client.Network.{Packet, publish_packet, read_from_network}
use for_mqtt_client.Network.RoundTrip.{publish_round_trip}
use for_mqtt_client.Hub.Data.{rx_publish}
use for_mqtt_client.Task.{waits}
use for_mqtt_client.NetworkTask.Data.{is_connected}
use for_mqtt_client.NetworkTask.World.{Link, Host, IsOpen, BusEvent, hub_msg}
use for_mqtt_client.NetworkTask.Connection.{run_connected}
use for_mqtt_client.NetworkTask.Drains.{Drains, stops, takes}
use for_mqtt_client.NetworkTask.Refinement.{told, events}
use for_mqtt_client.NetworkTask.Chunks.{arrivals, joined, IsPiece, run_connected-Drains}

abbrev pub packets : List Publish → List Packet
packets [] = []
packets (p ∷ ps) = publish_packet p ∷ packets ps

-- What the hub is told of some publishes.
abbrev pub publish_events : List Publish → List BusEvent
publish_events [] = []
publish_events (p ∷ ps) = hub_msg (rx_publish p) ∷ publish_events ps

pub events-packets : (ps : List Publish) → events (packets ps) ≡ publish_events ps
events-packets [] = refl
events-packets (p ∷ ps) = ap (λ es. hub_msg (rx_publish p) ∷ es) (events-packets ps)

module _ ⦃b : BytesCrate⦄ where
  -- The bytes of some publishes, one behind the other.
  abbrev pub written : List Publish → List ℕ
  written [] = []
  written (p ∷ ps) = (PublishPacket.write p []).0 ++ written ps

  -- What a broker may send in version `v`.
  pub record IsSent (v : Protocol) (p : Publish) : Type 0 where
    pub sendable : IsSendable p
    pub version : p.protocol ≡ v

  pub nothing_left : (v : Protocol) → Drains v [] [] []
  unfolding read_from_network parse_fixed_header
  nothing_left v = stops [] (err (insufficient_bytes 2)) refl refl

  pub written-Drains :
      (v : Protocol) (ps : List Publish) → All (IsSent v) ps → Drains v (written ps) (packets ps) []
  written-Drains v [] h = nothing_left v
  written-Drains v (p ∷ ps) h =
      takes (written (p ∷ ps)) (written ps) (publish_packet p) (packets ps) []
        (rw (← h.0.version) (publish_round_trip p (written ps) h.0.sendable))
        (written-Drains v ps h.1)

  module _ ⦃host : Host⦄ (open_bus : IsOpen host) where
    -- Publishes as in the round trip, of the version of the connection, written one behind the other and cut
    -- into pieces anyhow, come to the hub as `RxPublish`, each once and in their order, if the task is
    -- connected, its buffer is empty and the bus is open; then the buffer is empty again.
    pub publishes_arrive :
        (ps : List Publish) (cs : List (List ℕ)) (w : Link)
        → is_connected w.task.state ≡ true
        → w.buf ≡ []
        → All (IsSent w.task.version) ps
        → All IsPiece cs
        → joined cs ≡ written ps
        → run_connected (record w { inputs = arrivals cs })
          ≡ (record (told (publish_events ps) w) { buf = []; inputs = [] }, err waits)
    publishes_arrive ps cs w on empty hp hc e =
        run_connected-Drains open_bus cs w (packets ps) [] on (rw empty tt) hc
          (rw empty (nothing_left w.task.version))
          (rw (empty, e) (written-Drains w.task.version ps hp))
        ∙ rw (events-packets ps) refl
