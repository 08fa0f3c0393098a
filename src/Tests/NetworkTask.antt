-- ===== src/Tests/NetworkTask.antt =====
-- The network task on concrete bytes.
use for_mqtt_client.Bytes.{IsByte}
use for_mqtt_client.Base.{All-append, ℕ, ◌≡◌, refl, List, [], ◌∷◌, ◌++◌, arith, none, false}
use for_mqtt_client.Outcome.{ok, Returns}
use for_mqtt_client.Protocol.{v4, packet_type}
use for_mqtt_client.Options.{tcp}
use for_mqtt_client.Packet.ConnAck.{ConnAck}
use for_mqtt_client.Packet.ConnAck as ConnAckPacket
use for_mqtt_client.Packet.ConnAck.Codes.{
  ConnectReturnCode, ConnectReturnFailCodeV3, fail_v3, connect_return_v3,
}
use for_mqtt_client.Wire.{parse_fixed_header, decode_length, length_loop, read_u8}
use for_mqtt_client.Network.{read_from_network, read_frame, read_packet}
use for_mqtt_client.Packet.Publish.{Publish, len, write, write_id, write_block}
use for_mqtt_client.Wire.{write_mqtt_string, write_mqtt_bytes, write_remaining_length}
use for_mqtt_client.Wire.Utf8.{is_utf8}
use for_mqtt_client.Client.Data.{broker_refuse}
use for_mqtt_client.Hub.Data.{network_connected, connect_fail}
use for_mqtt_client.NetworkTask.Data.{to_connect, connected, command, disconnect}
use for_mqtt_client.NetworkTask.World.{
  Link, Host, from_stream, from_bus, arrived, dispatched, network_event, wrote,
}
use for_mqtt_client.NetworkTask.Receive.{deal_connected_network_packet}
use for_mqtt_client.NetworkTask.Connection.{run_to_connect, run_connected, run_to_end, run}
use for_mqtt_client.NetworkTask.Drains.{Drains, stops}
use for_mqtt_client.NetworkTask.Starts.{run_to_end-Returns}
use for_mqtt_client.NetworkTask.Refinement.{told, events, deal-Drains}
use for_mqtt_client.NetworkTask.Chunks.{arrivals, joined, IsPiece, run_connected-same}
use for_mqtt_client.NetworkTask.Publishes.{
  written, packets, publish_events, IsSent, nothing_left, written-Drains,
}
use for_mqtt_client.NetworkTask.Handshake.{IsFine, IsAnswered, run_to_connect-fine, run-refused}
use for_mqtt_client.NetworkTask.Session.{IsStart, joined_in, left, run-session}
use for_mqtt_client.Tests.Samples.{sample, bytes}

instance unfoldable host : Host
host = record {
  dispatch_error = λ n. none;
  write_error = λ n. none;
  tcp_error = λ addr port. none;
  rustls_error = λ config addr port. none;
}

host-IsFine : IsFine host
unfolding host
host-IsFine = record {
  bus = λ n. refl;
  writes = λ n. refl;
  tcp_connects = λ addr port. refl;
  tls_connects = λ config addr port. refl;
}

abbrev link : Link
link = record {
  task = record {
    id = 0;
    addr = 0x68 ∷ [];
    port = 1883;
    connect_packet = 0x10 ∷ 0 ∷ [];
    state = to_connect;
    version = v4;
    network_protocol = tcp;
  };
  buf = [];
  inputs = [];
  calls = 0;
  done = [];
}

abbrev accepted : ConnAck
accepted = record { session_present = false; code = ConnectReturnCode.success; properties = none }

link-IsAnswered : IsAnswered link (0x20 ∷ 2 ∷ 0 ∷ 0 ∷ []) accepted []
unfolding read_from_network parse_fixed_header decode_length length_loop read_frame packet_type
    read_packet ConnAckPacket.read ConnAckPacket.read_version connect_return_v3 read_u8 bytes
link-IsAnswered = record { something = omega arith; read = refl }

-- The publish of the samples in the version of the connection, its bytes, and two pieces of them.
abbrev plain : Publish
plain = record sample { protocol = v4 }

plain-IsSent : IsSent v4 plain
unfolding len is_utf8
plain-IsSent = record {
  sendable = record {
    id = omega arith;
    text = (omega arith, refl);
    properties = tt;
    fits = omega arith;
  };
  version = refl;
}

abbrev first : List ℕ
first = 0x33 ∷ 8 ∷ 0 ∷ 2 ∷ 0x61 ∷ []

abbrev second : List ℕ
second = 0x62 ∷ 0 ∷ 5 ∷ 1 ∷ 2 ∷ []

abbrev pieces : List (List ℕ)
pieces = first ∷ second ∷ []

abbrev whole : List (List ℕ)
whole = (first ++ second) ∷ []

pieces-written : joined pieces ≡ written (plain ∷ [])
unfolding write write_id write_block write_mqtt_string write_mqtt_bytes write_remaining_length bytes
    len
pieces-written = refl

-- The bytes are bytes.
first-IsPiece : IsPiece first
first-IsPiece =
    (omega arith, (omega arith, (omega arith, (omega arith, (omega arith, (omega arith, tt))))))

second-IsPiece : IsPiece second
second-IsPiece =
    (omega arith, (omega arith, (omega arith, (omega arith, (omega arith, (omega arith, tt))))))

whole-IsPiece : IsPiece (first ++ second)
whole-IsPiece = (omega arith, All-append IsByte first second first-IsPiece.1 second-IsPiece.1)

abbrev joined_link : Link
joined_link = record link { task = record link.task { state = connected } }

one_publish : Drains v4 (joined pieces) (packets (plain ∷ [])) []
one_publish = rw pieces-written (written-Drains v4 (plain ∷ []) (plain-IsSent, tt))

-- The first read: an acknowledgement, and three bytes of the publish behind it.
abbrev greeting : List ℕ
greeting = 0x20 ∷ 2 ∷ 0 ∷ 0 ∷ 0x33 ∷ 8 ∷ 0 ∷ []

abbrev start : List ℕ
start = 0x33 ∷ 8 ∷ 0 ∷ []

link-IsGreeted : IsAnswered link greeting accepted start
unfolding read_from_network parse_fixed_header decode_length length_loop read_frame packet_type
    read_packet ConnAckPacket.read ConnAckPacket.read_version connect_return_v3 read_u8 bytes
link-IsGreeted = record { something = omega arith; read = refl }

start-IsStart : IsStart v4 start
unfolding read_from_network parse_fixed_header decode_length length_loop packet_type
start-IsStart = record {
  bytes = (omega arith, (omega arith, (omega arith, tt)));
  no_packet = stops start _ refl refl;
}

abbrev middle : List ℕ
middle = 2 ∷ 0x61 ∷ []

run-session_example :
    run (record link {
      inputs =
          from_stream (arrived greeting)
          ∷ (arrivals (middle ∷ second ∷ []) ++ (from_bus (command disconnect) ∷ []));
    })
    ≡ left host-IsFine
        (told (publish_events (plain ∷ [])) (joined_in host-IsFine link accepted start))
        []
run-session_example =
    run-session host-IsFine
      (record link {
        inputs =
            from_stream (arrived greeting)
            ∷ (arrivals (middle ∷ second ∷ []) ++ (from_bus (command disconnect) ∷ []));
      })
      greeting start (middle ∷ second ∷ []) [] accepted (plain ∷ []) refl
      (record { something = link-IsGreeted.something; read = link-IsGreeted.read }) refl
      start-IsStart (plain-IsSent, tt)
      ((omega arith, (omega arith, (omega arith, tt))), (second-IsPiece, tt)) pieces-written

run_connected-same_example :
    run_connected (record joined_link { inputs = arrivals pieces })
    ≡ run_connected (record joined_link { inputs = arrivals whole })
run_connected-same_example =
    run_connected-same host-IsFine.bus pieces whole joined_link (packets (plain ∷ [])) [] refl tt
      (first-IsPiece, (second-IsPiece, tt)) (whole-IsPiece, tt) (nothing_left v4) one_publish refl

deal-Drains_example :
    deal_connected_network_packet (record joined_link { buf = joined pieces })
    ≡ (record (told (events (packets (plain ∷ []))) joined_link) { buf = [] }, ok tt)
deal-Drains_example =
    deal-Drains host-IsFine.bus (record joined_link { buf = joined pieces }) (packets (plain ∷ []))
      [] (All-append IsByte first second first-IsPiece.1 second-IsPiece.1) one_publish

run_to_end-Returns_example :
    Returns
      (λ _. Unit {0})
      (run_to_end (record link { inputs = from_stream (arrived first) ∷ [] })).1
run_to_end-Returns_example =
    run_to_end-Returns (record link { inputs = from_stream (arrived first) ∷ [] }) tt
      (first-IsPiece.1, tt)

abbrev denied : ConnAck
denied = record accepted {
  code = ConnectReturnCode.fail (fail_v3 ConnectReturnFailCodeV3.not_authorized);
}

link-IsDenied : IsAnswered link (0x20 ∷ 2 ∷ 0 ∷ 5 ∷ []) denied []
unfolding read_from_network parse_fixed_header decode_length length_loop read_frame packet_type
    read_packet ConnAckPacket.read ConnAckPacket.read_version connect_return_v3 read_u8 bytes
link-IsDenied = record { something = omega arith; read = refl }

run_to_connect-fine_example :
    run_to_connect (record link { inputs = from_stream (arrived (0x20 ∷ 2 ∷ 0 ∷ 0 ∷ [])) ∷ [] }) ≡ (
      record link {
        task = record link.task { state = connected };
        calls = 2;
        done = dispatched (network_event (network_connected false)) ∷ wrote (0x10 ∷ 0 ∷ []) ∷ [];
      },
      ok tt,
    )
run_to_connect-fine_example =
    run_to_connect-fine host-IsFine
      (record link { inputs = from_stream (arrived (0x20 ∷ 2 ∷ 0 ∷ 0 ∷ [])) ∷ [] })
      (0x20 ∷ 2 ∷ 0 ∷ 0 ∷ []) [] accepted [] refl
      (record { something = link-IsAnswered.something; read = link-IsAnswered.read }) refl

run-refused_example :
    run (record link { inputs = from_stream (arrived (0x20 ∷ 2 ∷ 0 ∷ 5 ∷ [])) ∷ [] })
    ≡ record link {
      calls = 2;
      done =
          dispatched (
            network_event
              (connect_fail (broker_refuse (fail_v3 ConnectReturnFailCodeV3.not_authorized))))
          ∷ wrote (0x10 ∷ 0 ∷ [])
          ∷ [];
    }
run-refused_example =
    run-refused host-IsFine
      (record link { inputs = from_stream (arrived (0x20 ∷ 2 ∷ 0 ∷ 5 ∷ [])) ∷ [] })
      (0x20 ∷ 2 ∷ 0 ∷ 5 ∷ []) [] denied [] (fail_v3 ConnectReturnFailCodeV3.not_authorized) refl
      (record { something = link-IsDenied.something; read = link-IsDenied.read }) refl
