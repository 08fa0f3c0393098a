-- ===== src/NetworkTask/Handshake.antt =====
-- How the network task of src/tasks/task_network/mod.rs makes a connection, or does not.
use for_mqtt_client.Base.{
  ℕ, suc, ◌<◌, ◌≡◌, refl, ap, none, some, List, [], ◌∷◌, ◌++◌, length, arith,
}
use for_mqtt_client.Outcome.{ok}
use for_mqtt_client.Bytes.{BytesCrate}
use for_mqtt_client.Options.{NetworkProtocol, tcp, tls}
use for_mqtt_client.Tls.{TlsConfig}
use for_mqtt_client.Properties.{Text}
use for_mqtt_client.Packet.ConnAck.{ConnAck}
use for_mqtt_client.Packet.ConnAck.Codes.{ConnectReturnCode, ConnectReturnFailCode}
use for_mqtt_client.Network.{conn_ack_packet, read_from_network}
use for_mqtt_client.Client.Data.{ToConnectError, broker_refuse}
use for_mqtt_client.Hub.Data.{network_connected, connect_fail}
use for_mqtt_client.Task.{Stop}
use for_mqtt_client.NetworkTask.Data.{connected, connect_to_network}
use for_mqtt_client.NetworkTask.World.{
  Link, Host, IsOpen, Input, from_stream, arrived, wrote, dispatched, network_event, note,
  dispatch_event, write_all, stream_init,
}
use for_mqtt_client.NetworkTask.Connection.{
  found, first_packet, check_code, check_conn_ack, connect_to_broker, run_to_connect, run_to_end,
  report, run,
}
use for_mqtt_client.NetworkTask.Refinement.{dispatch-open}

-- No call fails.
pub record IsFine (host : Host) : Type 0 where
  pub bus : IsOpen host
  pub writes : (n : ℕ) → host.write_error n ≡ none
  pub tcp_connects : (addr : Text) (port : ℕ) → host.tcp_error addr port ≡ none
  pub tls_connects :
      (config : TlsConfig) (addr : Text) (port : ℕ) → host.rustls_error config addr port ≡ none

module _ ⦃b : BytesCrate⦄ where
  -- What the broker has sent is the acknowledgement `ack`, and then the bytes `rest`.
  pub record IsAnswered (w : Link) (s : List ℕ) (ack : ConnAck) (rest : List ℕ) : Type 0 where
    pub something : 0 < length s
    pub read :
        read_from_network (w.buf ++ s) w.task.version ≡ (rest, ok (some (conn_ack_packet ack)))

  module _ ⦃host : Host⦄ (fine : IsFine host) where
    stream_init-fine :
        (p : NetworkProtocol) (addr : Text) (port : ℕ) (w : Link)
        → stream_init p addr port w ≡ (w, ok tt)
    unfolding stream_init
    stream_init-fine tcp addr port w = rw (fine.tcp_connects addr port)
    stream_init-fine (tls config) addr port w = rw (fine.tls_connects config addr port)

    -- The task behind the first packet.
    abbrev answered : Link → List Input → List ℕ → Link
    answered w inputs rest = record w {
      buf = rest;
      inputs = inputs;
      calls = suc w.calls;
      done = wrote w.task.connect_packet ∷ w.done;
    }

    connect_to_broker-fine :
        (w : Link) (s : List ℕ) (inputs : List Input) (ack : ConnAck) (rest : List ℕ)
        → w.inputs ≡ from_stream (arrived s) ∷ inputs
        → IsAnswered w s ack rest
        → connect_to_broker w ≡ check_code ack.session_present ack.code (answered w inputs rest)
    unfolding connect_to_broker write_all first_packet check_conn_ack found
    connect_to_broker-fine w [] inputs ack rest e a = absurd (omega (arith, a.something))
    connect_to_broker-fine w (x ∷ s) inputs ack rest e a = rw (fine.writes w.calls, e, a.read) refl

    -- The connection is made: if no call fails and the first bytes of the stream hold an
    -- acknowledgement of success, the connect packet has been written, the hub is told once whether
    -- there is a session, and the task is connected. Bytes that came behind the acknowledgement
    -- stay in the buffer.
    pub run_to_connect-fine :
        (w : Link) (s : List ℕ) (inputs : List Input) (ack : ConnAck) (rest : List ℕ)
        → w.inputs ≡ from_stream (arrived s) ∷ inputs
        → IsAnswered w s ack rest
        → ack.code ≡ ConnectReturnCode.success
        → run_to_connect w ≡ (
          record w {
            task = record w.task { state = connected };
            buf = rest;
            inputs = inputs;
            calls = suc (suc w.calls);
            done =
                dispatched (network_event (network_connected ack.session_present))
                ∷ wrote w.task.connect_packet
                ∷ w.done;
          },
          ok tt,
        )
    unfolding run_to_connect check_code dispatch_event
    run_to_connect-fine w s inputs ack rest e a success =
        rw
          (
            stream_init-fine w.task.network_protocol w.task.addr w.task.port w,
            connect_to_broker-fine w s inputs ack rest e a,
            success,
            fine.bus (suc w.calls),
          )
          refl

    report-fine :
        (e : ToConnectError) (w : Link)
        → report (Stop.failed (connect_to_network e)) w
          ≡ note (dispatched (network_event (connect_fail e))) w
    unfolding report connect_to_network
    report-fine e w = ap (λ x. x.0) (dispatch-open fine.bus (network_event (connect_fail e)) w)

    -- The connection is refused: if no call fails and the first bytes of the stream hold an
    -- acknowledgement with a code of failure, the task ends, and the hub is told this code, once
    -- and nothing else.
    pub run-refused :
        (w : Link) (s : List ℕ) (inputs : List Input) (ack : ConnAck) (rest : List ℕ)
        (code : ConnectReturnFailCode)
        → w.inputs ≡ from_stream (arrived s) ∷ inputs
        → IsAnswered w s ack rest
        → ack.code ≡ ConnectReturnCode.fail code
        → run w ≡ record w {
          buf = rest;
          inputs = inputs;
          calls = suc (suc w.calls);
          done =
              dispatched (network_event (connect_fail (broker_refuse code)))
              ∷ wrote w.task.connect_packet
              ∷ w.done;
        }
    unfolding run run_to_end run_to_connect check_code dispatch_event report connect_to_network
    run-refused w s inputs ack rest code e a refused =
        rw
          (
            stream_init-fine w.task.network_protocol w.task.addr w.task.port w,
            connect_to_broker-fine w s inputs ack rest e a,
            refused,
          )
          (report-fine (broker_refuse code) (answered w inputs rest))
