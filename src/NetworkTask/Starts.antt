-- ===== src/NetworkTask/Starts.antt =====
-- `_run` of src/tasks/task_network/mod.rs from its beginning: the connection is made or not, in a number of
-- steps that the inputs bound.
use for_mqtt_client.Base.{
  ℕ, ◌≡◌, refl, inl, inr, Option-cases, Bool, true, Option, none, some, List, [], ◌∷◌, ◌++◌, All,
  All-append,
}
use for_mqtt_client.Outcome.{
  Outcome, ok, err, panic, out_of_fuel, Returns, returns_ok, returns_err, is_answer,
  Returns-of_answer,
}
use for_mqtt_client.Bytes.{BytesCrate, IsByte}
use for_mqtt_client.Wire.{Read}
use for_mqtt_client.Options.{NetworkProtocol, tcp, tls}
use for_mqtt_client.Properties.{Text}
use for_mqtt_client.Packet.ConnAck.Codes.{ConnectReturnCode}
use for_mqtt_client.Network.{Packet, connect_packet, conn_ack_packet}
use for_mqtt_client.Network.Totality.{read_from_network-Returns}
use for_mqtt_client.Hub.Data.{network_connected}
use for_mqtt_client.Client.Data.{ToConnectError}
use for_mqtt_client.Task.{Stop, Task, continue_with, convert, converting, ◌>>◌}
use for_mqtt_client.NetworkTask.Data.{
  NetworkTasksError, connected, bus_to_connect, io_to_connect, connect_to_network,
}
use for_mqtt_client.NetworkTask.World.{
  Link, Host, Input, from_stream, from_bus, bus_closed, arrived, broken, BusEvent, dispatch_event,
  write_all, stream_init, set_state, network_event,
}
use for_mqtt_client.NetworkTask.Connection.{
  found, take_packet, or_again, first_packet, check_code, check_conn_ack, connect_to_broker,
  run_to_connect, state_loop, run_to_end,
}
use for_mqtt_client.NetworkTask.Termination.{rest-bytes}
use for_mqtt_client.NetworkTask.Ends.{HasBytes, state_loop_answers}

-- The call comes back, and all that the task has of the stream is bytes.
record IsSafe {E A : Type 0} (x : Link × Outcome (Stop E) A) : Type 0 where
  bytes : All IsByte x.0.buf
  inputs : All HasBytes x.0.inputs
  answers : is_answer x.1 ≡ true

abbrev AreSafe : {E A : Type 0} → Task Link E A → Type 0
AreSafe m = (w : Link) → All IsByte w.buf → All HasBytes w.inputs → IsSafe (m w)

safe :
    {E A : Type 0} {w : Link} {r : Outcome (Stop E) A}
    → All IsByte w.buf
    → All HasBytes w.inputs
    → is_answer r ≡ true
    → IsSafe (w, r)
safe hb hi h = record { bytes = hb; inputs = hi; answers = h }

IsSafe-bind :
    {E A B : Type 0} (f : A → Task Link E B) (x : Link × Outcome (Stop E) A)
    → IsSafe x
    → ((a : A) → AreSafe (f a))
    → IsSafe (continue_with f x)
IsSafe-bind f (w, ok a) h k = k a w h.bytes h.inputs
IsSafe-bind f (w, err e) h k = safe h.bytes h.inputs refl
IsSafe-bind f (w, panic) h k = safe h.bytes h.inputs h.answers
IsSafe-bind f (w, out_of_fuel) h k = safe h.bytes h.inputs h.answers

convert_answers :
    {E F A : Type 0} (g : E → F) (r : Outcome (Stop E) A)
    → is_answer r ≡ true
    → is_answer (convert g r) ≡ true
convert_answers g (ok a) h = refl
convert_answers g (err (Stop.failed e)) h = refl
convert_answers g (err Stop.waits) h = refl
convert_answers g panic h = h
convert_answers g out_of_fuel h = h

AreSafe-converting :
    {E F A : Type 0} (g : E → F) (m : Task Link E A) → AreSafe m → AreSafe (converting g m)
AreSafe-converting g m h w hb hi =
    let k = h w hb hi in
    record { bytes = k.bytes; inputs = k.inputs; answers = convert_answers g (m w).1 k.answers }

module _ ⦃host : Host⦄ ⦃b : BytesCrate⦄ where
  write_all-AreSafe : (bytes : List ℕ) → AreSafe (write_all bytes)
  unfolding write_all
  write_all-AreSafe bytes w hb hi = elim (Option-cases (host.write_error w.calls)) [
    | inl fine ↦ rw fine (safe hb hi refl)
    | inr (e, wrong) ↦ rw wrong (safe hb hi refl)
  ]

  dispatch-AreSafe : (e : BusEvent) → AreSafe (dispatch_event e)
  unfolding dispatch_event
  dispatch-AreSafe e w hb hi = elim (Option-cases (host.dispatch_error w.calls)) [
    | inl fine ↦ rw fine (safe hb hi refl)
    | inr (x, wrong) ↦ rw wrong (safe hb hi refl)
  ]

  stream_init-AreSafe :
      (p : NetworkProtocol) (addr : Text) (port : ℕ) → AreSafe (stream_init p addr port)
  unfolding stream_init
  stream_init-AreSafe tcp addr port w hb hi = elim (Option-cases (host.tcp_error addr port)) [
    | inl fine ↦ rw fine (safe hb hi refl)
    | inr (x, wrong) ↦ rw wrong (safe hb hi refl)
  ]
  stream_init-AreSafe (tls config) addr port w hb hi =
      elim (Option-cases (host.rustls_error config addr port)) [
        | inl fine ↦ rw fine (safe hb hi refl)
        | inr (x, wrong) ↦ rw wrong (safe hb hi refl)
      ]

  found-IsSafe :
      (r : Read (Option Packet)) (w : Link)
      → Returns (λ _. Unit {0}) r
      → All IsByte w.buf
      → All HasBytes w.inputs
      → IsSafe (found r w)
  unfolding found
  found-IsSafe _ w (returns_ok p) hb hi = safe hb hi refl
  found-IsSafe _ w returns_err hb hi = safe hb hi refl

  take_packet-AreSafe : AreSafe take_packet
  take_packet-AreSafe w hb hi =
      found-IsSafe _ _ (read_from_network-Returns w.buf w.task.version hb) (rest-bytes w hb) hi

  or_again-AreSafe :
      (again : Task Link ToConnectError Packet) (o : Option Packet)
      → AreSafe again
      → AreSafe (or_again again o)
  or_again-AreSafe again none h w hb hi = h w hb hi
  or_again-AreSafe again (some p) h w hb hi = safe hb hi refl

  first_packet-AreSafe : (inputs : List Input) → All HasBytes inputs → AreSafe (first_packet inputs)
  unfolding first_packet io_to_connect
  first_packet-AreSafe [] h w hb hi = safe hb hi refl
  first_packet-AreSafe (from_stream (arrived []) ∷ inputs) h w hb hi = safe hb h.1 refl
  first_packet-AreSafe (from_stream (arrived (x ∷ bytes)) ∷ inputs) h w hb hi =
      IsSafe-bind (or_again (first_packet inputs)) _
        (take_packet-AreSafe (record w { buf = w.buf ++ (x ∷ bytes); inputs = inputs })
          (All-append IsByte w.buf (x ∷ bytes) hb h.0) h.1)
        λ o. or_again-AreSafe (first_packet inputs) o (first_packet-AreSafe inputs h.1)
  first_packet-AreSafe (from_stream (broken msg) ∷ inputs) h w hb hi = safe hb h.1 refl
  first_packet-AreSafe (from_bus m ∷ inputs) h w hb hi = safe hb hi refl
  first_packet-AreSafe (bus_closed e ∷ inputs) h w hb hi = safe hb hi refl

  check_code-AreSafe : (s : Bool) (c : ConnectReturnCode) → AreSafe (check_code s c)
  unfolding check_code
  check_code-AreSafe s ConnectReturnCode.success w hb hi = safe hb hi refl
  check_code-AreSafe s (ConnectReturnCode.fail c) w hb hi = safe hb hi refl

  check_conn_ack-AreSafe : (p : Packet) → AreSafe (check_conn_ack p)
  unfolding check_conn_ack
  check_conn_ack-AreSafe (conn_ack_packet ack) w hb hi =
      check_code-AreSafe ack.session_present ack.code w hb hi
  check_conn_ack-AreSafe (connect_packet p) w hb hi = safe hb hi refl
  check_conn_ack-AreSafe _ w hb hi = safe hb hi refl

  connect_to_broker-AreSafe : AreSafe connect_to_broker
  unfolding connect_to_broker
  connect_to_broker-AreSafe w hb hi =
      IsSafe-bind check_conn_ack _
        (IsSafe-bind (λ _. first_packet w.inputs) _
          (AreSafe-converting io_to_connect (write_all w.task.connect_packet)
            (write_all-AreSafe w.task.connect_packet) w hb hi)
          λ _. first_packet-AreSafe w.inputs hi)
        check_conn_ack-AreSafe

  -- The bus is told, and the state is set.
  announce-AreSafe :
      (session_present : Bool)
      → AreSafe (
          converting bus_to_connect
            (dispatch_event (network_event (network_connected session_present)))
          >> set_state connected)
  announce-AreSafe session_present w hb hi =
      IsSafe-bind (λ _. set_state connected) _
        (AreSafe-converting bus_to_connect
          (dispatch_event (network_event (network_connected session_present)))
          (dispatch-AreSafe (network_event (network_connected session_present))) w hb hi)
        λ _ x hx hy. safe hx hy refl

  run_to_connect-AreSafe : AreSafe run_to_connect
  unfolding run_to_connect
  run_to_connect-AreSafe w hb hi =
      IsSafe-bind
        (λ session_present.
          converting bus_to_connect
            (dispatch_event (network_event (network_connected session_present)))
          >> set_state connected)
        _
        (IsSafe-bind (λ _. connect_to_broker) _
          (stream_init-AreSafe w.task.network_protocol w.task.addr w.task.port w hb hi)
          λ _. connect_to_broker-AreSafe)
        announce-AreSafe

  started_answers :
      (x : Link × Outcome (Stop NetworkTasksError) (Unit {0}))
      → IsSafe x
      → is_answer (continue_with (λ _. state_loop 3) x).1 ≡ true
  started_answers (w, ok a) h = state_loop_answers w h.inputs h.bytes
  started_answers (w, err e) h = refl
  started_answers (w, panic) h = h.answers
  started_answers (w, out_of_fuel) h = h.answers

  -- From any state, with any bytes, messages and failing calls: the task ends or waits for its next
  -- input, and neither panics nor goes round for ever. The three rounds that the model of the loop
  -- of `_run` has are enough.
  pub run_to_end-Returns :
      (w : Link)
      → All IsByte w.buf
      → All HasBytes w.inputs
      → Returns (λ _. Unit {0}) (run_to_end w).1
  unfolding run_to_end
  run_to_end-Returns w hb hi = Returns-of_answer _ (
      started_answers _
        (AreSafe-converting connect_to_network run_to_connect run_to_connect-AreSafe w hb hi))
