-- ===== src/NetworkTask/World.antt =====
-- What the network task of src/tasks/task_network/mod.rs works on, and the calls that leave it: of the bus,
-- and of the `Stream` of src/tasks/task_network/data.rs.
use for_mqtt_client.Base.{ℕ, suc, ◌≡◌, ◌++◌, Option, none, some, List, ◌∷◌}
use for_mqtt_client.Outcome.{ok}
use for_mqtt_client.Protocol.{Protocol}
use for_mqtt_client.Options.{NetworkProtocol, tcp, tls}
use for_mqtt_client.Tls.{TlsConfig}
use for_mqtt_client.Properties.{Text}
use for_mqtt_client.Packet.PubCommon.{PubCommon, pub_ack_ty, pub_rec_ty, pub_rel_ty, pub_comp_ty}
use for_mqtt_client.Packet.SubAck.{SubAck}
use for_mqtt_client.Packet.UnsubAck.{UnsubAck}
use for_mqtt_client.Client.Data.{ToConnectError}
use for_mqtt_client.Hub.Data.{HubMsg, NetworkEvent}
use for_mqtt_client.Task.{Task, fail, return}
use for_mqtt_client.NetworkTask.Data.{NetworkState, NetworkData, BusError, io_to_connect}

pub record TaskNetwork : Type 0 where
  pub id : ℕ
  pub addr : Text
  pub port : ℕ
  pub connect_packet : List ℕ
  pub state : NetworkState
  pub version : Protocol
  pub network_protocol : NetworkProtocol

-- What `dispatch_event` is called with.
pub data BusEvent : Type 0 where
  hub_msg : HubMsg → BusEvent
  pub_ack : PubCommon pub_ack_ty → BusEvent
  pub_rec : PubCommon pub_rec_ty → BusEvent
  pub_rel : PubCommon pub_rel_ty → BusEvent
  pub_comp : PubCommon pub_comp_ty → BusEvent
  sub_ack : SubAck → BusEvent
  unsub_ack : UnsubAck → BusEvent
  ping_resp : BusEvent
  network_event : NetworkEvent → BusEvent

pub data NetworkAction : Type 0 where
  dispatched : BusEvent → NetworkAction
  wrote : List ℕ → NetworkAction
  receipt : ℕ → NetworkAction

-- What `read_buf` comes to: bytes, none of them at the end of the stream, or an error.
pub data Reading : Type 0 where
  arrived : List ℕ → Reading
  broken : Text → Reading

-- What the task takes next, in the order in which it does.
pub data Input : Type 0 where
  from_stream : Reading → Input
  from_bus : NetworkData → Input
  bus_closed : BusError → Input

-- The task, the buffer of bytes that no packet has taken, the inputs to come, the number of calls of the
-- bus and of the stream so far, and what they have passed on, the latest first.
pub record Link : Type 0 where
  pub task : TaskNetwork
  pub buf : List ℕ
  pub inputs : List Input
  pub calls : ℕ
  pub done : List NetworkAction

-- The crates `for_event_bus`, `tokio` and `tokio_rustls`: the error of a call, by the calls before it, and
-- of a connection.
pub record Host : Type 0 where
  pub dispatch_error : ℕ → Option BusError
  pub write_error : ℕ → Option Text
  pub tcp_error : Text → ℕ → Option Text
  pub rustls_error : TlsConfig → Text → ℕ → Option Text

-- Every call of the bus finds its channel open.
abbrev pub IsOpen : Host → Type 0
IsOpen host = (n : ℕ) → host.dispatch_error n ≡ none

abbrev pub count_call : Link → Link
count_call w = record w { calls = suc w.calls }

abbrev pub note : NetworkAction → Link → Link
note a w = record w { calls = suc w.calls; done = a ∷ w.done }

abbrev pub set_state : {E : Type 0} → NetworkState → Task Link E (Unit {0})
set_state s w = (record w { task = record w.task { state = s } }, ok tt)

abbrev pub set_inputs : {E : Type 0} → List Input → Task Link E (Unit {0})
set_inputs inputs w = (record w { inputs = inputs }, ok tt)

-- `read_buf` appends what it reads.
abbrev pub append_to_buf : {E : Type 0} → List ℕ → Task Link E (Unit {0})
append_to_buf bytes w = (record w { buf = w.buf ++ bytes }, ok tt)

abbrev pub called : {E : Type 0} → NetworkAction → Option E → Task Link E (Unit {0})
called a none w = (note a w, ok tt)
called a (some e) w = fail e (count_call w)

-- `Receipter::done`
unfoldable pub confirm : {E : Type 0} → Option ℕ → Task Link E (Unit {0})
confirm none w = (w, ok tt)
confirm (some n) w = (record w { done = receipt n ∷ w.done }, ok tt)

abbrev pub opened : (Text → ToConnectError) → Option Text → Task Link ToConnectError (Unit {0})
opened g none = return tt
opened g (some msg) = fail (g msg)

module _ ⦃host : Host⦄ where
  unfoldable pub dispatch_event : BusEvent → Task Link BusError (Unit {0})
  dispatch_event e w = called (dispatched e) (host.dispatch_error w.calls) w

  -- `Stream::write_all`
  unfoldable pub write_all : List ℕ → Task Link Text (Unit {0})
  write_all bytes w = called (wrote bytes) (host.write_error w.calls) w

  -- `Stream::init`, without a TLS configuration and with one.
  unfoldable pub stream_init : NetworkProtocol → Text → ℕ → Task Link ToConnectError (Unit {0})
  stream_init tcp addr port = opened io_to_connect (host.tcp_error addr port)
  stream_init (tls config) addr port =
      opened ToConnectError.rustls_connect_error (host.rustls_error config addr port)
