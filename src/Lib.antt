-- ===== src/Lib.antt =====
-- A model of the MQTT client of this repository (crate `for-mqtt-client`, versions 3.1.1 and 5 of the
-- protocol): the bytes on the wire, the packets, the interface for the user, the hub task that owns the
-- connection, the network task that owns the stream, and the tasks that send requests.
--
-- The broker's bytes come in through `read_from_network`, which finds the packets in the stream; a
-- network task hands them to the hub and to the tasks that wait for acknowledgements. The user's
-- requests come to the hub as `ClientData`; the hub gives each a packet identifier out of a ring
-- buffer, keeps it until it is acknowledged, and starts a task that sends it.
--
-- - Base, Outcome: the shared names, lists measured by native numbers, maps, and the results of
--   calls: a value, an error, a panic, or a loop of the model that is out of fuel.
-- - Protocol (src/protocol/mod.rs): packet types, property types, errors, the fixed header.
-- - Bytes, Ring: the crates `bytes` and `ringbuf` as parameters, records of operations with their
--   documented laws; Bytes/Model and Ring/Model are lists that keep the laws.
-- - Wire (src/protocol/packet/mod.rs): the variable byte integer, the numbers and the strings.
--   A reader takes the bytes it has and returns its value with the rest; a writer takes the buffer
--   and returns it. Wire/Utf8 is what `String::from_utf8` accepts.
-- - Properties: the loop that every reader of properties is written with. Its fuel is the number of
--   bytes that are left, and each round takes one at least, so it never runs out.
-- - Packet (src/protocol/packet/*.rs, src/traits): one module for each packet.
-- - Options, Tls (src/protocol/mod.rs, src/tls/mod.rs): the settings.
-- - Network (src/protocol/packet/mod.rs): `Packet` and `read_from_network`, which returns the stream
--   with its result. Frames, Verdict, Framing: which bytes a call takes; Totality: it returns;
--   RoundTrip, Acks: it reads back what the writers write.
-- - Client (src/tasks/task_client, src/datas): Data and Traces are the requests and events, Ids the
--   counters, SubscribeBuilder and UnsubscribeBuilder make the packets of a request, Interface is
--   what the user calls. Filters is about the bytes of a subscription, Limits about sizes and counters.
-- - Hub (src/tasks/task_hub): World is the state of the hub with the ring buffer, the static counter
--   of keep-alive checks and the actions so far; a handler is a function of it in a monad with the
--   `?` operator. The bus of the crate `for_event_bus` is a parameter that says which calls find
--   their channel open. Handlers are the methods, Connection is the loop `run`, one turn at a time,
--   with what the turn waits for as its input. Pool, Ownership, Identifiers are about packet
--   identifiers, Delivery, Once, Receive about publishes of the broker, Reconnect about how the
--   connection begins again and how it ends. Frame is what an invariant has to hold through.
-- - Task: the monad of the tasks below, a state with the `?` operator that also says when a task waits
--   for an input that does not come.
-- - NetworkTask (src/tasks/task_network): the task that owns the stream. Data and World are its states,
--   messages, inputs and actions; Receive is the loop that takes packets out of the buffer, on fuel of
--   one more than the bytes in the buffer, since each round but the last takes one at least; Connection
--   is the login and `run`, on fuel of one more than the inputs, since each round takes one, and the
--   loop over the states, which three rounds leave. Termination shows that the fuel is enough,
--   Refinement what the task does as transitions of its states, Publishes, Chunks and Session how it
--   reads what the broker sends behind the acknowledgement, however that is cut, Handshake how it logs in.
-- - Tasks (src/tasks/utils.rs, task_publish, task_subscribe, task_ping): the tasks that send a request
--   and wait for its acknowledgement, and the ping. Their inputs are receipts of the network task,
--   packets and the ends of timers. Answered, AtLeastOnce, ExactlyOnce, Subscribed, Incoming: what
--   they tell the hub when the broker answers; Totality (with Offers) and PingEnds (with PingWays): what
--   they do for all inputs.
-- - Tests: concrete runs.
--
-- Numbers are natural numbers; a field of 16 bits is written modulo 2^16, as the cast does it.
-- Strings are the lists of their bytes. Logging and the sleeps between two attempts to connect are
-- left out. Not modelled: sockets and TLS (src/tls/rustls.rs) and the functions that log in to the bus
-- or spawn a task, which are calls of other crates; the getters of the options, which return a field
-- each; and the enums of src/tasks/task_publish/data.rs and src/tasks/task_subscribe/data.rs, which
-- nothing uses.
pub mod Base
pub mod Outcome
pub mod Protocol
pub mod Bytes
pub mod Wire
pub mod Properties
pub mod Packet
pub mod Options
pub mod Tls
pub mod Network
pub mod Task
pub mod NetworkTask
pub mod Tasks
pub mod Ring
pub mod Client
pub mod Hub
pub mod Tests
