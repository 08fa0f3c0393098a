-- ===== src/NetworkTask/Data.antt =====
-- src/tasks/task_network/data.rs: the states, the messages and the errors of the network task, and how an
-- error becomes another. `ToConnectError` stands with the events of the user, `NetworkEvent` with those
-- of the hub. The texts that an `io::Error` or an error of rustls prints come with the error.
use for_mqtt_client.Base.{ℕ, Bool, true, false, Option, List, [], ◌∷◌}
use for_mqtt_client.Properties.{Text}
use for_mqtt_client.Client.Data.{ToConnectError}

pub data NetworkState : Type 0 where
  to_connect connected to_disconnect disconnected : NetworkState

abbrev pub is_to_disconnected : NetworkState → Bool
is_to_disconnected to_disconnect = true
is_to_disconnected _ = false

abbrev pub is_connected : NetworkState → Bool
is_connected connected = true
is_connected _ = false

pub data HubNetworkCommand : Type 0 where
  disconnect : HubNetworkCommand

-- The number names the channel of the `Receipter`.
pub record DataWaitingToBeSend : Type 0 where
  pub bytes : List ℕ
  pub receipter : Option ℕ

pub data NetworkData : Type 0 where
  command : HubNetworkCommand → NetworkData
  sending : DataWaitingToBeSend → NetworkData

pub data NetworkTasksError : Type 0 where
  network_error : Text → NetworkTasksError
  channel_abnormal hub_command_to_disconnect : NetworkTasksError
  connect_fail : ToConnectError → NetworkTasksError

-- `BusError` of the crate `for_event_bus`, as the source matches on it.
pub data BusError : Type 0 where
  channel_err downcast_err : BusError

-- `From<BusError> for ToConnectError`
unfoldable pub bus_to_connect : BusError → ToConnectError
bus_to_connect channel_err = ToConnectError.channel_abnormal
bus_to_connect downcast_err = ToConnectError.channel_abnormal

-- `From<BusError> for NetworkTasksError`
unfoldable pub bus_to_network : BusError → NetworkTasksError
bus_to_network channel_err = channel_abnormal
bus_to_network downcast_err = channel_abnormal

-- `From<io::Error> for ToConnectError`
unfoldable pub io_to_connect : Text → ToConnectError
io_to_connect msg = ToConnectError.network_error msg

-- `From<io::Error> for NetworkTasksError`
unfoldable pub io_to_network : Text → NetworkTasksError
io_to_network msg = network_error msg

-- `From<ToConnectError> for NetworkTasksError`
unfoldable pub connect_to_network : ToConnectError → NetworkTasksError
connect_to_network e = connect_fail e

-- "TimeOut"
abbrev pub time_out_text : List ℕ
time_out_text = 0x54 ∷ 0x69 ∷ 0x6D ∷ 0x65 ∷ 0x4F ∷ 0x75 ∷ 0x74 ∷ []

-- "read 0 byte from network"
abbrev pub no_bytes_text : List ℕ
no_bytes_text =
    0x72 ∷ 0x65 ∷ 0x61 ∷ 0x64 ∷ 0x20 ∷ 0x30 ∷ 0x20 ∷ 0x62 ∷ 0x79 ∷ 0x74 ∷ 0x65 ∷ 0x20 ∷ 0x66 ∷ 0x72
    ∷ 0x6F ∷ 0x6D ∷ 0x20 ∷ 0x6E ∷ 0x65 ∷ 0x74 ∷ 0x77 ∷ 0x6F ∷ 0x72 ∷ 0x6B ∷ []
