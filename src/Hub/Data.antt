-- ===== src/Hub/Data.antt =====
-- src/tasks/task_hub/data.rs, and the events of src/tasks/task_network/data.rs that the hub gets.
use for_mqtt_client.Base.{ℕ, Bool, true, false}
use for_mqtt_client.Properties.{Text}
use for_mqtt_client.Packet.Publish.{Publish}
use for_mqtt_client.Packet.Disconnect.{Disconnect}
use for_mqtt_client.Client.Data.{ToConnectError}

pub data HubMsg : Type 0 where
  recover_id : ℕ → HubMsg
  ping_success ping_fail : HubMsg
  keep_alive : ℕ → HubMsg
  rx_publish : Publish → HubMsg
  affirm_rx_id affirm_rx_publish : ℕ → HubMsg

pub data ToDisconnectReason : Type 0 where
  ping_fail_reason : ToDisconnectReason
  network_err : Text → ToDisconnectReason
  client_command : ToDisconnectReason

pub data HubState : Type 0 where
  to_connect connected : HubState
  to_disconnect : ToDisconnectReason → HubState
  disconnected : HubState

abbrev pub is_to_connect : HubState → Bool
is_to_connect to_connect = true
is_to_connect _ = false

abbrev pub is_connected : HubState → Bool
is_connected connected = true
is_connected _ = false

abbrev pub is_disconnected : HubState → Bool
is_disconnected disconnected = true
is_disconnected _ = false

-- The errors, without their texts.
pub data HubError : Type 0 where
  channel_abnormal packet_id_err violence_disconnect_and_drop other : HubError

pub data HubToConnectError : Type 0 where
  connect_channel_abnormal connect_violence_disconnect_and_drop connect_other : HubToConnectError

-- `From<HubToConnectError> for HubError`
abbrev pub from_to_connect : HubToConnectError → HubError
from_to_connect connect_channel_abnormal = channel_abnormal
from_to_connect connect_violence_disconnect_and_drop = violence_disconnect_and_drop
from_to_connect connect_other = other

pub data NetworkEvent : Type 0 where
  network_connected : Bool → NetworkEvent
  connect_fail : ToConnectError → NetworkEvent
  connected_err : Text → NetworkEvent
  broker_disconnect : Disconnect → NetworkEvent
