-- ===== src/Hub/World.antt =====
-- What the hub of src/tasks/task_hub/mod.rs works on, and the calls that leave it. Handlers are written in
-- a monad of the state and of the `?` operator.
use for_mqtt_client.Base.{ℕ, suc, ◌+◌, ◌^◌, ◌%◌, Bool, List, ◌∷◌, if◌then◌else◌}
use for_mqtt_client.Outcome.{Outcome, ok, err, panic, out_of_fuel}
use for_mqtt_client.Protocol.{Protocol}
use for_mqtt_client.Options.{MqttOptions}
use for_mqtt_client.Packet.Qos.{QoS}
use for_mqtt_client.Packet.Publish.{Publish}
use for_mqtt_client.Client.Traces.{TracePublishQos, TraceSubscribe, TraceUnubscribe}
use for_mqtt_client.Client.Data.{MqttEvent}
use for_mqtt_client.Hub.Data.{HubState, HubError, channel_abnormal}
use for_mqtt_client.Hub.Unacknowledged.{UnacknowledgedClientData}

pub record TaskHub : Type 0 where
  pub protocol : Protocol
  pub options : MqttOptions
  pub state : HubState
  pub rx_publish : List (ℕ × Publish)
  pub rx_publish_id : List (ℕ × ℕ)
  pub client_data : List UnacknowledgedClientData

-- What the hub starts or tells others: an event for the user, the command to the network task, a task
-- (`TaskX::init`, which logs in to the bus and spawns), or the timer of `init_keep_alive_check`.
pub data Action : Type 0 where
  tell : MqttEvent → Action
  command_disconnect : Action
  start_publish_qos0 : TracePublishQos QoS.at_most_once → Action
  start_publish_qos1 : TracePublishQos QoS.at_least_once → Action
  start_publish_qos2 : TracePublishQos QoS.exactly_once → Action
  start_publish_qos2_rel : ℕ → ℕ → Protocol → Action
  start_subscribe : TraceSubscribe → Action
  start_unsubscribe : TraceUnubscribe → Action
  start_rx_qos1 start_rx_qos2 : ℕ → Protocol → Action
  start_ping : Action
  start_network : List ℕ → Action
  arm_keep_alive : ℕ → ℕ → Action

-- The hub, the ring buffer of identifiers, the static `KEEP_ALIVE_ID`, the number of calls of the bus so
-- far, and the actions that were carried out, the latest first.
pub record World : Type 0 where
  pub hub : TaskHub
  pub pool : List ℕ
  pub keep_alive_id : ℕ
  pub calls : ℕ
  pub done : List Action

-- The crate `for_event_bus`: whether a call of the bus finds its channel open, by the calls before it.
pub record EventBus : Type 0 where
  pub accepts : ℕ → Bool

abbrev pub Task : Type 0 → Type 0
Task A = World → World × Outcome HubError A

abbrev pub continue_with :
    {A B : Type 0} → (A → Task B) → World × Outcome HubError A → World × Outcome HubError B
continue_with f (w, ok a) = f a w
continue_with f (w, err e) = (w, err e)
continue_with f (w, panic) = (w, panic)
continue_with f (w, out_of_fuel) = (w, out_of_fuel)

-- The `?` operator.
infixl 5 ◌>>=◌
abbrev pub ◌>>=◌ : {A B : Type 0} → Task A → (A → Task B) → Task B
(m >>= f) w = continue_with f (m w)

infixl 5 ◌>>◌
abbrev pub ◌>>◌ : {A B : Type 0} → Task A → Task B → Task B
(m >> n) w = continue_with (λ _. n) (m w)

abbrev pub return : {A : Type 0} → A → Task A
return a w = (w, ok a)

abbrev pub fail : {A : Type 0} → HubError → Task A
fail e w = (w, err e)

abbrev pub get_hub : Task TaskHub
get_hub w = (w, ok w.hub)

abbrev pub set_hub : TaskHub → Task (Unit {0})
set_hub h w = (record w { hub = h }, ok tt)

abbrev pub set_state : HubState → Task (Unit {0})
set_state s w = (record w { hub = record w.hub { state = s } }, ok tt)

-- A call that cannot fail, such as `spawn`.
unfoldable pub spawn : Action → Task (Unit {0})
spawn a w = (record w { done = a ∷ w.done }, ok tt)

module _ ⦃bus : EventBus⦄ where
  -- A call of the bus, with `?`.
  unfoldable pub call : Action → Task (Unit {0})
  call a w =
      if bus.accepts w.calls
      then (record w { calls = suc w.calls; done = a ∷ w.done }, ok tt)
      else (record w { calls = suc w.calls }, err channel_abnormal)

-- `init_keep_alive_check`, with `KeepAliveTime::default`.
unfoldable pub init_keep_alive_check : Task (Unit {0})
unfolding spawn
init_keep_alive_check w =
    let id = (w.keep_alive_id + 1) % 2 ^ 32 in
    spawn (arm_keep_alive id w.hub.options.keep_alive) (record w { keep_alive_id = id })
