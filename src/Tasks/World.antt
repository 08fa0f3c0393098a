-- ===== src/Tasks/World.antt =====
-- src/tasks/mod.rs, and what the tasks that send a request work on: what they are given, and the calls that
-- leave them. `CommonErr` and the conversions into it are those of src/tasks/utils.rs.
use for_mqtt_client.Base.{ℕ, suc, List, ◌∷◌, if◌then◌else◌}
use for_mqtt_client.Outcome.{Outcome, ok, err, panic, out_of_fuel}
use for_mqtt_client.Wire.{Read}
use for_mqtt_client.Client.Data.{MqttEvent}
use for_mqtt_client.Hub.Data.{HubMsg}
use for_mqtt_client.Hub.World.{EventBus}
use for_mqtt_client.Task.{Stop, Task, ◌>>◌, fail, wait}

pub data CommonErr : Type 0 where
  channel_abnormal : CommonErr

-- What a task that waits for packets of type `Ack` is given next: the receipt of what it has sent, or the
-- receipt's channel closed; a packet, or the bus closed; or the time of a `timeout` is over.
pub data Event (Ack : Type 0) : Type 0 where
  receipt receipt_lost : Event Ack
  packet : Ack → Event Ack
  bus_closed elapsed : Event Ack

pub data TaskAction : Type 0 where
  to_network : List ℕ → TaskAction
  to_hub : HubMsg → TaskAction
  to_user : MqttEvent → TaskAction

-- What is to come, the number of calls of the bus so far, and what it has taken, the latest first.
pub record Exchange (Ack : Type 0) : Type 0 where
  pub inputs : List (Event Ack)
  pub calls : ℕ
  pub done : List TaskAction

-- What a `timeout` comes to.
pub data Timed (E A : Type 0) : Type 0 where
  in_time : A → Timed E A
  in_error : E → Timed E A
  late : Timed E A

module _ {Ack : Type 0} where
  abbrev pub set_inputs : {E : Type 0} → List (Event Ack) → Task (Exchange Ack) E (Unit {0})
  set_inputs inputs w = (record w { inputs = inputs }, ok tt)

  -- The receiver of the receipt. A packet that has come stays where it is.
  abbrev pub receive_receipt : List (Event Ack) → Task (Exchange Ack) CommonErr (Unit {0})
  receive_receipt (receipt ∷ inputs) = set_inputs inputs
  receive_receipt (receipt_lost ∷ inputs) = set_inputs inputs >> fail channel_abnormal
  receive_receipt inputs = wait

  abbrev pub receive_packet : List (Event Ack) → Task (Exchange Ack) CommonErr Ack
  receive_packet (packet p ∷ inputs) w = (record w { inputs = inputs }, ok p)
  receive_packet (bus_closed ∷ inputs) w = fail channel_abnormal (record w { inputs = inputs })
  receive_packet inputs w = wait w

  -- `self.rx.recv()`
  unfoldable pub recv : Task (Exchange Ack) CommonErr Ack
  recv w = receive_packet w.inputs w

  abbrev pub expired :
      {E F A : Type 0}
      → List (Event Ack)
      → Exchange Ack
      → Exchange Ack × Outcome (Stop F) (Timed E A)
  expired (elapsed ∷ inputs) w = (record w { inputs = inputs }, ok late)
  expired inputs w = wait w

  abbrev pub timed :
      {E F A : Type 0}
      → Exchange Ack × Outcome (Stop E) A
      → Exchange Ack × Outcome (Stop F) (Timed E A)
  timed (w, ok a) = (w, ok (in_time a))
  timed (w, err (Stop.failed e)) = (w, ok (in_error e))
  timed (w, err Stop.waits) = expired w.inputs w
  timed (w, panic) = (w, panic)
  timed (w, out_of_fuel) = (w, out_of_fuel)

  -- `tokio::time::timeout`: the time is over only while the task inside waits.
  abbrev pub timeout :
      {E F A : Type 0} → Task (Exchange Ack) E A → Task (Exchange Ack) F (Timed E A)
  timeout m w = timed (m w)

  -- The bytes of a packet; the writers have no errors, only panics.
  abbrev pub bytes_of : {E : Type 0} → Read (List ℕ) → Task (Exchange Ack) E (List ℕ)
  bytes_of (ok bytes) w = (w, ok bytes)
  bytes_of (err e) w = (w, panic)
  bytes_of panic w = (w, panic)
  bytes_of out_of_fuel w = (w, out_of_fuel)

  module _ ⦃bus : EventBus⦄ where
    -- `dispatch_event(…).await?`, whose every error becomes the one of `CommonErr`.
    unfoldable pub dispatch : TaskAction → Task (Exchange Ack) CommonErr (Unit {0})
    dispatch a w =
        if bus.accepts w.calls
        then (record w { calls = suc w.calls; done = a ∷ w.done }, ok tt)
        else (record w { calls = suc w.calls }, err (Stop.failed channel_abnormal))

    -- `Senders::tx_network_default`
    unfoldable pub tx_network_default : List ℕ → Task (Exchange Ack) CommonErr (Unit {0})
    tx_network_default bytes = dispatch (to_network bytes) >> λ w. receive_receipt w.inputs w

    -- `Senders::tx_to_user`, which only logs an error.
    unfoldable pub tx_to_user : {E : Type 0} → MqttEvent → Task (Exchange Ack) E (Unit {0})
    tx_to_user event w = ((dispatch (to_user event) w).0, ok tt)
