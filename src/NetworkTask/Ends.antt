-- ===== src/NetworkTask/Ends.antt =====
-- `_run` of src/tasks/task_network/mod.rs comes to an end, whatever it is given.
use for_mqtt_client.Base.{
  ℕ, suc, ◌≡◌, refl, sym, ap, inl, inr, Option-cases, Bool-cases, Bool, true, false, not, List, [],
  ◌∷◌, ◌++◌, All, All-append,
}
use for_mqtt_client.Outcome.{Outcome, ok, err, panic, out_of_fuel, is_answer}
use for_mqtt_client.Bytes.{BytesCrate, IsByte}
use for_mqtt_client.Task.{Stop, Task, continue_with, wait, ◌>>◌}
use for_mqtt_client.NetworkTask.Data.{
  NetworkState, to_connect, connected, to_disconnect, disconnected, is_connected, NetworkTasksError,
  io_to_network, bus_to_network, BusError, channel_err, downcast_err, DataWaitingToBeSend,
  disconnect, command, sending,
}
use for_mqtt_client.NetworkTask.World.{
  Link, Host, Input, from_stream, from_bus, bus_closed, set_inputs, arrived, broken, write_all,
  confirm,
}
use for_mqtt_client.NetworkTask.Connection.{
  deal_inner_msg, deal_network_data, deal_hub_network_command, on_reading, on_input,
  while_connected, select_loop, run_connected, run_to_disconnected, after_connected, by_state,
  state_loop,
}
use for_mqtt_client.NetworkTask.Termination.{Keeps, deal-Keeps}

-- The stream gives bytes.
abbrev pub HasBytes : Input → Type 0
HasBytes (from_stream (arrived bytes)) = All IsByte bytes
HasBytes _ = Unit

-- The task has left the state `Connected`, where the loop of `_run` goes on.
abbrev pub leaves : Link × Outcome (Stop NetworkTasksError) (Unit {0}) → Bool
leaves (w, ok a) = not (is_connected w.task.state)
leaves (w, err (Stop.failed NetworkTasksError.hub_command_to_disconnect)) =
    not (is_connected w.task.state)
leaves (w, err e) = true
leaves (w, panic) = false
leaves (w, out_of_fuel) = false

off_of : (b : Bool) → not b ≡ true → b ≡ false
off_of true h = sym h
off_of false h = refl

module _ ⦃host : Host⦄ ⦃b : BytesCrate⦄ where
  -- An input dealt with: the loop goes on with the same state and with bytes, or it ends.
  data IsDealt (state : NetworkState)
      : Link × Outcome (Stop NetworkTasksError) (Unit {0}) → Type 0 where
    goes_on_with : (y : Link) → y.task.state ≡ state → All IsByte y.buf → IsDealt state (y, ok tt)
    ends_with :
        (y : Link) (e : Stop NetworkTasksError)
        → leaves (y, err e) ≡ true
        → IsDealt state (y, err e)

  Keeps-IsDealt :
      (w : Link) (x : Link × Outcome (Stop NetworkTasksError) (Unit {0}))
      → Keeps w x
      → IsDealt w.task.state x
  Keeps-IsDealt w (y, ok a) k = goes_on_with y (ap (λ t. t.state) k.task) k.bytes
  Keeps-IsDealt w (y, err (Stop.failed NetworkTasksError.hub_command_to_disconnect)) k =
      let no : false ≡ true = k.on in cc
  Keeps-IsDealt w (y, err (Stop.failed (NetworkTasksError.network_error msg))) k =
      ends_with y _ refl
  Keeps-IsDealt w (y, err (Stop.failed NetworkTasksError.channel_abnormal)) k = ends_with y _ refl
  Keeps-IsDealt w (y, err (Stop.failed (NetworkTasksError.connect_fail e))) k = ends_with y _ refl
  Keeps-IsDealt w (y, err Stop.waits) k = ends_with y _ refl
  Keeps-IsDealt w (y, panic) k = let no : false ≡ true = k.on in cc
  Keeps-IsDealt w (y, out_of_fuel) k = let no : false ≡ true = k.on in cc

  deal_inner_msg-IsDealt :
      (msg : DataWaitingToBeSend) (w : Link)
      → All IsByte w.buf
      → IsDealt w.task.state (deal_inner_msg msg w)
  unfolding deal_inner_msg write_all confirm io_to_network
  deal_inner_msg-IsDealt msg w hb = elim (Option-cases (host.write_error w.calls)) [
    | inr (e, wrong) ↦ rw wrong (ends_with _ _ refl)
    | inl fine ↦ elim (Option-cases msg.receipter) [
      | inl no_receipt ↦ rw (fine, no_receipt) (goes_on_with _ refl hb)
      | inr (n, wanted) ↦ rw (fine, wanted) (goes_on_with _ refl hb)
    ]
  ]

  bus_closed-IsDealt : (e : BusError) (w : Link) → IsDealt w.task.state (on_input (bus_closed e) w)
  unfolding on_input bus_to_network
  bus_closed-IsDealt channel_err w = ends_with w _ refl
  bus_closed-IsDealt downcast_err w = ends_with w _ refl

  on_input-IsDealt :
      (i : Input) (w : Link) → HasBytes i → All IsByte w.buf → IsDealt w.task.state (on_input i w)
  unfolding on_input on_reading deal_network_data deal_hub_network_command io_to_network
  on_input-IsDealt (from_stream (arrived [])) w hi hb = ends_with w _ refl
  on_input-IsDealt (from_stream (arrived (x ∷ bytes))) w hi hb =
      Keeps-IsDealt (record w { buf = w.buf ++ (x ∷ bytes) }) _
        (deal-Keeps (record w { buf = w.buf ++ (x ∷ bytes) })
          (All-append IsByte w.buf (x ∷ bytes) hb hi))
  on_input-IsDealt (from_stream (broken msg)) w hi hb = ends_with w _ refl
  on_input-IsDealt (from_bus (command disconnect)) w hi hb = ends_with _ _ refl
  on_input-IsDealt (from_bus (sending msg)) w hi hb = deal_inner_msg-IsDealt msg w hb
  on_input-IsDealt (bus_closed e) w hi hb = bus_closed-IsDealt e w

  dealt_leaves :
      {state : NetworkState} (next : Task Link NetworkTasksError (Unit {0}))
      (x : Link × Outcome (Stop NetworkTasksError) (Unit {0}))
      → IsDealt state x
      → ((y : Link) → All IsByte y.buf → leaves (next y) ≡ true)
      → leaves (continue_with (λ _. next) x) ≡ true
  dealt_leaves next x (goes_on_with y same bytes) go = go y bytes
  dealt_leaves next x (ends_with y e h) go = h

  while_connected-leaves :
      (m : Task Link NetworkTasksError (Unit {0})) (w : Link)
      → leaves (m w) ≡ true
      → leaves (while_connected m w) ≡ true
  while_connected-leaves m w h = elim (Bool-cases (is_connected w.task.state)) [
    | inl on ↦ rw (while_connected, on) h
    | inr off ↦ rw (while_connected, off, off) refl
  ]

  select_loop-leaves :
      (inputs : List Input) (w : Link)
      → All HasBytes inputs
      → All IsByte w.buf
      → leaves (select_loop inputs w) ≡ true
  unfolding select_loop
  select_loop-leaves [] w hi hb = while_connected-leaves wait w refl
  select_loop-leaves (i ∷ inputs) w hi hb =
      while_connected-leaves (set_inputs inputs >> on_input i >> select_loop inputs) w (
        dealt_leaves (select_loop inputs) (on_input i (record w { inputs = inputs }))
          (on_input-IsDealt i (record w { inputs = inputs }) hi.0 hb)
          λ y bytes. select_loop-leaves inputs y hi.1 bytes)

  -- Out of the state `Connected`, two rounds are enough.
  idle_answers :
      (n : ℕ) (state : NetworkState) (w : Link)
      → is_connected state ≡ false
      → is_answer (by_state (state_loop (suc n)) state w).1 ≡ true
  unfolding state_loop run_to_disconnected write_all
  idle_answers n to_connect w off = refl
  idle_answers n connected w off = let no : true ≡ false = off in cc
  idle_answers n disconnected w off = refl
  idle_answers n to_disconnect w off = elim (Option-cases (host.write_error w.calls)) [
    | inl fine ↦ rw fine refl
    | inr (e, wrong) ↦ rw wrong refl
  ]

  after_connected_answers :
      (x : Link × Outcome (Stop NetworkTasksError) (Unit {0}))
      → leaves x ≡ true
      → is_answer (after_connected (state_loop 2) x).1 ≡ true
  unfolding state_loop
  after_connected_answers (w, ok a) h = idle_answers 0 w.task.state w (off_of _ h)
  after_connected_answers (w, err (Stop.failed NetworkTasksError.hub_command_to_disconnect)) h =
      idle_answers 0 w.task.state w (off_of _ h)
  after_connected_answers (w, err (Stop.failed (NetworkTasksError.network_error msg))) h = refl
  after_connected_answers (w, err (Stop.failed NetworkTasksError.channel_abnormal)) h = refl
  after_connected_answers (w, err (Stop.failed (NetworkTasksError.connect_fail e))) h = refl
  after_connected_answers (w, err Stop.waits) h = refl
  after_connected_answers (w, panic) h = h
  after_connected_answers (w, out_of_fuel) h = h

  by_state_answers :
      (state : NetworkState) (w : Link)
      → All HasBytes w.inputs
      → All IsByte w.buf
      → is_answer (by_state (state_loop 2) state w).1 ≡ true
  unfolding run_connected
  by_state_answers connected w hi hb =
      after_connected_answers (run_connected w) (select_loop-leaves w.inputs w hi hb)
  by_state_answers to_connect w hi hb = idle_answers 1 to_connect w refl
  by_state_answers to_disconnect w hi hb = idle_answers 1 to_disconnect w refl
  by_state_answers disconnected w hi hb = idle_answers 1 disconnected w refl

  pub state_loop_answers :
      (w : Link) → All HasBytes w.inputs → All IsByte w.buf → is_answer (state_loop 3 w).1 ≡ true
  unfolding state_loop
  state_loop_answers w hi hb = by_state_answers w.task.state w hi hb
