-- ===== src/Hub/Frame.antt =====
-- The part of the hub (src/tasks/task_hub/mod.rs) that an invariant shares with every other: what it has to
-- hold through, and that the turns of the connection then keep it.
use for_mqtt_client.Base.{
  ℕ, suc, Bool-cases, inl, inr, Bool, true, false, not, Option, none, some, List, [], ◌∷◌, ◌≡◌,
  refl, if◌then◌else◌, All,
}
use for_mqtt_client.Outcome.{Outcome, ok, err, panic, out_of_fuel}
use for_mqtt_client.Bytes.{BytesCrate}
use for_mqtt_client.Wire.{Read}
use for_mqtt_client.Ring.{RingCrate}
use for_mqtt_client.Client.Data.{
  ClientCommand, ClientData, disconnect_and_drop, violence_disconnect_and_drop, connect_success,
  publish_event,
}
use for_mqtt_client.Hub.Data.{
  HubMsg, HubState, to_connect, connected, to_disconnect, disconnected, ToDisconnectReason,
  is_to_connect, is_connected, HubError, NetworkEvent, network_connected, broker_disconnect,
}
use for_mqtt_client.Hub.Unacknowledged.{
  UnacknowledgedClientData, publish_qos1, publish_qos2, pub_rel, subscribe, unsubscribe,
}
use for_mqtt_client.Hub.World.{
  World, TaskHub, Task, continue_with, ◌>>=◌, ◌>>◌, get_hub, set_state, spawn, call, EventBus,
  init_keep_alive_check, tell, Action,
}
use for_mqtt_client.Hub.Handlers.{
  to_acknowledge, deal_hub_msg, deal_client_data_when_connected, deal_client_command_when_connected,
  reconnect, update_connected_state_by_network_status,
}
use for_mqtt_client.Hub.Connection.{
  Input, attempt, command, network_status, client_data, hub_msg, nothing,
  try_deal_client_command_when_to_connect, try_again, on_status, wait_status, start, resend,
  connect_once, run_to_connect, resend_if_connected, turn_to_connect, after_disconnect,
  turn_to_disconnect, turn_connected, turn_in, turn, run,
}

abbrev pub Keeps : (World → Type 0) → {A : Type 0} → Task A → Type 0
Keeps P m = (w : World) → P w → P (m w).0

-- Whether the action gives a publish to the user.
abbrev pub is_delivery : Action → Bool
is_delivery (tell (publish_event p)) = true
is_delivery _ = false

-- The two results of a call.
pub call_either :
    ⦃bus : EventBus⦄ (P : World → Type 0) (a : Action) (w : World)
    → P (record w { calls = suc w.calls; done = a ∷ w.done })
    → P (record w { calls = suc w.calls })
    → P (call a w).0
unfolding call
call_either ⦃bus⦄ P a w accepted refused = elim (Bool-cases (bus.accepts w.calls)) [
  | inl e ↦ rw e accepted
  | inr e ↦ rw e refused
]

-- What holds through the calls that deliver nothing, and through a change of the state.
pub record Frame ⦃bus : EventBus⦄ (P : World → Type 0) : Type 0 where
  pub calls : (a : Action) → is_delivery a ≡ false → Keeps P (call a)
  pub spawns : (a : Action) → is_delivery a ≡ false → Keeps P (spawn a)
  pub states : (s : HubState) → Keeps P (set_state s)
  pub alarms : Keeps P init_keep_alive_check

module _ (P : World → Type 0) where
  continue-Keeps :
      {A B : Type 0} (f : A → Task B) (r : World × Outcome HubError A)
      → ((a : A) → Keeps P (f a))
      → P r.0
      → P (continue_with f r).0
  continue-Keeps f (w, ok a) k p = k a w p
  continue-Keeps f (w, err e) k p = p
  continue-Keeps f (w, panic) k p = p
  continue-Keeps f (w, out_of_fuel) k p = p

  pub bind-Keeps :
      {A B : Type 0} (m : Task A) (f : A → Task B)
      → Keeps P m
      → ((a : A) → Keeps P (f a))
      → Keeps P (m >>= f)
  bind-Keeps m f hm k w p = continue-Keeps f (m w) k (hm w p)

  pub then-Keeps :
      {A B : Type 0} (m : Task A) (n : Task B) → Keeps P m → Keeps P n → Keeps P (m >> n)
  then-Keeps m n hm hn w p = continue-Keeps (λ _. n) (m w) (λ _. hn) (hm w p)

  pub if-Keeps :
      {A : Type 0} (c : Bool) (m n : Task A) → Keeps P m → Keeps P n → Keeps P (if c then m else n)
  if-Keeps true m n hm hn = hm
  if-Keeps false m n hm hn = hn

module _ ⦃bus : EventBus⦄ {P : World → Type 0} (f : Frame P) where
  pub to_acknowledge-Keeps : (u : UnacknowledgedClientData) → Keeps P (to_acknowledge u)
  unfolding to_acknowledge
  to_acknowledge-Keeps (publish_qos1 packet) = f.calls _ refl
  to_acknowledge-Keeps (publish_qos2 packet) = f.calls _ refl
  to_acknowledge-Keeps (pub_rel id trace protocol) = f.calls _ refl
  to_acknowledge-Keeps (subscribe packet) = f.calls _ refl
  to_acknowledge-Keeps (unsubscribe packet) = f.calls _ refl

  resend-Keeps : (us : List UnacknowledgedClientData) → Keeps P (resend us)
  unfolding resend
  resend-Keeps [] = λ w p. p
  resend-Keeps (u ∷ us) =
      then-Keeps P (to_acknowledge u) (resend us) (to_acknowledge-Keeps u) (resend-Keeps us)

  commands-Keeps : (cs : List ClientCommand) → Keeps P (try_deal_client_command_when_to_connect cs)
  unfolding try_deal_client_command_when_to_connect
  commands-Keeps [] w p = p
  commands-Keeps (disconnect_and_drop ∷ cs) w p = commands-Keeps cs _ (f.states disconnected w p)
  commands-Keeps (violence_disconnect_and_drop ∷ cs) w p = f.states disconnected w p

  try_again-Keeps : (h : TaskHub) → Keeps P (try_again h)
  try_again-Keeps h =
      if-Keeps P h.options.auto_reconnect _ _ (λ w p. p) (λ w p. f.states disconnected w p)

  told_and_again :
      (a : Action) → is_delivery a ≡ false → Keeps P (call a >> (get_hub >>= try_again))
  told_and_again a e =
      then-Keeps P (call a) (get_hub >>= try_again) (f.calls a e) λ w p. try_again-Keeps w.hub w p

  status-Keeps : (s : NetworkEvent) → Keeps P (on_status s)
  status-Keeps (network_connected session_present) = λ w p.
      then-Keeps P init_keep_alive_check (call (tell (connect_success session_present))) f.alarms
        (f.calls _ refl) _ (f.states connected w p)
  status-Keeps (NetworkEvent.connected_err reason) = λ w p. p
  status-Keeps (NetworkEvent.connect_fail reason) = told_and_again _ refl
  status-Keeps (broker_disconnect packet) = told_and_again _ refl

  wait-Keeps : (s : Option NetworkEvent) → Keeps P (wait_status s)
  wait-Keeps none = λ w p. p
  wait-Keeps (some s) = status-Keeps s

  start-Keeps : (r : Read (List ℕ)) (s : Option NetworkEvent) → Keeps P (start r s)
  start-Keeps (ok bytes) s = then-Keeps P (call _) (wait_status s) (f.calls _ refl) (wait-Keeps s)
  start-Keeps (err e) s = λ w p. p
  start-Keeps panic s = λ w p. p
  start-Keeps out_of_fuel s = λ w p. p

  command-Keeps : (c : ClientCommand) → Keeps P (deal_client_command_when_connected c)
  unfolding deal_client_command_when_connected
  command-Keeps disconnect_and_drop = f.states _
  command-Keeps violence_disconnect_and_drop = f.states _

  network-Keeps : (s : NetworkEvent) → Keeps P (update_connected_state_by_network_status s)
  unfolding update_connected_state_by_network_status
  network-Keeps (NetworkEvent.connected_err msg) =
      then-Keeps P (call _) (set_state _) (f.calls _ refl) (f.states _)
  network-Keeps (network_connected session_present) = λ w p. p
  network-Keeps (NetworkEvent.connect_fail reason) = λ w p. p
  network-Keeps (broker_disconnect packet) =
      then-Keeps P (call _) (get_hub >>= λ h. set_state (reconnect h)) (f.calls _ refl)
        λ w p. f.states _ w p

  leave-Keeps : (r : ToDisconnectReason) → Keeps P (turn_to_disconnect r)
  unfolding turn_to_disconnect
  leave-Keeps r =
      then-Keeps P (call _) (get_hub >>= λ h. set_state (after_disconnect r h)) (f.calls _ refl)
        λ w p. f.states _ w p

module _ ⦃b : BytesCrate⦄ ⦃bus : EventBus⦄ {P : World → Type 0} (f : Frame P) where
  once-Keeps : (h : TaskHub) (s : Option NetworkEvent) → Keeps P (connect_once h s)
  once-Keeps h s = if-Keeps P (not (is_to_connect h.state)) _ _ (λ w p. p) (start-Keeps f _ s)

  connect-Keeps :
      (cs : List ClientCommand) (s : Option NetworkEvent) → Keeps P (turn_to_connect cs s)
  unfolding turn_to_connect run_to_connect
  connect-Keeps cs s =
      then-Keeps P (run_to_connect cs s) (get_hub >>= resend_if_connected)
        (then-Keeps P (try_deal_client_command_when_to_connect cs)
          (get_hub >>= λ h. connect_once h s) (commands-Keeps f cs) λ w p. once-Keeps w.hub s w p)
        λ w p.
          if-Keeps P (is_connected w.hub.state) _ _ (resend-Keeps f w.hub.client_data) (λ w p. p) w
            p

-- An input with a message that is allowed.
abbrev pub IsAllowed : (HubMsg → Type 0) → Input → Type 0
IsAllowed Q (hub_msg m) = Q m
IsAllowed Q _ = Unit {0}

module _ ⦃b : BytesCrate⦄ ⦃r : RingCrate⦄ ⦃bus : EventBus⦄ {P : World → Type 0} (f : Frame P)
    (Q : HubMsg → Type 0) (msgs : (m : HubMsg) → Q m → Keeps P (deal_hub_msg m))
    (datas : (d : ClientData) → Keeps P (deal_client_data_when_connected d)) where
  connected-Keeps : (i : Input) → IsAllowed Q i → Keeps P (turn_connected i)
  unfolding turn_connected
  connected-Keeps (command c) q = command-Keeps f c
  connected-Keeps (network_status s) q = network-Keeps f s
  connected-Keeps (client_data d) q = datas d
  connected-Keeps (hub_msg m) q = msgs m q
  connected-Keeps (attempt cs s) q = λ w p. p
  connected-Keeps nothing q = λ w p. p

  in-Keeps : (s : HubState) (i : Input) → IsAllowed Q i → Keeps P (turn_in s i)
  in-Keeps to_connect (attempt cs s) q = connect-Keeps f cs s
  in-Keeps to_connect (hub_msg m) q = λ w p. p
  in-Keeps to_connect _ q = λ w p. p
  in-Keeps connected i q = connected-Keeps i q
  in-Keeps (to_disconnect reason) i q = leave-Keeps f reason
  in-Keeps disconnected i q = λ w p. p

  pub turn-Keeps : (i : Input) (w : World) → IsAllowed Q i → P w → P (turn i w)
  unfolding turn
  turn-Keeps i w q = in-Keeps w.hub.state i q w

  -- An invariant of every message and every request is one of every run.
  pub run-Keeps : (is : List Input) (w : World) → All (IsAllowed Q) is → P w → P (run is w)
  unfolding run
  run-Keeps [] w q p = p
  run-Keeps (i ∷ is) w q p = run-Keeps is (turn i w) q.1 (turn-Keeps i w q.0 p)
