-- ===== src/Tasks/PingEnds.antt =====
-- What the ping task of src/tasks/task_ping/mod.rs sends and tells the hub, whatever it is given.
use for_mqtt_client.Base.{ℕ, zero, suc, ◌≡◌, refl, List, [], ◌∷◌, arith}
use for_mqtt_client.Outcome.{ok}
use for_mqtt_client.Bytes.{BytesCrate}
use for_mqtt_client.Packet.Ping.{ping_req}
use for_mqtt_client.Hub.Data.{ping_success, ping_fail}
use for_mqtt_client.Hub.World.{EventBus}
use for_mqtt_client.Task.{Task, continue_with, ◌>>=◌, ◌>>◌}
use for_mqtt_client.Tasks.World.{
  CommonErr, Event, receipt, receipt_lost, packet, bus_closed, elapsed, Exchange, TaskAction,
  to_network, to_hub, timed, receive_receipt, recv, dispatch, tx_network_default,
}
use for_mqtt_client.Tasks.Ping.{
  PingResp, on_sent, last_failed, send_ping, wait_for_resp, unless_done, ping,
}
use for_mqtt_client.Tasks.Answered.{IsOpen}
use for_mqtt_client.Tasks.PingWays.{
  Heard, heard, silence, pending, PingEnds, not_sent, waits_for_receipt, missed, unsent, sent,
}

module _ ⦃b : BytesCrate⦄ where
  module _ ⦃bus : EventBus⦄ (open_bus : IsOpen bus) where
    takes :
        (a : TaskAction) (w : Exchange PingResp)
        → dispatch a w ≡ (record w { calls = suc w.calls; done = a ∷ w.done }, ok tt)
    unfolding dispatch
    takes a w = rw (open_bus w.calls) refl

    abbrev rest_of_ping : ℕ → Task (Exchange PingResp) CommonErr (Unit {0})
    rest_of_ping left = wait_for_resp left >>= unless_done

    waits-Heard :
        (n : ℕ) (inputs : List (Event PingResp)) (w : Exchange PingResp)
        → Heard n inputs w.done (rest_of_ping n (record w { inputs = inputs }))
    unfolding wait_for_resp recv
    waits-Heard zero inputs w =
        rw (takes (to_hub ping_fail) (record w { inputs = inputs }))
          (silence [] inputs _ tt refl refl refl)
    waits-Heard (suc n) [] w = pending [] [] _ tt (omega arith) refl tt refl
    waits-Heard (suc n) (receipt ∷ inputs) w =
        pending [] (receipt ∷ inputs) _ tt (omega arith) refl tt refl
    waits-Heard (suc n) (receipt_lost ∷ inputs) w =
        pending [] (receipt_lost ∷ inputs) _ tt (omega arith) refl tt refl
    waits-Heard (suc n) (packet p ∷ inputs) w =
        rw (takes (to_hub ping_success) (record w { inputs = inputs }))
          (heard [] inputs p _ tt (omega arith) refl refl)
    waits-Heard (suc n) (bus_closed ∷ inputs) w = missed bus_closed tt (waits-Heard n inputs w)
    waits-Heard (suc n) (elapsed ∷ inputs) w = missed elapsed tt (waits-Heard n inputs w)

    -- The task from its next attempt to send, or behind its last.
    abbrev attempts_left : ℕ → Task (Exchange PingResp) CommonErr (Unit {0})
    attempts_left n w = continue_with rest_of_ping ((last_failed n >> send_ping n) w)

    abbrev pinged : Exchange PingResp → Exchange PingResp
    pinged w = record w { calls = suc w.calls; done = to_network ping_req ∷ w.done }

    -- Behind the call of the bus: the receipt, or what comes instead of it.
    attempted :
        (n : ℕ) (inputs : List (Event PingResp)) (w : Exchange PingResp)
        → ((rest : List (Event PingResp)) (y : Exchange PingResp)
            → PingEnds n rest y.done (attempts_left n (record y { inputs = rest })))
        → PingEnds (suc n) inputs w.done (
            continue_with rest_of_ping (
              continue_with
                (on_sent n (last_failed n >> send_ping n))
                (timed (receive_receipt inputs (record (pinged w) { inputs = inputs })))))
    attempted n [] w next = waits_for_receipt [] [] _ tt (omega arith) refl tt refl
    attempted n (receipt ∷ inputs) w next = sent (waits-Heard (suc n) inputs (pinged w))
    attempted n (receipt_lost ∷ inputs) w next = unsent receipt_lost tt (next inputs (pinged w))
    attempted n (packet p ∷ inputs) w next =
        waits_for_receipt [] (packet p ∷ inputs) _ tt (omega arith) refl tt refl
    attempted n (bus_closed ∷ inputs) w next =
        waits_for_receipt [] (bus_closed ∷ inputs) _ tt (omega arith) refl tt refl
    attempted n (elapsed ∷ inputs) w next = unsent elapsed tt (next inputs (pinged w))

    attempts-PingEnds :
        (n : ℕ) (inputs : List (Event PingResp)) (w : Exchange PingResp)
        → PingEnds n inputs w.done (attempts_left n (record w { inputs = inputs }))
    unfolding send_ping wait_for_resp tx_network_default
    attempts-PingEnds zero inputs w =
        let told : Exchange PingResp = record w {
          inputs = inputs;
          calls = suc w.calls;
          done = to_hub ping_fail ∷ w.done;
        } in
        rw (takes (to_hub ping_fail) (record w { inputs = inputs }), takes (to_hub ping_fail) told)
          (not_sent [] inputs _ tt refl refl refl)
    attempts-PingEnds (suc n) inputs w =
        rw (takes (to_network ping_req) (record w { inputs = inputs }))
          (attempted n inputs w λ rest y. attempts-PingEnds n rest y)

    -- Where every call of the bus succeeds, for all inputs of a ping task. It sends the ping once
    -- more for each failed attempt (a lost receipt, or the end of the time), three times at most.
    -- If a receipt comes, it has what is left of the three attempts for the response, and each
    -- fails if the time is over or the bus is closed: if the response comes first, it tells the hub
    -- once that it has come, and if all fail, once that it has not. If no attempt to send succeeds,
    -- it tells the hub twice that no response has come. Else it waits, where the next input is none
    -- that would end its attempt.
    pub ping-ends :
        (inputs : List (Event PingResp))
        → PingEnds 3 inputs [] (ping (record { inputs = inputs; calls = 0; done = [] }))
    unfolding ping
    ping-ends inputs = attempts-PingEnds 3 inputs (record { inputs = inputs; calls = 0; done = [] })
