-- ===== src/Tasks/Totality.antt =====
-- What `complete_to_tx_packet` of src/tasks/utils.rs takes, sends and returns, whatever it is given and
-- whichever calls of the bus fail.
use for_mqtt_client.Base.{
  ℕ, zero, suc, ◌≤◌, ◌<◌, ◌≡◌, refl, inl, inr, Bool-cases, List, [], ◌∷◌, length, Option, none,
  some, arith,
}
use for_mqtt_client.Outcome.{ok}
use for_mqtt_client.Hub.World.{EventBus}
use for_mqtt_client.Task.{Task, continue_with, ◌>>=◌, ◌>>◌}
use for_mqtt_client.Tasks.World.{
  CommonErr, Event, receipt, receipt_lost, packet, bus_closed, elapsed, Exchange, to_network, timed,
  receive_receipt, dispatch, tx_network_default,
}
use for_mqtt_client.Tasks.Complete.{
  PacketRel, PacketDup, relevant, timeout_rx, again, acknowledged, attempts, complete_to_tx_packet,
}
use for_mqtt_client.Tasks.Offers.{offered, Ran, still, passed, timed_out, answered}

module _ {Ack : Type 0} ⦃rel : PacketRel Ack⦄ ⦃bus : EventBus⦄ (id : ℕ) (bytes : List ℕ) where
  -- The receipt of what was offered, and then `rest`, known for no more inputs than these.
  receives :
      (rest : Task (Exchange Ack) CommonErr Ack) (inputs : List (Event Ack)) (w : Exchange Ack)
      → ((x : Exchange Ack) → length x.inputs ≤ length inputs → Ran id bytes x (rest x))
      → Ran id bytes
          (record w { inputs = inputs })
          (continue_with (λ _. rest) (receive_receipt inputs (record w { inputs = inputs })))
  receives rest [] w next = still id bytes _ _
  receives rest (receipt ∷ inputs) w next =
      let x : Exchange Ack = record w { inputs = inputs } in
      passed id bytes receipt x tt (next x (omega arith))
  receives rest (receipt_lost ∷ inputs) w next =
      passed id bytes receipt_lost (record w { inputs = inputs }) tt (still id bytes _ _)
  receives rest (packet p ∷ inputs) w next = still id bytes _ _
  receives rest (bus_closed ∷ inputs) w next = still id bytes _ _
  receives rest (elapsed ∷ inputs) w next = still id bytes _ _

  -- An offer, its receipt, and then `rest`.
  sends :
      (sent : List ℕ) (rest : Task (Exchange Ack) CommonErr Ack) (w : Exchange Ack)
      → ((x : Exchange Ack) → length x.inputs ≤ length w.inputs → Ran id bytes x (rest x))
      → Ran id bytes
          (record w { calls = suc w.calls; done = offered w.calls sent w.done })
          (continue_with (λ _. rest) (tx_network_default sent w))
  unfolding tx_network_default dispatch
  sends sent rest w next = elim (Bool-cases (bus.accepts w.calls)) [
    | inl accepted ↦ rw accepted (
        receives rest w.inputs (record w { calls = suc w.calls; done = to_network sent ∷ w.done })
          next)
    | inr refused ↦ rw refused (still id bytes _ (record w { calls = suc w.calls }))
  ]

  -- An attempt, and what follows if its time goes by.
  attempt :
      (retry : Task (Exchange Ack) CommonErr Ack) (inputs : List (Event Ack)) (w : Exchange Ack)
      → ((x : Exchange Ack)
          → length x.inputs < length inputs
          → Ran id bytes (record x { inputs = elapsed ∷ x.inputs }) (retry x))
      → Ran id bytes
          (record w { inputs = inputs })
          (continue_with
            (acknowledged retry)
            (timed (relevant inputs id (record w { inputs = inputs }))))
  unfolding relevant
  attempt retry [] w next = still id bytes _ _
  attempt retry (packet p ∷ inputs) w next = elim (Bool-cases (rel.is_rel p id)) [
    | inl mine ↦ rw mine (answered id bytes p (record w { inputs = inputs }) mine)
    | inr other ↦ rw other (
        passed id bytes (packet p) (record w { inputs = inputs }) other
          (attempt retry inputs w λ x h. next x (omega (arith, h))))
  ]
  attempt retry (bus_closed ∷ inputs) w next =
      passed id bytes bus_closed (record w { inputs = inputs }) tt (still id bytes _ _)
  attempt retry (receipt ∷ inputs) w next = still id bytes _ _
  attempt retry (receipt_lost ∷ inputs) w next = still id bytes _ _
  attempt retry (elapsed ∷ inputs) w next = next (record w { inputs = inputs }) (omega arith)

  module _ {T : Type 0} ⦃dup : PacketDup T⦄ (request : T) where
    attempts-Ran :
        (n : ℕ) (cached : Option (List ℕ)) (w : Exchange Ack)
        → length w.inputs < n
        → ((x : Exchange Ack) → again cached request x ≡ (x, ok bytes))
        → Ran id bytes w (attempts n id cached request w)
    unfolding attempts timeout_rx
    attempts-Ran zero cached w h made = absurd (omega (arith, h))
    attempts-Ran (suc n) cached w h made =
        attempt
          (again cached request >>= λ bytes.
            tx_network_default bytes >> attempts n id (some bytes) request)
          w.inputs w
          λ x fewer. timed_out id bytes x (
            rw (made x) (
              sends bytes (attempts n id (some bytes) request) x
                λ y most. attempts-Ran n (some bytes) y (omega (arith, h, fewer, most)) λ z. refl))

    -- Whatever comes and whichever calls of the bus fail, if the packet and its duplicate are
    -- written without a panic: `complete_to_tx_packet` takes some events off the front of its
    -- inputs, offers the packet to the bus once, then the duplicate once for each time-out among
    -- these events, and does nothing else. It comes back with a packet, an error or a wait, and
    -- without a panic; a packet is the first one for this identifier among these events, and if
    -- there is such a packet, it is what comes back.
    pub complete-Ran :
        (first : List ℕ) (w : Exchange Ack)
        → dup.data_of request ≡ ok first
        → dup.dup_data request ≡ ok bytes
        → Ran id bytes
            (record w { calls = suc w.calls; done = offered w.calls first w.done })
            (complete_to_tx_packet id request w)
    unfolding complete_to_tx_packet
    complete-Ran first w made remade = rw made (
        sends first (λ y. attempts (suc (length y.inputs)) id none request y) w
          λ y most. attempts-Ran (suc (length y.inputs)) none y (omega arith) λ x. rw remade refl)
