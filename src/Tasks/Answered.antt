-- ===== src/Tasks/Answered.antt =====
-- What `complete_to_tx_packet` of src/tasks/utils.rs sends until its acknowledgement comes.
use for_mqtt_client.Base.{
  ℕ, zero, suc, ◌≤◌, ◌<◌, ◌≡◌, refl, true, false, List, [], ◌∷◌, length, All, Option, none, some,
  arith,
}
use for_mqtt_client.Outcome.{ok}
use for_mqtt_client.Hub.World.{EventBus}
use for_mqtt_client.Tasks.World.{
  Event, receipt, packet, elapsed, Exchange, TaskAction, to_network, dispatch, tx_network_default,
}
use for_mqtt_client.Tasks.Complete.{
  PacketRel, PacketDup, relevant, timeout_rx, again, attempts, complete_to_tx_packet,
}

-- Every call of the bus finds its channel open.
abbrev pub IsOpen : EventBus → Type 0
IsOpen bus = (n : ℕ) → bus.accepts n ≡ true

module _ {Ack : Type 0} where
  abbrev pub heard : List Ack → List (Event Ack) → List (Event Ack)
  heard [] tail = tail
  heard (a ∷ acks) tail = packet a ∷ heard acks tail

  -- For each list, the packets that come in an attempt whose time goes by, and the receipt of the next.
  abbrev pub unanswered : List (List Ack) → List (Event Ack) → List (Event Ack)
  unanswered [] tail = tail
  unanswered (acks ∷ rounds) tail = heard acks (elapsed ∷ receipt ∷ unanswered rounds tail)

  -- The calls, and the bytes that were sent again, once for each of these attempts.
  abbrev pub called_again : List (List Ack) → ℕ → ℕ
  called_again [] n = n
  called_again (acks ∷ rounds) n = called_again rounds (suc n)

  abbrev pub sent_again : List (List Ack) → List ℕ → List TaskAction → List TaskAction
  sent_again [] bytes actions = actions
  sent_again (acks ∷ rounds) bytes actions = sent_again rounds bytes (to_network bytes ∷ actions)

  -- The packets are for others.
  abbrev pub AreOthers : ⦃rel : PacketRel Ack⦄ → ℕ → List Ack → Type 0
  AreOthers ⦃rel⦄ id acks = All (λ a. rel.is_rel a id ≡ false) acks

  length-heard :
      (acks : List Ack) (tail : List (Event Ack)) → length tail ≤ length (heard acks tail)
  length-heard [] tail = omega arith
  length-heard (a ∷ acks) tail = omega (arith, length-heard acks tail)

  length-unanswered :
      (rounds : List (List Ack)) (tail : List (Event Ack))
      → length rounds ≤ length (unanswered rounds tail)
  length-unanswered [] tail = omega arith
  length-unanswered (acks ∷ rounds) tail = omega (
    arith,
    length-heard acks (elapsed ∷ receipt ∷ unanswered rounds tail),
    length-unanswered rounds tail,
  )

  module _ ⦃rel : PacketRel Ack⦄ ⦃bus : EventBus⦄ (open_bus : IsOpen bus) where
    relevant-heard :
        (acks : List Ack) (tail : List (Event Ack)) (id : ℕ) (w : Exchange Ack)
        → AreOthers id acks
        → relevant (heard acks tail) id (record w { inputs = heard acks tail })
          ≡ relevant tail id (record w { inputs = tail })
    unfolding relevant
    relevant-heard [] tail id w h = refl
    relevant-heard (a ∷ acks) tail id w h = rw h.0 (relevant-heard acks tail id w h.1)

    sends :
        (bytes : List ℕ) (tail : List (Event Ack)) (w : Exchange Ack)
        → tx_network_default bytes (record w { inputs = receipt ∷ tail }) ≡ (
          record w { inputs = tail; calls = suc w.calls; done = to_network bytes ∷ w.done },
          ok tt,
        )
    unfolding tx_network_default dispatch
    sends bytes tail w = rw (open_bus w.calls) refl

    module _ {T : Type 0} ⦃dup : PacketDup T⦄ (id : ℕ) (request : T) (bytes : List ℕ) where
      attempts-answered :
          (rounds : List (List Ack)) (others : List Ack) (ack : Ack) (rest : List (Event Ack))
          (n : ℕ) (cached : Option (List ℕ)) (w : Exchange Ack)
          → length rounds < n
          → ((x : Exchange Ack) → again cached request x ≡ (x, ok bytes))
          → All (AreOthers id) rounds
          → AreOthers id others
          → rel.is_rel ack id ≡ true
          → attempts n id cached request
              (record w { inputs = unanswered rounds (heard others (packet ack ∷ rest)) })
            ≡ (
              record w {
                inputs = rest;
                calls = called_again rounds w.calls;
                done = sent_again rounds bytes w.done;
              },
              ok ack,
            )
      unfolding attempts timeout_rx relevant
      attempts-answered rounds others ack rest zero cached w h made hr ho mine =
          absurd (omega (arith, h))
      attempts-answered [] others ack rest (suc n) cached w h made hr ho mine =
          rw (relevant-heard others (packet ack ∷ rest) id w ho, mine) refl
      attempts-answered (acks ∷ rounds) others ack rest (suc n) cached w h made hr ho mine =
          let tail = unanswered rounds (heard others (packet ack ∷ rest)) in
          let again_sent : Exchange Ack = record w {
            calls = suc w.calls;
            done = to_network bytes ∷ w.done;
          } in
          rw
            (
              relevant-heard acks (elapsed ∷ receipt ∷ tail) id w hr.0,
              made (record w { inputs = receipt ∷ tail }),
              sends bytes tail w,
            )
            (attempts-answered rounds others ack rest n (some bytes) again_sent (omega (arith, h))
              (λ x. refl) hr.1 ho mine)

      -- The bus takes every call, the receipts come, and after some attempts whose time goes by
      -- with packets for others, and perhaps some more of these, the packet `ack` for this
      -- identifier comes. Then it is what `complete_to_tx_packet` returns; the packet was sent
      -- once, and its duplicate once for each of these attempts; and what comes later has not been
      -- taken.
      pub complete-answered :
          (first : List ℕ) (rounds : List (List Ack)) (others : List Ack) (ack : Ack)
          (rest : List (Event Ack)) (w : Exchange Ack)
          → dup.data_of request ≡ ok first
          → dup.dup_data request ≡ ok bytes
          → All (AreOthers id) rounds
          → AreOthers id others
          → rel.is_rel ack id ≡ true
          → complete_to_tx_packet id request
              (record w { inputs = receipt ∷ unanswered rounds (heard others (packet ack ∷ rest)) })
            ≡ (
              record w {
                inputs = rest;
                calls = called_again rounds (suc w.calls);
                done = sent_again rounds bytes (to_network first ∷ w.done);
              },
              ok ack,
            )
      unfolding complete_to_tx_packet
      complete-answered first rounds others ack rest w made remade hr ho mine =
          let tail = unanswered rounds (heard others (packet ack ∷ rest)) in
          let sent : Exchange Ack = record w {
            calls = suc w.calls;
            done = to_network first ∷ w.done;
          } in
          rw (made, sends first tail w)
            (attempts-answered rounds others ack rest (suc (length tail)) none sent
              (omega (arith, length-unanswered rounds (heard others (packet ack ∷ rest))))
              (λ x. rw remade refl) hr ho mine)
