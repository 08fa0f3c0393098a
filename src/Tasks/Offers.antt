-- ===== src/Tasks/Offers.antt =====
-- What a task that sends a request again and again (`complete_to_tx_packet` of src/tasks/utils.rs) takes, offers
-- to the bus and returns.
use for_mqtt_client.Base.{
  ℕ, zero, suc, ◌+◌, ◌≡◌, refl, ap, true, false, List, [], ◌∷◌, ◌++◌, Option, none, some,
  if◌then◌else◌, arith,
}
use for_mqtt_client.Outcome.{Outcome, ok, err}
use for_mqtt_client.Hub.World.{EventBus}
use for_mqtt_client.Task.{Stop}
use for_mqtt_client.Tasks.World.{
  CommonErr, Event, receipt, receipt_lost, packet, bus_closed, elapsed, Exchange, TaskAction,
  to_network,
}
use for_mqtt_client.Tasks.Complete.{PacketRel}

-- How often the time of an attempt has gone by.
abbrev pub time_outs : {Ack : Type 0} → List (Event Ack) → ℕ
time_outs [] = 0
time_outs (elapsed ∷ taken) = suc (time_outs taken)
time_outs (_ ∷ taken) = time_outs taken

-- The first packet for the identifier.
abbrev pub answer_in : {Ack : Type 0} ⦃rel : PacketRel Ack⦄ → ℕ → List (Event Ack) → Option Ack
answer_in id [] = none
answer_in ⦃rel⦄ id (packet p ∷ taken) =
    let later = answer_in id taken in if rel.is_rel p id then some p else later
answer_in id (_ ∷ taken) = answer_in id taken

-- The bytes in call number `call` of the bus, which may refuse them.
abbrev pub offered : ⦃bus : EventBus⦄ → ℕ → List ℕ → List TaskAction → List TaskAction
offered ⦃bus⦄ call bytes done = if bus.accepts call then to_network bytes ∷ done else done

-- And in the `n` calls from there on.
abbrev pub offered_again : ⦃bus : EventBus⦄ → ℕ → ℕ → List ℕ → List TaskAction → List TaskAction
offered_again zero call bytes done = done
offered_again (suc n) call bytes done = offered_again n (suc call) bytes (offered call bytes done)

module _ {Ack : Type 0} ⦃rel : PacketRel Ack⦄ where
  -- The packet of a value, none for an error or a wait; a panic and a loop without fuel have neither.
  abbrev pub returned : Outcome (Stop CommonErr) Ack → Option (Option Ack)
  returned (ok ack) = some (some ack)
  returned (err e) = some none
  returned _ = none

  module _ ⦃bus : EventBus⦄ where
    -- From `w` on, `bytes` were offered to the bus once for each time-out, and nothing else was done.
    pub record Ran (id : ℕ) (bytes : List ℕ) (w : Exchange Ack)
        (y : Exchange Ack × Outcome (Stop CommonErr) Ack) : Type 0 where
      pub taken : List (Event Ack)
      pub inputs : w.inputs ≡ taken ++ y.0.inputs
      pub calls : y.0.calls ≡ time_outs taken + w.calls
      pub done : y.0.done ≡ offered_again (time_outs taken) w.calls bytes w.done
      pub result : returned y.1 ≡ some (answer_in id taken)

    module _ (id : ℕ) (bytes : List ℕ) where
      -- What passes without a change of the state.
      abbrev pub Passes : Event Ack → Type 0
      Passes (packet p) = rel.is_rel p id ≡ false
      Passes elapsed = ⊥
      Passes _ = Unit

      pub still : (e : Stop CommonErr) (w : Exchange Ack) → Ran id bytes w (w, err e)
      still e w = record {
        taken = [];
        inputs = refl;
        calls = omega arith;
        done = refl;
        result = refl;
      }

      -- The same with one more event in front, which changes nothing else.
      pub passed :
          (e : Event Ack) (x : Exchange Ack) {y : Exchange Ack × Outcome (Stop CommonErr) Ack}
          → Passes e
          → Ran id bytes x y
          → Ran id bytes (record x { inputs = e ∷ x.inputs }) y
      passed (packet p) x h k = record {
        taken = packet p ∷ k.taken;
        inputs = ap (λ l. packet p ∷ l) k.inputs;
        calls = k.calls;
        done = k.done;
        result = rw h k.result;
      }
      passed receipt x h k = record {
        taken = receipt ∷ k.taken;
        inputs = ap (λ l. receipt ∷ l) k.inputs;
        calls = k.calls;
        done = k.done;
        result = k.result;
      }
      passed receipt_lost x h k = record {
        taken = receipt_lost ∷ k.taken;
        inputs = ap (λ l. receipt_lost ∷ l) k.inputs;
        calls = k.calls;
        done = k.done;
        result = k.result;
      }
      passed bus_closed x h k = record {
        taken = bus_closed ∷ k.taken;
        inputs = ap (λ l. bus_closed ∷ l) k.inputs;
        calls = k.calls;
        done = k.done;
        result = k.result;
      }
      passed elapsed x h k = elim h [ ]

      -- The time of an attempt goes by, and the bytes are offered again.
      pub timed_out :
          (x : Exchange Ack) {y : Exchange Ack × Outcome (Stop CommonErr) Ack}
          → Ran id bytes (record x { calls = suc x.calls; done = offered x.calls bytes x.done }) y
          → Ran id bytes (record x { inputs = elapsed ∷ x.inputs }) y
      timed_out x k = record {
        taken = elapsed ∷ k.taken;
        inputs = ap (λ l. elapsed ∷ l) k.inputs;
        calls = omega (arith, k.calls);
        done = k.done;
        result = k.result;
      }

      -- The first packet for the identifier.
      pub answered :
          (p : Ack) (x : Exchange Ack)
          → rel.is_rel p id ≡ true
          → Ran id bytes (record x { inputs = packet p ∷ x.inputs }) (x, ok p)
      answered p x h = record {
        taken = packet p ∷ [];
        inputs = refl;
        calls = omega arith;
        done = refl;
        result = rw h refl;
      }
