-- ===== src/NetworkTask/Termination.antt =====
-- The loop of `deal_connected_network_packet` in src/tasks/task_network/mod.rs ends.
use for_mqtt_client.Base.{
  ℕ, zero, suc, ◌<◌, ◌≡◌, refl, ap, ◌∙◌, true, Option, some, List, [], ◌∷◌, ◌++◌, length, All,
  arith,
}
use for_mqtt_client.Outcome.{
  Outcome, ok, err, panic, out_of_fuel, Returns, is_answer, Returns-of_answer, returns_ok,
  returns_err,
}
use for_mqtt_client.Bytes.{BytesCrate, IsByte}
use for_mqtt_client.Wire.{Read}
use for_mqtt_client.Network.{Packet, read_from_network}
use for_mqtt_client.Network.Totality.{read_from_network-Returns}
use for_mqtt_client.Network.Framing.{
  Consumes, nothing, nothing_err, everything, a_packet, read_from_network-Consumes,
}
use for_mqtt_client.Task.{Stop}
use for_mqtt_client.NetworkTask.Data.{NetworkTasksError}
use for_mqtt_client.NetworkTask.World.{Link, Host}
use for_mqtt_client.NetworkTask.Receive.{drain, deal_connected_network_packet}
use for_mqtt_client.NetworkTask.Drains.{shorter}
use for_mqtt_client.NetworkTask.Rounds.{goes_on, after_read_holds}

-- What is left of the task when its buffer has been looked through.
pub record Keeps (w : Link) (x : Link × Outcome (Stop NetworkTasksError) (Unit {0})) : Type 0 where
  pub task : x.0.task ≡ w.task
  pub inputs : x.0.inputs ≡ w.inputs
  pub bytes : All IsByte x.0.buf
  pub on : goes_on x.1 ≡ true

pub answer-of_goes_on :
    (r : Outcome (Stop NetworkTasksError) (Unit {0})) → goes_on r ≡ true → is_answer r ≡ true
answer-of_goes_on (ok a) h = refl
answer-of_goes_on (err e) h = refl
answer-of_goes_on panic h = h
answer-of_goes_on out_of_fuel h = h

pub answer-of_Returns :
    {E A : Type 0} {P : A → Type 0} {r : Outcome E A} → Returns P r → is_answer r ≡ true
answer-of_Returns (returns_ok p) = refl
answer-of_Returns returns_err = refl

All-of_append : (xs ys : List ℕ) → All IsByte (xs ++ ys) → All IsByte ys
All-of_append [] ys h = h
All-of_append (x ∷ xs) ys h = All-of_append xs ys h.1

Consumes-bytes :
    {s : List ℕ} {x : List ℕ × Read (Option Packet)} → All IsByte s → Consumes s x → All IsByte x.0
Consumes-bytes hb nothing = hb
Consumes-bytes hb (nothing_err n) = hb
Consumes-bytes hb everything = tt
Consumes-bytes hb (a_packet frame rest r e le some_result) = All-of_append frame rest (rw (← e) hb)

module _ ⦃host : Host⦄ ⦃b : BytesCrate⦄ where
  -- With a round less, the buffer is shorter.
  next_round :
      (n : ℕ) (w x : Link) (p : Packet)
      → All IsByte w.buf
      → length w.buf < suc n
      → (read_from_network w.buf w.task.version).1 ≡ ok (some p)
      → x.buf ≡ (read_from_network w.buf w.task.version).0
      → (length x.buf < n) × All IsByte x.buf
  next_round n w x p hb h e same =
      let (fewer, bytes) =
        shorter w.buf w.task.version _ p hb
          (ap (λ r. ((read_from_network w.buf w.task.version).0, r)) e) in
      (omega (arith, fewer, h, ap length same), rw same bytes)

  pub rest-bytes :
      (w : Link) → All IsByte w.buf → All IsByte (read_from_network w.buf w.task.version).0
  rest-bytes w hb = Consumes-bytes hb (read_from_network-Consumes w.buf w.task.version hb)

  drain-Keeps : (n : ℕ) (w : Link) → All IsByte w.buf → length w.buf < n → Keeps w (drain n w)
  unfolding drain
  drain-Keeps zero w hb h = absurd (omega (arith, h))
  drain-Keeps (suc n) w hb h =
      let (rest, r) = read_from_network w.buf w.task.version in
      after_read_holds (Keeps w) (drain n) r (record w { buf = rest })
        (answer-of_Returns (read_from_network-Returns w.buf w.task.version hb))
        (λ y k. record {
          task = k.task;
          inputs = k.inputs;
          bytes = rw k.buf (rest-bytes w hb);
          on = k.on;
        })
        λ p e y k.
          let (fewer, bytes) = next_round n w y p hb h e k.buf in
          let rest = drain-Keeps n y bytes fewer in
          record {
            task = rest.task ∙ k.task;
            inputs = rest.inputs ∙ k.inputs;
            bytes = rest.bytes;
            on = rest.on;
          }

  pub deal-Keeps : (w : Link) → All IsByte w.buf → Keeps w (deal_connected_network_packet w)
  unfolding deal_connected_network_packet
  deal-Keeps w hb = drain-Keeps (suc (length w.buf)) w hb (omega arith)

  -- Whatever bytes the buffer holds and whichever calls of the bus fail, the loop ends, with a result or an
  -- error.
  pub deal-Returns :
      (w : Link) → All IsByte w.buf → Returns (λ _. Unit {0}) (deal_connected_network_packet w).1
  deal-Returns w hb = Returns-of_answer _ (answer-of_goes_on _ (deal-Keeps w hb).on)
