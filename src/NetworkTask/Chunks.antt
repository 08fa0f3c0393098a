-- ===== src/NetworkTask/Chunks.antt =====
-- The loop of `run_connected` in src/tasks/task_network/mod.rs, when the bytes of the broker come in pieces.
use for_mqtt_client.Base.{
  ℕ, ◌≡◌, refl, sym, ap, ◌∙◌, true, List, [], ◌∷◌, ◌++◌, append_assoc, append-nil, length, All,
  All-append, arith, ◌<◌,
}
use for_mqtt_client.Outcome.{err, ok}
use for_mqtt_client.Bytes.{BytesCrate, IsByte}
use for_mqtt_client.Network.{Packet}
use for_mqtt_client.Task.{waits, Task, ◌>>◌, wait}
use for_mqtt_client.NetworkTask.Data.{is_connected, NetworkTasksError}
use for_mqtt_client.NetworkTask.World.{Link, Host, IsOpen, set_inputs, Input, from_stream, arrived}
use for_mqtt_client.NetworkTask.Connection.{
  while_connected, on_reading, on_input, select_loop, run_connected,
}
use for_mqtt_client.NetworkTask.Drains.{Drains, Drains-rest, Drains-bytes, Drains-unique}
use for_mqtt_client.NetworkTask.Cuts.{Drains-Cut}
use for_mqtt_client.NetworkTask.Refinement.{events, told, told-append, events-append, deal-Drains}

-- The pieces, as the stream gives them.
abbrev pub arrivals : List (List ℕ) → List Input
arrivals [] = []
arrivals (c ∷ cs) = from_stream (arrived c) ∷ arrivals cs

-- The bytes of all the pieces.
abbrev pub joined : List (List ℕ) → List ℕ
joined [] = []
joined (c ∷ cs) = c ++ joined cs

-- A piece that `read_buf` returns has a byte at least.
abbrev pub IsPiece : List ℕ → Type 0
IsPiece c = (0 < length c) × All IsByte c

-- Nothing is left to do: the buffer holds no whole packet.
abbrev pub IsDrained : ⦃b : BytesCrate⦄ → Link → Type 0
IsDrained w = Drains w.task.version w.buf [] w.buf

module _ ⦃host : Host⦄ (open_bus : IsOpen host) ⦃b : BytesCrate⦄ where
  -- The loop goes on while the task is connected.
  pub while_connected-on :
      (m : Task Link NetworkTasksError (Unit {0})) (w : Link)
      → is_connected w.task.state ≡ true
      → while_connected m w ≡ m w
  while_connected-on m w on = rw (while_connected, on) refl

  on_piece :
      (w : Link) (c : List ℕ) (ps : List Packet) (mid : List ℕ)
      → IsPiece c
      → All IsByte w.buf
      → Drains w.task.version (w.buf ++ c) ps mid
      → on_reading (arrived c) w ≡ (record (told (events ps) w) { buf = mid }, ok tt)
  unfolding on_reading
  on_piece w [] ps mid hc hb d = absurd (omega (arith, hc.0))
  on_piece w (x ∷ c) ps mid hc hb d =
      deal-Drains open_bus (record w { buf = w.buf ++ (x ∷ c) }) ps mid
        (All-append IsByte w.buf (x ∷ c) hb hc.1) d

  -- The pieces are dealt with, whatever comes behind them.
  pub pieces-Drains :
      (cs : List (List ℕ)) (tail : List Input) (w : Link) (ps : List Packet) (end : List ℕ)
      → is_connected w.task.state ≡ true
      → All IsByte w.buf
      → All IsPiece cs
      → IsDrained w
      → Drains w.task.version (w.buf ++ joined cs) ps end
      → select_loop (arrivals cs ++ tail) (record w { inputs = arrivals cs ++ tail })
        ≡ select_loop tail (record (told (events ps) w) { buf = end; inputs = tail })
  unfolding select_loop on_input
  pieces-Drains [] tail w ps end on hb hc drained d =
      let whole : Drains w.task.version w.buf ps end = rw (← append-nil w.buf) d in
      let (nothing, same) = Drains-unique whole drained in rw (nothing, same) refl
  pieces-Drains (c ∷ cs) tail w rs end on hb hc drained d =
      let whole = sym (append_assoc w.buf c (joined cs)) in
      let bytes = All-append IsByte w.buf c hb hc.0.1 in
      let (ps, mid, qs, first, second, sum) = Drains-Cut (w.buf ++ c) (joined cs) bytes whole d in
      let next : Link = record (told (events ps) w) { buf = mid } in
      let all : told (events qs) (told (events ps) w) ≡ told (events rs) w =
        sym (told-append (events ps) (events qs) w)
        ∙ ap (λ es. told es w) (sym (ap events sum ∙ events-append ps qs)) in
      let inputs = arrivals cs ++ tail in
      let round = set_inputs inputs >> on_input (from_stream (arrived c)) >> select_loop inputs in
      while_connected-on round (record w { inputs = arrivals (c ∷ cs) ++ tail }) on
      ∙ rw (on_piece (record w { inputs = inputs }) c ps mid hc.0 hb first) (
          pieces-Drains cs tail next qs end on (Drains-bytes bytes first) hc.1 (Drains-rest first)
            second
          ∙ ap (λ x. select_loop tail (record x { buf = end; inputs = tail })) all)

  -- A connected task whose buffer holds no whole packet gets the bytes of some packets in pieces. If all of
  -- them together drain into the packets `ps`, the bus gets the events of these packets, each once and in
  -- their order, the buffer keeps what is not a packet yet, and the task waits.
  pub run_connected-Drains :
      (cs : List (List ℕ)) (w : Link) (ps : List Packet) (end : List ℕ)
      → is_connected w.task.state ≡ true
      → All IsByte w.buf
      → All IsPiece cs
      → IsDrained w
      → Drains w.task.version (w.buf ++ joined cs) ps end
      → run_connected (record w { inputs = arrivals cs })
        ≡ (record (told (events ps) w) { buf = end; inputs = [] }, err waits)
  unfolding run_connected select_loop
  run_connected-Drains cs w ps end on hb hc drained d =
      ap (λ l. select_loop l (record w { inputs = l })) (sym (append-nil (arrivals cs)))
      ∙ pieces-Drains cs [] w ps end on hb hc drained d
      ∙ while_connected-on wait (record (told (events ps) w) { buf = end; inputs = [] }) on

  -- How the network cuts up the bytes makes no difference: two sequences of pieces with the same
  -- bytes, which drain into packets, leave a connected task whose buffer held no whole packet in
  -- the same state, with the same events for the bus, if the bus is open.
  pub run_connected-same :
      (cs ds : List (List ℕ)) (w : Link) (ps : List Packet) (end : List ℕ)
      → is_connected w.task.state ≡ true
      → All IsByte w.buf
      → All IsPiece cs
      → All IsPiece ds
      → IsDrained w
      → Drains w.task.version (w.buf ++ joined cs) ps end
      → joined cs ≡ joined ds
      → run_connected (record w { inputs = arrivals cs })
        ≡ run_connected (record w { inputs = arrivals ds })
  run_connected-same cs ds w ps end on hb hc hd drained d same =
      run_connected-Drains cs w ps end on hb hc drained d
      ∙ sym (run_connected-Drains ds w ps end on hb hd drained (rw (← same) d))
