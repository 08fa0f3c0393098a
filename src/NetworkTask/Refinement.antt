-- ===== src/NetworkTask/Refinement.antt =====
-- `deal_connected_network_packet` of src/tasks/task_network/mod.rs against what the stream means.
use for_mqtt_client.Base.{
  ℕ, zero, suc, ◌<◌, ◌≡◌, inl, inr, refl, ap, ◌∙◌, true, Bool-cases, leb, Option, none, some, List,
  [], ◌∷◌, ◌++◌, length, All, arith,
}
use for_mqtt_client.Outcome.{ok, err}
use for_mqtt_client.Bytes.{BytesCrate, IsByte}
use for_mqtt_client.Wire.{Read}
use for_mqtt_client.Network.{
  Packet, connect_packet, conn_ack_packet, publish_packet, pub_ack_packet, pub_rec_packet,
  pub_rel_packet, pub_comp_packet, ping_resp_packet, subscribe_packet, sub_ack_packet,
  unsubscribe_packet, unsub_ack_packet, disconnect_packet,
}
use for_mqtt_client.Hub.Data.{rx_publish, broker_disconnect}
use for_mqtt_client.Task.{Task}
use for_mqtt_client.NetworkTask.Data.{NetworkTasksError}
use for_mqtt_client.NetworkTask.World.{
  Link, Host, IsOpen, BusEvent, hub_msg, pub_ack, pub_rec, pub_rel, pub_comp, sub_ack, unsub_ack,
  ping_resp, network_event, NetworkAction, dispatched, note, dispatch_event,
}
use for_mqtt_client.NetworkTask.Receive.{
  forward, deal_packet, if_more, after_read, drain, deal_connected_network_packet,
}
use for_mqtt_client.NetworkTask.Drains.{is_pending, Drains, stops, takes, shorter, Drains-too_short}

-- Whom a packet is for.
abbrev pub event_of : Packet → Option BusEvent
event_of (publish_packet p) = some (hub_msg (rx_publish p))
event_of (pub_ack_packet p) = some (pub_ack p)
event_of (pub_rec_packet p) = some (pub_rec p)
event_of (pub_rel_packet p) = some (pub_rel p)
event_of (pub_comp_packet p) = some (pub_comp p)
event_of (sub_ack_packet p) = some (sub_ack p)
event_of (unsub_ack_packet p) = some (unsub_ack p)
event_of ping_resp_packet = some ping_resp
event_of (disconnect_packet p) = some (network_event (broker_disconnect p))
event_of _ = none

abbrev pub and_event : Option BusEvent → List BusEvent → List BusEvent
and_event none es = es
and_event (some e) es = e ∷ es

-- The events of some packets, in their order.
abbrev pub events : List Packet → List BusEvent
events [] = []
events (p ∷ ps) = and_event (event_of p) (events ps)

abbrev counted : List BusEvent → ℕ → ℕ
counted [] n = n
counted (e ∷ es) n = counted es (suc n)

-- The latest stands first.
abbrev pub listed : List BusEvent → List NetworkAction → List NetworkAction
listed [] actions = actions
listed (e ∷ es) actions = listed es (dispatched e ∷ actions)

-- The task when the bus has taken some events, one behind the other.
abbrev pub told : List BusEvent → Link → Link
told es w = record w { calls = counted es w.calls; done = listed es w.done }

abbrev told_one : Option BusEvent → Link → Link
told_one none w = w
told_one (some e) w = note (dispatched e) w

told-and_event :
    (o : Option BusEvent) (es : List BusEvent) (w : Link)
    → told (and_event o es) w ≡ told es (told_one o w)
told-and_event none es w = refl
told-and_event (some e) es w = refl

counted-append : (es fs : List BusEvent) (n : ℕ) → counted (es ++ fs) n ≡ counted fs (counted es n)
counted-append [] fs n = refl
counted-append (e ∷ es) fs n = counted-append es fs (suc n)

listed-append :
    (es fs : List BusEvent) (actions : List NetworkAction)
    → listed (es ++ fs) actions ≡ listed fs (listed es actions)
listed-append [] fs actions = refl
listed-append (e ∷ es) fs actions = listed-append es fs (dispatched e ∷ actions)

pub told-append : (es fs : List BusEvent) (w : Link) → told (es ++ fs) w ≡ told fs (told es w)
told-append es fs w = rw (counted-append es fs w.calls, listed-append es fs w.done)

and_event-append :
    (o : Option BusEvent) (es fs : List BusEvent) → and_event o (es ++ fs) ≡ and_event o es ++ fs
and_event-append none es fs = refl
and_event-append (some e) es fs = refl

pub events-append : (ps qs : List Packet) → events (ps ++ qs) ≡ events ps ++ events qs
events-append [] qs = refl
events-append (p ∷ ps) qs =
    ap (and_event (event_of p)) (events-append ps qs)
    ∙ and_event-append (event_of p) (events ps) (events qs)

module _ ⦃host : Host⦄ (open_bus : IsOpen host) where
  pub dispatch-open :
      (e : BusEvent) (w : Link) → dispatch_event e w ≡ (note (dispatched e) w, ok tt)
  unfolding dispatch_event
  dispatch-open e w = rw (open_bus w.calls)

  deal_packet-open : (p : Packet) (w : Link) → deal_packet p w ≡ (told_one (event_of p) w, ok tt)
  unfolding deal_packet forward
  deal_packet-open (conn_ack_packet p) w = refl
  deal_packet-open (publish_packet p) w = rw (dispatch-open (hub_msg (rx_publish p)) w)
  deal_packet-open (pub_ack_packet p) w = rw (dispatch-open (pub_ack p) w)
  deal_packet-open (pub_rec_packet p) w = rw (dispatch-open (pub_rec p) w)
  deal_packet-open (pub_rel_packet p) w = rw (dispatch-open (pub_rel p) w)
  deal_packet-open (pub_comp_packet p) w = rw (dispatch-open (pub_comp p) w)
  deal_packet-open (sub_ack_packet p) w = rw (dispatch-open (sub_ack p) w)
  deal_packet-open (unsub_ack_packet p) w = rw (dispatch-open (unsub_ack p) w)
  deal_packet-open ping_resp_packet w = rw (dispatch-open ping_resp w)
  deal_packet-open (disconnect_packet p) w =
      rw (dispatch-open (network_event (broker_disconnect p)) w)
  deal_packet-open (connect_packet p) w = refl
  deal_packet-open (subscribe_packet p) w = refl
  deal_packet-open (unsubscribe_packet p) w = refl

  after_read-pending :
      (again : Task Link NetworkTasksError (Unit {0})) (r : Read (Option Packet)) (w : Link)
      → is_pending r ≡ true
      → after_read again r w ≡ (w, ok tt)
  unfolding after_read
  after_read-pending again (ok none) w h = refl
  after_read-pending again (ok (some p)) w h = cc
  after_read-pending again (err e) w h = refl
  after_read-pending again _ w h = cc

  module _ ⦃b : BytesCrate⦄ where
    if_more-Drains :
        (n : ℕ) (w : Link) {s : List ℕ} {ps : List Packet} {end : List ℕ}
        → All IsByte s
        → Drains w.task.version s ps end
        → drain n (record w { buf = s }) ≡ (record (told (events ps) w) { buf = end }, ok tt)
        → if_more (drain n) (record w { buf = s })
          ≡ (record (told (events ps) w) { buf = end }, ok tt)
    if_more-Drains n w {s} {ps} {end} hb d ih = elim (Bool-cases (leb 2 (length s))) [
      | inl more ↦ rw more ih
      | inr no_more ↦
          let (none_left, same) = Drains-too_short hb (ground arith) d in
          rw (no_more, none_left, same) refl
    ]

    -- The rest of the buffer, when the event of a packet has been dispatched; `rounds` is about those.
    behind :
        (n : ℕ) (o : Option BusEvent) (w : Link) {s : List ℕ} {ps : List Packet} {end : List ℕ}
        → All IsByte s
        → Drains w.task.version s ps end
        → ((x : Link)
            → Drains x.task.version s ps end
            → drain n (record x { buf = s }) ≡ (record (told (events ps) x) { buf = end }, ok tt))
        → if_more (drain n) (told_one o (record w { buf = s }))
          ≡ (record (told (and_event o (events ps)) w) { buf = end }, ok tt)
    behind n none w hb d rounds = if_more-Drains n w hb d (rounds w d)
    behind n (some e) w hb d rounds =
        let next = note (dispatched e) w in if_more-Drains n next hb d (rounds next d)

    drain-Drains :
        (n : ℕ) (w : Link) {s : List ℕ} {ps : List Packet} {end : List ℕ}
        → All IsByte s
        → length s < n
        → Drains w.task.version s ps end
        → drain n (record w { buf = s }) ≡ (record (told (events ps) w) { buf = end }, ok tt)
    unfolding drain after_read
    drain-Drains zero w hb h d = absurd (omega (arith, h))
    drain-Drains (suc n) w hb h (stops s r e pending) =
        rw e (after_read-pending (drain n) r (record w { buf = s }) pending)
    drain-Drains (suc n) w hb h (takes s rest p ps end e d) =
        let (fewer, bytes) = shorter s w.task.version rest p hb e in
        rw (e, deal_packet-open p (record w { buf = rest }))
          (behind n (event_of p) w bytes d
            λ x k. drain-Drains n x bytes (omega (arith, fewer, h)) k)

    -- Where the bus is open, the loop passes on the packets that the buffer holds, each once and in
    -- their order, to whom they are for, and leaves the bytes that are not a packet yet: it does
    -- what the stream means.
    pub deal-Drains :
        (w : Link) (ps : List Packet) (end : List ℕ)
        → All IsByte w.buf
        → Drains w.task.version w.buf ps end
        → deal_connected_network_packet w ≡ (record (told (events ps) w) { buf = end }, ok tt)
    unfolding deal_connected_network_packet
    deal-Drains w ps end hb d = drain-Drains (suc (length w.buf)) w hb (omega arith) d
