-- ===== src/NetworkTask/Cuts.antt =====
-- A stream that drains into packets does so in two pieces as well, wherever it is cut.
use for_mqtt_client.Base.{
  ℕ, ◌≡◌, ◌⊎◌, inl, inr, refl, sym, ap, ◌∙◌, true, false, Option, some, List, [], ◌∷◌, ◌++◌, length,
  length-append, drop, length-drop, All, All-drop, arith,
}
use for_mqtt_client.Outcome.{ok, err}
use for_mqtt_client.Protocol.{Protocol, PacketParseError, frame_length}
use for_mqtt_client.Bytes.{BytesCrate, IsByte}
use for_mqtt_client.Wire.{Read}
use for_mqtt_client.Network.{Packet, read_from_network}
use for_mqtt_client.Network.Frames.{parse-IsHeaderOf, parse-append_malformed}
use for_mqtt_client.Network.Verdict.{
  Verdict, short, discards, waits, frames, read_from_network-Verdict, read_from_network-discards,
}
use for_mqtt_client.Network.Framing.{frames-append}
use for_mqtt_client.NetworkTask.Drains.{is_pending, Drains, stops, takes}

module _ ⦃b : BytesCrate⦄ where
  abbrev Pending : List ℕ → Protocol → Type 0
  Pending s v =
      (r : Read (Option Packet)) × (read_from_network s v ≡ (s, r)) × (is_pending r ≡ true)

  abbrev Taken : List ℕ → Protocol → List ℕ → Packet → List ℕ → Type 0
  Taken s v t p rest =
      (left : List ℕ) × (read_from_network s v ≡ (left, ok (some p)))
      × (rest ≡ left ++ t)
      × All IsByte left

  stop_of :
      (s t : List ℕ) (v : Protocol) {x : List ℕ × Read (Option Packet)} (r : Read (Option Packet))
      → All IsByte s
      → read_from_network s v ≡ x
      → Verdict s v x
      → read_from_network (s ++ t) v ≡ (s ++ t, r)
      → is_pending r ≡ true
      → Pending s v
  stop_of s t v r hb e (short n f) whole pending = (_, e, refl)
  stop_of s t v r hb e (waits h f l) whole pending = (_, e, refl)
  stop_of s t v r hb e (discards f) whole pending =
      let same = sym whole ∙ read_from_network-discards (s ++ t) v (parse-append_malformed s t f) in
      let fails : r ≡ err PacketParseError.malformed_remaining_length = ap (λ x. x.1) same in
      let no : false ≡ true = ap is_pending (sym fails) ∙ pending in cc
  stop_of s t v r hb e (frames h f le) whole pending =
      let k = parse-IsHeaderOf s h hb f in
      let same = sym whole ∙ frames-append s t v h f le in
      let long : length (s ++ t) ≡ length (drop (frame_length h) s ++ t) =
        ap (λ x. length x.0) same in
      absurd (
        omega (
          arith,
          long,
          length-append s t,
          length-append (drop (frame_length h) s) t,
          length-drop (frame_length h) s,
          k.at_least,
        ))

  take_of :
      (s t : List ℕ) (v : Protocol) {x : List ℕ × Read (Option Packet)} (rest : List ℕ) (p : Packet)
      → All IsByte s
      → read_from_network s v ≡ x
      → Verdict s v x
      → read_from_network (s ++ t) v ≡ (rest, ok (some p))
      → Pending s v ⊎ Taken s v t p rest
  take_of s t v rest p hb e (short n f) whole = inl (_, e, refl)
  take_of s t v rest p hb e (waits h f l) whole = inl (_, e, refl)
  take_of s t v rest p hb e (discards f) whole =
      let same = sym whole ∙ read_from_network-discards (s ++ t) v (parse-append_malformed s t f) in
      cc
  take_of s t v rest p hb e (frames h f le) whole =
      let same = sym whole ∙ frames-append s t v h f le in
      let same_rest : rest ≡ drop (frame_length h) s ++ t = ap (λ x. x.0) same in
      let same_packet = ap (λ x. x.1) same in
      inr (
        drop (frame_length h) s,
        e ∙ ap (λ r. (drop (frame_length h) s, r)) (sym same_packet),
        same_rest,
        All-drop IsByte (frame_length h) s hb,
      )

  -- What the first piece drains into, and the second behind what the first has left.
  abbrev pub Cut : Protocol → List ℕ → List ℕ → List Packet → List ℕ → Type 0
  Cut v s t rs end =
      (ps : List Packet) × (mid : List ℕ) × (qs : List Packet) × Drains v s ps mid
      × Drains v (mid ++ t) qs end
      × (rs ≡ ps ++ qs)

  pub Drains-Cut :
      {v : Protocol} {x : List ℕ} {rs : List Packet} {end : List ℕ} (s t : List ℕ)
      → All IsByte s
      → x ≡ s ++ t
      → Drains v x rs end
      → Cut v s t rs end
  Drains-Cut {v} s t hb eq (stops x r e pending) =
      let whole : read_from_network (s ++ t) v ≡ (s ++ t, r) = rw (← eq) e in
      let (q, one, asks) = stop_of s t v r hb refl (read_from_network-Verdict s v) whole pending in
      ([], s, [], stops s q one asks, rw (← eq) (stops x r e pending), refl)
  Drains-Cut {v} s t hb eq (takes x rest p rs end e d) =
      let whole : read_from_network (s ++ t) v ≡ (rest, ok (some p)) = rw (← eq) e in
      elim (take_of s t v rest p hb refl (read_from_network-Verdict s v) whole) [
        | inl (q, one, asks) ↦
            ([], s, _, stops s q one asks, rw (← eq) (takes x rest p rs end e d), refl)
        | inr (left, one, same, bytes) ↦
            let (ps, mid, qs, first, second, sum) = Drains-Cut left t bytes same d in
            (p ∷ ps, mid, qs, takes s left p ps mid one first, second, ap (λ l. p ∷ l) sum)
      ]
