-- ===== src/NetworkTask/Drains.antt =====
-- What a stream of bytes means, with no task and no buffer: the packets that `read_from_network` of
-- src/protocol/packet/mod.rs finds in it one behind the other, down to bytes that are not a packet yet.
use for_mqtt_client.Base.{
  ℕ, ◌+◌, ◌≤◌, ◌<◌, ◌≡◌, refl, sym, ap, ◌∙◌, Bool, true, false, Option, none, some, List, [], ◌∷◌,
  ◌++◌, length, drop, length-drop, All, All-drop, arith,
}
use for_mqtt_client.Outcome.{ok, err}
use for_mqtt_client.Protocol.{Protocol, PacketParseError, frame_length}
use for_mqtt_client.Bytes.{BytesCrate, IsByte}
use for_mqtt_client.Wire.{Read}
use for_mqtt_client.Network.{Packet, read_from_network}
use for_mqtt_client.Network.Frames.{parse-IsHeaderOf}
use for_mqtt_client.Network.Verdict.{
  Verdict, short, discards, waits, frames, read_from_network-Verdict,
}
use for_mqtt_client.Network.Framing.{read_from_network-append}

-- More bytes are asked for.
abbrev pub is_pending : Read (Option Packet) → Bool
is_pending (ok none) = true
is_pending (err (PacketParseError.insufficient_bytes n)) = true
is_pending _ = false

ok_some-injective : {p q : Packet} → Path (Read (Option Packet)) (ok (some p)) (ok (some q)) → p ≡ q
ok_some-injective e = cc

module _ ⦃b : BytesCrate⦄ where
  pub data Drains (v : Protocol) : List ℕ → List Packet → List ℕ → Type 0 where
    stops :
        (s : List ℕ) (r : Read (Option Packet))
        → read_from_network s v ≡ (s, r)
        → is_pending r ≡ true
        → Drains v s [] s
    takes :
        (s rest : List ℕ) (p : Packet) (ps : List Packet) (end : List ℕ)
        → read_from_network s v ≡ (rest, ok (some p))
        → Drains v rest ps end
        → Drains v s (p ∷ ps) end

  Verdict-shorter :
      (s : List ℕ) (v : Protocol) {r : List ℕ × Read (Option Packet)} {rest : List ℕ} {p : Packet}
      → All IsByte s
      → Verdict s v r
      → r ≡ (rest, ok (some p))
      → (length rest + 2 ≤ length s) × All IsByte rest
  Verdict-shorter s v hb (short n e) eq = cc
  Verdict-shorter s v hb (discards e) eq = cc
  Verdict-shorter s v hb (waits h e l) eq = cc
  Verdict-shorter s v {rest = rest} hb (frames h e le) eq =
      let k = parse-IsHeaderOf s h hb e in
      let same : drop (frame_length h) s ≡ rest = ap (λ x. x.0) eq in
      rw (← same) (
        omega (arith, length-drop (frame_length h) s, k.at_least),
        All-drop IsByte (frame_length h) s hb,
      )

  -- A packet takes two bytes at least.
  pub shorter :
      (s : List ℕ) (v : Protocol) (rest : List ℕ) (p : Packet)
      → All IsByte s
      → read_from_network s v ≡ (rest, ok (some p))
      → (length rest + 2 ≤ length s) × All IsByte rest
  shorter s v rest p hb e = Verdict-shorter s v hb (read_from_network-Verdict s v) e

  pub Drains-too_short :
      {v : Protocol} {s : List ℕ} {ps : List Packet} {end : List ℕ}
      → All IsByte s
      → length s < 2
      → Drains v s ps end
      → (ps ≡ []) × (end ≡ s)
  Drains-too_short hb h (stops s r e pending) = (refl, refl)
  Drains-too_short {v} hb h (takes s rest p ps end e d) =
      let (fewer, _) = shorter s v rest p hb e in absurd (omega (arith, h, fewer))

  -- Bytes that come later do not change what was found before them.
  pub Drains-append :
      {v : Protocol} {s mid : List ℕ} {ps : List Packet} (t : List ℕ) {qs : List Packet}
      {end : List ℕ}
      → Drains v s ps mid
      → Drains v (mid ++ t) qs end
      → Drains v (s ++ t) (ps ++ qs) end
  Drains-append t (stops s r e pending) k = k
  Drains-append {v} t (takes s rest p ps mid e d) k =
      takes (s ++ t) (rest ++ t) p _ _ (read_from_network-append s t v rest p e)
        (Drains-append t d k)

  -- What is left asks for more bytes.
  pub Drains-rest :
      {v : Protocol} {s : List ℕ} {ps : List Packet} {end : List ℕ}
      → Drains v s ps end
      → Drains v end [] end
  Drains-rest (stops s r e pending) = stops s r e pending
  Drains-rest (takes s rest p ps end e d) = Drains-rest d

  pub Drains-pending :
      {v : Protocol} {s : List ℕ} {ps : List Packet} {end : List ℕ} (r : Read (Option Packet))
      → read_from_network s v ≡ (s, r)
      → is_pending r ≡ true
      → Drains v s ps end
      → (ps ≡ []) × (end ≡ s)
  Drains-pending r e pending (stops s q f asks) = (refl, refl)
  Drains-pending r e pending (takes s rest p ps end f d) =
      let same : r ≡ ok (some p) = ap (λ x. x.1) (sym e ∙ f) in
      let no : true ≡ false = sym pending ∙ ap is_pending same in cc

  -- A stream has one meaning.
  pub Drains-unique :
      {v : Protocol} {s : List ℕ} {ps qs : List Packet} {end other : List ℕ}
      → Drains v s ps end
      → Drains v s qs other
      → (ps ≡ qs) × (end ≡ other)
  Drains-unique (stops s r e pending) k =
      let (nothing, same) = Drains-pending r e pending k in (sym nothing, sym same)
  Drains-unique (takes s rest p ps end e d) (stops x r f pending) =
      Drains-pending r f pending (takes x rest p ps end e d)
  Drains-unique {v} (takes s rest p ps end e d) (takes x left q qs other f k) =
      let same = sym e ∙ f in
      let same_rest : rest ≡ left = ap (λ x. x.0) same in
      let same_packet = ok_some-injective (ap (λ x. x.1) same) in
      let (packets, ends) = Drains-unique d (rw same_rest k) in
      (rw (same_packet, packets) refl, ends)

  pub Drains-bytes :
      {v : Protocol} {s : List ℕ} {ps : List Packet} {end : List ℕ}
      → All IsByte s
      → Drains v s ps end
      → All IsByte end
  Drains-bytes hb (stops s r e pending) = hb
  Drains-bytes {v} hb (takes s rest p ps end e d) = Drains-bytes (shorter s v rest p hb e).1 d
