-- ===== src/Packet/ReturnCodes.antt =====
-- The loop over the return codes of a `SubAck` or an `UnsubAck`: every byte that is left is one.
use for_mqtt_client.Base.{
  ℕ, zero, suc, ◌<◌, List, [], ◌∷◌, ◌++◌, length, ◌==◌, if◌then◌else◌, All, arith, Bool-cases, inl,
  inr,
}
use for_mqtt_client.Outcome.{ok, out_of_fuel, ◌>>=◌, Returns, returns_ok, Returns-bind}
use for_mqtt_client.Bytes.{BytesCrate, IsByte}
use for_mqtt_client.Wire.{Read, read_u8}
use for_mqtt_client.Wire.Reading.{read_u8-Takes}

module _ ⦃b : BytesCrate⦄ where
  -- With fuel; a round takes a byte, so one round more than there are bytes is enough.
  unfoldable pub read_codes : {R : Type 0} → (ℕ → Read R) → ℕ → List R → List ℕ → Read (List R)
  read_codes reason zero return_codes bytes = out_of_fuel
  read_codes reason (suc fuel) return_codes bytes =
      let round = read_u8 bytes >>= λ (return_code, bytes).
      reason return_code >>= λ code. read_codes reason fuel (return_codes ++ (code ∷ [])) bytes in
      if length bytes == 0 then ok return_codes else round

  pub read_codes-Returns :
      {R : Type 0} (reason : ℕ → Read R)
      → ((n : ℕ) → Returns (λ _. Unit {0}) (reason n))
      → (fuel : ℕ) (codes : List R) (bytes : List ℕ) → length bytes < fuel
      → All IsByte bytes
      → Returns (λ _. Unit {0}) (read_codes reason fuel codes bytes)
  unfolding read_codes
  read_codes-Returns reason h zero codes bytes lt hb = absurd (omega arith)
  read_codes-Returns reason h (suc fuel) codes bytes lt hb = elim (Bool-cases (length bytes == 0)) [
    | inl e ↦ rw e (returns_ok tt)
    | inr e ↦ rw e (
        Returns-bind (read_u8-Takes bytes hb) λ r t. Returns-bind (h r.0) λ code _.
          read_codes-Returns reason h fuel (codes ++ (code ∷ [])) r.1 (omega (arith, t.0)) t.1)
  ]
