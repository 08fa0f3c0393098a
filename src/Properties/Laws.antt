-- ===== src/Properties/Laws.antt =====
-- The property loop returns on every stream, and leaves a shorter one.
use for_mqtt_client.Base.{
  ℕ, zero, suc, ◌+◌, ◌<◌, List, length, All, Bool-cases, ltb, ◌==◌, inl, inr, arith,
}
use for_mqtt_client.Outcome.{Returns, returns_ok, Returns-bind, Returns-weaken}
use for_mqtt_client.Bytes.{BytesCrate, IsByte}
use for_mqtt_client.Wire.{Read}
use for_mqtt_client.Wire.Reading.{
  Leaves, read_u8-Takes, read_u16-Takes, read_u32-Takes, read_mqtt_bytes-Takes,
  read_mqtt_string-Takes, read_length-Leaves,
}
use for_mqtt_client.Properties.{
  Handle, Text, property_loop, read_properties, on_u8, on_u16, on_u32, on_bytes, on_string, on_pair,
}

module _ ⦃b : BytesCrate⦄ where
  -- A match that returns, and leaves no more bytes than it is given.
  abbrev pub IsReader : {S : Type 0} → (List ℕ → Read (S × ℕ × List ℕ)) → Type 0
  IsReader f = (bytes : List ℕ) → All IsByte bytes → Returns (λ r. Leaves bytes 0 r.2) (f bytes)

  pub property_loop-Leaves :
      {S : Type 0} (handle : Handle S)
      → ((prop : ℕ) (s : S) → IsReader (handle prop s))
      → (fuel cursor n : ℕ) (s : S) (bytes : List ℕ) → length bytes < fuel
      → All IsByte bytes
      → Returns (λ r. Leaves bytes 0 r.1) (property_loop handle fuel cursor n s bytes)
  unfolding property_loop
  property_loop-Leaves handle reads zero cursor n s bytes h hb = absurd (omega arith)
  property_loop-Leaves handle reads (suc fuel) cursor n s bytes h hb =
      elim (Bool-cases (ltb cursor n)) [
        | inr done ↦ rw done (returns_ok (omega arith, hb))
        | inl more ↦ rw more (
            Returns-bind (read_u8-Takes bytes hb) λ r t. Returns-bind (reads r.0 s r.1 t.1) λ q u.
              Returns-weaken (λ v w. (omega (arith, t.0, u.0, w.0), w.1))
                (property_loop-Leaves handle reads fuel (cursor + 1 + q.1) n q.0 q.2
                  (omega (arith, t.0, u.0)) u.1))
      ]

  pub read_properties-Leaves :
      {S : Type 0} (handle : Handle S)
      → ((prop : ℕ) (s : S) → IsReader (handle prop s))
      → (empty : S) (bytes : List ℕ) → All IsByte bytes
      → Returns (λ r. Leaves bytes 1 r.1) (read_properties handle empty bytes)
  unfolding read_properties
  read_properties-Leaves handle reads empty bytes hb =
      Returns-bind (read_length-Leaves bytes hb) λ r t. elim (Bool-cases (r.0 == 0)) [
        | inl e ↦ rw e (returns_ok t)
        | inr e ↦ rw e (
            Returns-bind
              (property_loop-Leaves handle reads (suc (length r.1)) 0 r.0 empty r.1 (omega arith)
                t.1)
              λ q u. returns_ok (omega (arith, t.0, u.0), u.1))
      ]

  pub on_u8-IsReader : {S : Type 0} (put : ℕ → S) → IsReader (on_u8 put)
  unfolding on_u8
  on_u8-IsReader put s h =
      Returns-bind (read_u8-Takes s h) λ r t. returns_ok (omega (arith, t.0), t.1)

  pub on_u16-IsReader : {S : Type 0} (put : ℕ → S) → IsReader (on_u16 put)
  unfolding on_u16
  on_u16-IsReader put s h =
      Returns-bind (read_u16-Takes s h) λ r t. returns_ok (omega (arith, t.0), t.1)

  pub on_u32-IsReader : {S : Type 0} (put : ℕ → S) → IsReader (on_u32 put)
  unfolding on_u32
  on_u32-IsReader put s h =
      Returns-bind (read_u32-Takes s h) λ r t. returns_ok (omega (arith, t.0), t.1)

  pub on_bytes-IsReader : {S : Type 0} (put : List ℕ → S) → IsReader (on_bytes put)
  unfolding on_bytes
  on_bytes-IsReader put s h =
      Returns-bind (read_mqtt_bytes-Takes s h) λ r t. returns_ok (omega (arith, t.0), t.1)

  pub on_string-IsReader : {S : Type 0} (put : Text → S) → IsReader (on_string put)
  unfolding on_string
  on_string-IsReader put s h =
      Returns-bind (read_mqtt_string-Takes s h) λ r t. returns_ok (omega (arith, t.0), t.1)

  pub on_pair-IsReader : {S : Type 0} (put : Text × Text → S) → IsReader (on_pair put)
  unfolding on_pair
  on_pair-IsReader put s h = Returns-bind (read_mqtt_string-Takes s h) λ r t.
      Returns-bind (read_mqtt_string-Takes r.1 t.1) λ q u. returns_ok (omega (arith, t.0, u.0), u.1)
