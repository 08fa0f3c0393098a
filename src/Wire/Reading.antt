-- ===== src/Wire/Reading.antt =====
-- The readers of the wire format: what they take from the stream, and what they read back.
use for_mqtt_client.Base.{
  arith, inr, inl, not_ltb→le, ltb, Bool-cases, true, All-drop, All, drop-length_append,
  take-length_append, length-drop, length-take, length-append, length, append_assoc, ◌++◌, ◌∷◌, [],
  List, refl, ◌≡◌, ◌<◌, ◌≤◌, ◌^◌, ◌%◌, ◌/◌, ◌*◌, ◌+◌, ℕ,
}
use for_mqtt_client.Outcome.{
  Outcome, ok, err, panic, out_of_fuel, map_err, is_answer, Returns, returns_ok, returns_err,
  Returns-bind, Returns-weaken,
}
use for_mqtt_client.Protocol.{FixedHeaderError, from_header_error, len_len}
use for_mqtt_client.Bytes.{BytesCrate, IsByte}
use for_mqtt_client.Wire.{
  read_u8, read_u16, read_u32, read_mqtt_bytes, read_mqtt_string, read_length, decode_length,
  write_mqtt_bytes, write_mqtt_string,
}
use for_mqtt_client.Wire.Utf8.{is_utf8}
use for_mqtt_client.Wire.Lengths.{
  groups, decode_length-groups, decode_length_bounds, decode_length_answers, length-groups,
  IsLength,
}

-- The two bytes of a `u16`, and bytes behind their length.
abbrev pub be16 : ℕ → List ℕ
be16 n = n / 256 ∷ n % 256 ∷ []

abbrev pub be32 : ℕ → List ℕ
be32 n = n / 16777216 ∷ n / 65536 % 256 ∷ n / 256 % 256 ∷ n % 256 ∷ []

unfoldable pub framed : List ℕ → List ℕ
framed s = be16 (length s % 2 ^ 16) ++ s

module _ ⦃b : BytesCrate⦄ where
  pub read_u8-cons : (a : ℕ) (rest : List ℕ) → read_u8 (a ∷ rest) ≡ ok (a, rest)
  unfolding read_u8
  read_u8-cons a rest = ground (arith, b.get_u8_law a rest)

  pub read_u16-cons : (x y : ℕ) (rest : List ℕ) → read_u16 (x ∷ y ∷ rest) ≡ ok (x * 256 + y, rest)
  unfolding read_u16
  read_u16-cons x y rest = ground (arith, b.get_u16_law x y rest)

  pub read_u16-be16 : (n : ℕ) (rest : List ℕ) → read_u16 (be16 n ++ rest) ≡ ok (n, rest)
  read_u16-be16 n rest = ground (arith, read_u16-cons (n / 256) (n % 256) rest)

  pub read_u32-be32 : (n : ℕ) (rest : List ℕ) → read_u32 (be32 n ++ rest) ≡ ok (n, rest)
  unfolding read_u32
  read_u32-be32 n rest =
      ground (arith, b.get_u32_law (n / 16777216) (n / 65536 % 256) (n / 256 % 256) (n % 256) rest)

  pub read_u32-cons :
      (x y z w : ℕ) (rest : List ℕ)
      → read_u32 (x ∷ y ∷ z ∷ w ∷ rest) ≡ ok (((x * 256 + y) * 256 + z) * 256 + w, rest)
  unfolding read_u32
  read_u32-cons x y z w rest = ground (arith, b.get_u32_law x y z w rest)

  pub read_mqtt_bytes-framed :
      (s rest : List ℕ) → length s < 65536 → read_mqtt_bytes (framed s ++ rest) ≡ ok (s, rest)
  unfolding read_mqtt_bytes framed
  read_mqtt_bytes-framed s rest h = ground (
    arith,
    read_u16-be16 (length s % 65536) (s ++ rest),
    length-append s rest,
    b.split_to_law (length s) (s ++ rest),
    take-length_append s rest,
    drop-length_append s rest,
  )

  -- A string that is written is read back, and what follows it is left.
  pub read_mqtt_string-framed :
      (s rest : List ℕ)
      → length s < 65536
      → is_utf8 s ≡ true
      → read_mqtt_string (framed s ++ rest) ≡ ok (s, rest)
  unfolding read_mqtt_string
  read_mqtt_string-framed s rest h u = rw (read_mqtt_bytes-framed s rest h, u)

  pub write_mqtt_bytes-framed : (buf s : List ℕ) → write_mqtt_bytes buf s ≡ buf ++ framed s
  unfolding write_mqtt_bytes framed
  write_mqtt_bytes-framed buf s = ground (
    arith,
    b.put_u16_law buf (length s % 65536),
    b.extend_law (buf ++ be16 (length s % 65536)) s,
    append_assoc buf (be16 (length s % 65536)) s,
  )

  pub write_mqtt_string-framed : (buf s : List ℕ) → write_mqtt_string buf s ≡ buf ++ framed s
  unfolding write_mqtt_string
  write_mqtt_string-framed buf s = write_mqtt_bytes-framed buf s

  pub read_length-groups :
      (n : ℕ) (rest : List ℕ) → n < 2 ^ 28 → read_length (groups 3 n ++ rest) ≡ ok (n, rest)
  unfolding read_length
  read_length-groups n rest h = ground (
    arith,
    decode_length-groups n rest h,
    length-groups n h,
    length-append (groups 3 n) rest,
    b.advance_law (len_len n) (groups 3 n ++ rest),
    drop-length_append (groups 3 n) rest,
  )

  -- What is left of a stream is a stream of bytes, and shorter by what was read.
  abbrev pub Takes : List ℕ → ℕ → List ℕ → Type 0
  Takes s n rest = (length rest + n ≡ length s) × All IsByte rest

  pub read_u8-Takes : (s : List ℕ) → All IsByte s → Returns (λ r. Takes s 1 r.1) (read_u8 s)
  read_u8-Takes [] h = unfold read_u8 in returns_err
  read_u8-Takes (x ∷ s) h = rw (read_u8-cons x s) (returns_ok (omega arith, h.1))

  pub read_u16-Takes : (s : List ℕ) → All IsByte s → Returns (λ r. Takes s 2 r.1) (read_u16 s)
  read_u16-Takes [] h = unfold read_u16 in returns_err
  read_u16-Takes (x ∷ []) h = unfold read_u16 in returns_err
  read_u16-Takes (x ∷ y ∷ s) h = rw (read_u16-cons x y s) (returns_ok (omega arith, h.1.1))

  pub read_u32-Takes : (s : List ℕ) → All IsByte s → Returns (λ r. Takes s 4 r.1) (read_u32 s)
  read_u32-Takes [] h = unfold read_u32 in returns_err
  read_u32-Takes (x ∷ []) h = unfold read_u32 in returns_err
  read_u32-Takes (x ∷ y ∷ []) h = unfold read_u32 in returns_err
  read_u32-Takes (x ∷ y ∷ z ∷ []) h = unfold read_u32 in returns_err
  read_u32-Takes (x ∷ y ∷ z ∷ w ∷ s) h =
      rw (read_u32-cons x y z w s) (returns_ok (omega arith, h.1.1.1.1))

  split_Takes :
      (n : ℕ) (s : List ℕ)
      → n ≤ length s
      → All IsByte s
      → Returns (λ r. (length r.0 ≡ n) × Takes s n r.1) (b.split_to n s)
  split_Takes n s h hb =
      rw (b.split_to_law n s h)
        (returns_ok (length-take n s h, (omega (arith, length-drop n s), All-drop IsByte n s hb)))

  pub read_mqtt_bytes-Takes :
      (s : List ℕ) → All IsByte s → Returns (λ r. Takes s (2 + length r.0) r.1) (read_mqtt_bytes s)
  unfolding read_mqtt_bytes
  read_mqtt_bytes-Takes s h = Returns-bind (read_u16-Takes s h) λ r t.
      elim (Bool-cases (ltb (length r.1) r.0)) [
        | inl short ↦ rw short returns_err
        | inr enough ↦ rw enough (
            Returns-weaken (λ q u. (omega (arith, t.0, u.0, u.1.0), u.1.1))
              (split_Takes r.0 r.1 (not_ltb→le _ _ enough) t.1))
      ]

  pub read_mqtt_string-Takes :
      (s : List ℕ) → All IsByte s → Returns (λ r. Takes s (2 + length r.0) r.1) (read_mqtt_string s)
  unfolding read_mqtt_string
  read_mqtt_string-Takes s h = Returns-bind (read_mqtt_bytes-Takes s h) λ r t.
      elim (Bool-cases (is_utf8 r.0)) [
        | inl good ↦ rw good (returns_ok t)
        | inr bad ↦ rw bad returns_err
      ]

  pub decode_length-Returns :
      (s : List ℕ)
      → All IsByte s
      → Returns (λ r. IsLength s r) (map_err from_header_error (decode_length s))
  decode_length-Returns s h =
      split (decode_length s) (decode_length_answers s) (λ r. decode_length_bounds s r.0 r.1 h)
    where
      split :
          (d : Outcome FixedHeaderError (ℕ × ℕ))
          → is_answer d ≡ true
          → ((r : ℕ × ℕ) → d ≡ ok r → IsLength s r)
          → Returns (λ r. IsLength s r) (map_err from_header_error d)
      split (ok r) a k = returns_ok (k r refl)
      split (err e) a k = returns_err
      split panic a k = cc
      split out_of_fuel a k = cc

  -- A reader that takes at least `n` bytes.
  abbrev pub Leaves : List ℕ → ℕ → List ℕ → Type 0
  Leaves s n rest = (length rest + n ≤ length s) × All IsByte rest

  pub read_length-Leaves :
      (s : List ℕ) → All IsByte s → Returns (λ r. Leaves s 1 r.1) (read_length s)
  unfolding read_length
  read_length-Leaves s h = Returns-bind (decode_length-Returns s h) λ r t.
      rw (b.advance_law r.0 s t.2)
        (returns_ok (omega (arith, t.0, t.2, length-drop r.0 s), All-drop IsByte r.0 s h))
