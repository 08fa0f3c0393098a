-- ===== src/Properties/Segments.antt =====
-- That the loop reads back what the writers of properties append.
use for_mqtt_client.Base.{
  ℕ, zero, suc, ◌+◌, ◌<◌, ◌≡◌, refl, ◌∙◌, sym, ap, List, [], ◌∷◌, ◌++◌, append_assoc, append-nil,
  length, length-append, Option, none, some, arith, ◌^◌, le→not_ltb, lt→ltb,
}
use for_mqtt_client.Outcome.{ok}
use for_mqtt_client.Protocol.{PropertyType, property_code, user_property}
use for_mqtt_client.Bytes.{BytesCrate}
use for_mqtt_client.Wire.Lengths.{groups}
use for_mqtt_client.Wire.Reading.{
  be16, be32, framed, read_u8-cons, read_u16-be16, read_u32-be32, read_mqtt_bytes-framed,
  read_mqtt_string-framed, read_length-groups,
}
use for_mqtt_client.Properties.{
  Handle, Text, Pairs, property_loop, read_properties, on_u8, on_u16, on_u32, on_bytes, on_string,
  on_pair,
}
use for_mqtt_client.Properties.Pieces.{
  IsText, IsOptText, IsOptBytes, ArePairs, piece, one, text_piece, pair_pieces, length-framed,
}

-- `Segment handle s bytes t`: the match `handle` takes `s` to `t` over `bytes`, field by field.
pub data Segment {S : Type 0} (handle : Handle S) : S → List ℕ → S → Type 0 where
  stop : {s : S} → Segment handle s [] s
  field :
      {s t u : S} {bytes : List ℕ} (code : ℕ) (payload tail : List ℕ)
      → ((rest : List ℕ) → handle code s (payload ++ rest) ≡ ok (t, length payload, rest))
      → bytes ≡ code ∷ (payload ++ tail)
      → Segment handle t tail u
      → Segment handle s bytes u

pub Segment-append :
    {S : Type 0} {handle : Handle S} {s t u : S} {xs ys : List ℕ}
    → Segment handle s xs t
    → Segment handle t ys u
    → Segment handle s (xs ++ ys) u
Segment-append stop g = g
Segment-append {ys = ys} (field code payload tail h e f) g =
    field code payload (tail ++ ys) h (rw e (ap (λ t. code ∷ t) (append_assoc payload tail ys)))
      (Segment-append f g)

module _ ⦃b : BytesCrate⦄ where
  pub property_loop-Segment :
      {S : Type 0} {handle : Handle S} {s t : S} {bytes : List ℕ}
      → Segment handle s bytes t
      → (fuel cursor n : ℕ) (rest : List ℕ) → length bytes < fuel
      → cursor + length bytes ≡ n
      → property_loop handle fuel cursor n s (bytes ++ rest) ≡ ok (t, rest)
  unfolding property_loop
  property_loop-Segment stop zero cursor n rest h e = absurd (omega arith)
  property_loop-Segment stop (suc fuel) cursor n rest h e = rw (le→not_ltb cursor n (omega arith))
  property_loop-Segment (field code payload tail h e f) zero cursor n rest hf hn =
      absurd (omega arith)
  property_loop-Segment {bytes = bytes} (field code payload tail h e f) (suc fuel) cursor n rest hf
        hn =
      let size : length bytes ≡ 1 + length payload + length tail =
        omega (arith, ap length e, length-append payload tail) in
      rw
        (
          lt→ltb cursor n (omega arith),
          e,
          append_assoc payload tail rest,
          read_u8-cons code (payload ++ (tail ++ rest)),
          h (tail ++ rest),
        )
        (property_loop-Segment f fuel (cursor + 1 + length payload) n rest (omega arith)
          (omega arith))

  -- A block of properties that is not empty is read as its fields say, and what follows is left.
  pub read_properties-Segment :
      {S : Type 0} {handle : Handle S} {empty t : S} {bytes : List ℕ} (rest : List ℕ)
      → Segment handle empty bytes t
      → 0 < length bytes
      → length bytes < 2 ^ 28
      → read_properties handle empty (groups 3 (length bytes) ++ (bytes ++ rest))
        ≡ ok (some t, rest)
  unfolding read_properties
  read_properties-Segment {bytes = bytes} rest f pos h = ground (
    arith,
    read_length-groups (length bytes) (bytes ++ rest) h,
    property_loop-Segment f (suc (length (bytes ++ rest))) 0 (length bytes) rest,
    length-append bytes rest,
  )

  pub read_properties-none :
      {S : Type 0} (handle : Handle S) (empty : S) (rest : List ℕ)
      → read_properties handle empty (groups 3 0 ++ rest) ≡ ok (none, rest)
  unfolding read_properties
  read_properties-none handle empty rest = rw (read_length-groups 0 rest (omega arith))

  -- What each body of a match reads.
  on_u8-one :
      {S : Type 0} (put : ℕ → S) (v : ℕ) (rest : List ℕ)
      → on_u8 put (v ∷ rest) ≡ ok (put v, 1, rest)
  unfolding on_u8
  on_u8-one put v rest = rw (read_u8-cons v rest)

  on_u16-be16 :
      {S : Type 0} (put : ℕ → S) (v : ℕ) (rest : List ℕ)
      → on_u16 put (be16 v ++ rest) ≡ ok (put v, 2, rest)
  unfolding on_u16
  on_u16-be16 put v rest = rw (read_u16-be16 v rest)

  on_u32-be32 :
      {S : Type 0} (put : ℕ → S) (v : ℕ) (rest : List ℕ)
      → on_u32 put (be32 v ++ rest) ≡ ok (put v, 4, rest)
  unfolding on_u32
  on_u32-be32 put v rest = rw (read_u32-be32 v rest)

  on_bytes-framed :
      {S : Type 0} (put : List ℕ → S) (v rest : List ℕ)
      → length v < 65536
      → on_bytes put (framed v ++ rest) ≡ ok (put v, length (framed v), rest)
  unfolding on_bytes
  on_bytes-framed put v rest h = rw (read_mqtt_bytes-framed v rest h, length-framed v)

  on_string-framed :
      {S : Type 0} (put : Text → S) (v rest : List ℕ)
      → IsText v
      → on_string put (framed v ++ rest) ≡ ok (put v, length (framed v), rest)
  unfolding on_string
  on_string-framed put v rest h = rw (read_mqtt_string-framed v rest h.0 h.1, length-framed v)

  on_pair-framed :
      {S : Type 0} (put : Text × Text → S) (k v rest : List ℕ)
      → IsText k
      → IsText v
      → on_pair put ((framed k ++ framed v) ++ rest)
        ≡ ok (put (k, v), length (framed k ++ framed v), rest)
  unfolding on_pair
  on_pair-framed put k v rest hk hv = ground (
    arith,
    append_assoc (framed k) (framed v) rest,
    read_mqtt_string-framed k (framed v ++ rest) hk.0 hk.1,
    read_mqtt_string-framed v rest hv.0 hv.1,
    length-append (framed k) (framed v),
    length-framed k,
    length-framed v,
  )

  -- A piece takes the empty field to its value.
  module _ {S : Type 0} {handle : Handle S} (p : PropertyType) where
    pub Segment-u8 :
        (put : Option ℕ → S) (o : Option ℕ)
        → ((bytes : List ℕ)
            → handle (property_code p) (put none) bytes ≡ on_u8 (λ v. put (some v)) bytes)
        → Segment handle (put none) (piece p one o) (put o)
    Segment-u8 put none h = stop
    Segment-u8 put (some v) h =
        field (property_code p) (one v) [] (λ rest. h _ ∙ on_u8-one (λ v. put (some v)) v rest) refl
          stop

    pub Segment-u16 :
        (put : Option ℕ → S) (o : Option ℕ)
        → ((bytes : List ℕ)
            → handle (property_code p) (put none) bytes ≡ on_u16 (λ v. put (some v)) bytes)
        → Segment handle (put none) (piece p be16 o) (put o)
    Segment-u16 put none h = stop
    Segment-u16 put (some v) h =
        field (property_code p) (be16 v) [] (λ rest. h _ ∙ on_u16-be16 (λ v. put (some v)) v rest)
          refl stop

    pub Segment-u32 :
        (put : Option ℕ → S) (o : Option ℕ)
        → ((bytes : List ℕ)
            → handle (property_code p) (put none) bytes ≡ on_u32 (λ v. put (some v)) bytes)
        → Segment handle (put none) (piece p be32 o) (put o)
    Segment-u32 put none h = stop
    Segment-u32 put (some v) h =
        field (property_code p) (be32 v) [] (λ rest. h _ ∙ on_u32-be32 (λ v. put (some v)) v rest)
          refl stop

    pub Segment-bytes :
        (put : Option (List ℕ) → S) (o : Option (List ℕ))
        → IsOptBytes o
        → ((bytes : List ℕ)
            → handle (property_code p) (put none) bytes ≡ on_bytes (λ v. put (some v)) bytes)
        → Segment handle (put none) (text_piece p o) (put o)
    Segment-bytes put none ok_o h = stop
    Segment-bytes put (some v) ok_o h =
        field (property_code p) (framed v) []
          (λ rest. h _ ∙ on_bytes-framed (λ v. put (some v)) v rest ok_o)
          (ap (λ t. property_code p ∷ t) (sym (append-nil (framed v)))) stop

    pub Segment-string :
        (put : Option Text → S) (o : Option Text)
        → IsOptText o
        → ((bytes : List ℕ)
            → handle (property_code p) (put none) bytes ≡ on_string (λ v. put (some v)) bytes)
        → Segment handle (put none) (text_piece p o) (put o)
    Segment-string put none ok_o h = stop
    Segment-string put (some v) ok_o h =
        field (property_code p) (framed v) []
          (λ rest. h _ ∙ on_string-framed (λ v. put (some v)) v rest ok_o)
          (ap (λ t. property_code p ∷ t) (sym (append-nil (framed v)))) stop

  Segment-pairs_onto :
      {S : Type 0} {handle : Handle S} (put : Pairs → S) (done ps : Pairs)
      → ArePairs ps
      → ((acc : Pairs) (bytes : List ℕ)
          → handle (property_code user_property) (put acc) bytes
            ≡ on_pair (λ kv. put (acc ++ (kv ∷ []))) bytes)
      → Segment handle (put done) (pair_pieces ps) (put (done ++ ps))
  Segment-pairs_onto put done [] h k = rw (append-nil done) stop
  Segment-pairs_onto {handle = handle} put done ((x, y) ∷ ps) h k =
      field (property_code user_property) (framed x ++ framed y) (pair_pieces ps)
        (λ rest. k done _ ∙ on_pair-framed (λ kv. put (done ++ (kv ∷ []))) x y rest h.0 h.1) refl
        (rw (append_assoc done ((x, y) ∷ []) ps) at
          (Segment-pairs_onto {handle = handle} put (done ++ ((x, y) ∷ [])) ps h.2 k))

  pub Segment-pairs :
      {S : Type 0} {handle : Handle S} (put : Pairs → S) (ps : Pairs)
      → ArePairs ps
      → ((acc : Pairs) (bytes : List ℕ)
          → handle (property_code user_property) (put acc) bytes
            ≡ on_pair (λ kv. put (acc ++ (kv ∷ []))) bytes)
      → Segment handle (put []) (pair_pieces ps) (put ps)
  Segment-pairs put ps h k = Segment-pairs_onto put [] ps h k
