-- ===== src/Properties/Pieces.antt =====
-- What the writers of properties append, in bytes.
use for_mqtt_client.Base.{
  ℕ, ◌+◌, ◌<◌, ◌≡◌, refl, sym, List, [], ◌∷◌, ◌++◌, append_assoc, append-nil, length, length-append,
  true, Option, none, some, arith,
}
use for_mqtt_client.Protocol.{PropertyType, property_code, user_property}
use for_mqtt_client.Bytes.{BytesCrate}
use for_mqtt_client.Wire.Utf8.{is_utf8}
use for_mqtt_client.Wire.Reading.{
  be16, be32, framed, write_mqtt_bytes-framed, write_mqtt_string-framed,
}
use for_mqtt_client.Properties.{
  Text, Pairs, write_u8, write_u16, write_u32, write_bytes, write_string, write_pairs, fixed_len,
  string_len, pairs_len,
}

-- The pieces that the writers append.
abbrev pub Within : ℕ → Option ℕ → Type 0
Within n none = Unit
Within n (some v) = v < n

abbrev pub IsText : List ℕ → Type 0
IsText s = (length s < 65536) × (is_utf8 s ≡ true)

abbrev pub IsOptText : Option Text → Type 0
IsOptText none = Unit
IsOptText (some s) = IsText s

abbrev pub IsOptBytes : Option (List ℕ) → Type 0
IsOptBytes none = Unit
IsOptBytes (some s) = length s < 65536

abbrev pub ArePairs : Pairs → Type 0
ArePairs [] = Unit
ArePairs ((k, v) ∷ ps) = IsText k × IsText v × ArePairs ps

abbrev pub piece : PropertyType → (ℕ → List ℕ) → Option ℕ → List ℕ
piece p f none = []
piece p f (some v) = property_code p ∷ f v

abbrev pub one : ℕ → List ℕ
one v = v ∷ []

abbrev pub text_piece : PropertyType → Option (List ℕ) → List ℕ
text_piece p none = []
text_piece p (some v) = property_code p ∷ framed v

abbrev pub pair_pieces : Pairs → List ℕ
pair_pieces [] = []
pair_pieces ((k, v) ∷ ps) = (property_code user_property ∷ (framed k ++ framed v)) ++ pair_pieces ps

pub length-framed : (s : List ℕ) → length (framed s) ≡ 2 + length s
unfolding framed
length-framed s = omega arith

pub code-IsByte : (p : PropertyType) → property_code p < 256
code-IsByte p = ground arith

module _ ⦃b : BytesCrate⦄ where
  -- The writers append the pieces, whose lengths are the terms of the `len` methods.
  pub write_u8-piece :
      (p : PropertyType) (o : Option ℕ) (s : List ℕ)
      → Within 256 o
      → write_u8 p o s ≡ s ++ piece p one o
  unfolding write_u8
  write_u8-piece p none s h = sym (append-nil s)
  write_u8-piece p (some v) s h = ground (
    arith,
    code-IsByte p,
    b.put_u8_law s (property_code p),
    b.put_u8_law (s ++ one (property_code p)) v,
    append_assoc s (one (property_code p)) (one v),
  )

  pub write_u16-piece :
      (p : PropertyType) (o : Option ℕ) (s : List ℕ)
      → Within 65536 o
      → write_u16 p o s ≡ s ++ piece p be16 o
  unfolding write_u16
  write_u16-piece p none s h = sym (append-nil s)
  write_u16-piece p (some v) s h = ground (
    arith,
    code-IsByte p,
    b.put_u8_law s (property_code p),
    b.put_u16_law (s ++ one (property_code p)) v,
    append_assoc s (one (property_code p)) (be16 v),
  )

  pub write_u32-piece :
      (p : PropertyType) (o : Option ℕ) (s : List ℕ)
      → Within 4294967296 o
      → write_u32 p o s ≡ s ++ piece p be32 o
  unfolding write_u32
  write_u32-piece p none s h = sym (append-nil s)
  write_u32-piece p (some v) s h = ground (
    arith,
    code-IsByte p,
    b.put_u8_law s (property_code p),
    b.put_u32_law (s ++ one (property_code p)) v,
    append_assoc s (one (property_code p)) (be32 v),
  )

  pub write_bytes-piece :
      (p : PropertyType) (o : Option (List ℕ)) (s : List ℕ)
      → write_bytes p o s ≡ s ++ text_piece p o
  unfolding write_bytes
  write_bytes-piece p none s = sym (append-nil s)
  write_bytes-piece p (some v) s = ground (
    arith,
    code-IsByte p,
    b.put_u8_law s (property_code p),
    write_mqtt_bytes-framed (s ++ one (property_code p)) v,
    append_assoc s (one (property_code p)) (framed v),
  )

  pub write_string-piece :
      (p : PropertyType) (o : Option Text) (s : List ℕ) → write_string p o s ≡ s ++ text_piece p o
  unfolding write_string
  write_string-piece p none s = sym (append-nil s)
  write_string-piece p (some v) s = ground (
    arith,
    code-IsByte p,
    b.put_u8_law s (property_code p),
    write_mqtt_string-framed (s ++ one (property_code p)) v,
    append_assoc s (one (property_code p)) (framed v),
  )

  pub write_pairs-pieces : (ps : Pairs) (s : List ℕ) → write_pairs ps s ≡ s ++ pair_pieces ps
  unfolding write_pairs
  write_pairs-pieces [] s = sym (append-nil s)
  write_pairs-pieces ((k, v) ∷ ps) s = ground (
    arith,
    b.put_u8_law s (property_code user_property),
    write_mqtt_string-framed (s ++ one 38) k,
    write_mqtt_string-framed ((s ++ one 38) ++ framed k) v,
    write_pairs-pieces ps (((s ++ one 38) ++ framed k) ++ framed v),
    append_assoc s (one 38) (framed k),
    append_assoc s (38 ∷ framed k) (framed v),
    append_assoc s (38 ∷ (framed k ++ framed v)) (pair_pieces ps),
  )

pub length-u8_piece : (p : PropertyType) (o : Option ℕ) → length (piece p one o) ≡ fixed_len 1 o
length-u8_piece p none = refl
length-u8_piece p (some v) = refl

pub length-u16_piece : (p : PropertyType) (o : Option ℕ) → length (piece p be16 o) ≡ fixed_len 2 o
length-u16_piece p none = refl
length-u16_piece p (some v) = refl

pub length-u32_piece : (p : PropertyType) (o : Option ℕ) → length (piece p be32 o) ≡ fixed_len 4 o
length-u32_piece p none = refl
length-u32_piece p (some v) = refl

pub length-text_piece :
    (p : PropertyType) (o : Option (List ℕ)) → length (text_piece p o) ≡ string_len o
length-text_piece p none = refl
length-text_piece p (some v) = omega (arith, length-framed v)

pub length-pair_pieces : (ps : Pairs) → length (pair_pieces ps) ≡ pairs_len ps
length-pair_pieces [] = refl
length-pair_pieces ((k, v) ∷ ps) = omega (
  arith,
  length-append (framed k ++ framed v) (pair_pieces ps),
  length-append (framed k) (framed v),
  length-framed k,
  length-framed v,
  length-pair_pieces ps,
)
