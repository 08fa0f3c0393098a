-- ===== src/Network/Frames.antt =====
-- The fixed header of a stream.
use for_mqtt_client.Base.{
  ℕ, ◌^◌, ◌≤◌, ◌<◌, ◌≡◌, refl, List, [], ◌∷◌, ◌++◌, length, All, true, arith, ◌∙◌,
}
use for_mqtt_client.Outcome.{Outcome, ok, err, panic, out_of_fuel, is_answer, ◌>>=◌}
use for_mqtt_client.Protocol.{FixedHeader, FixedHeaderError, new_header, len_len}
use for_mqtt_client.Bytes.{IsByte}
use for_mqtt_client.Wire.{decode_length, length_loop, parse_fixed_header}
use for_mqtt_client.Wire.Lengths.{
  groups, IsLength, decode_length-groups, decode_length_bounds, decode_length_answers,
  decode_length-append, decode_length-append_malformed,
}

abbrev pub malformed : Outcome FixedHeaderError FixedHeader
malformed = err FixedHeaderError.malformed_remaining_length

-- A header of two to five bytes that stands in the stream, with a length of 28 bits.
pub record IsHeaderOf (s : List ℕ) (h : FixedHeader) : Type 0 where
  pub at_least : 2 ≤ h.fixed_header_len
  pub at_most : h.fixed_header_len ≤ 5
  pub stands : h.fixed_header_len ≤ length s
  pub fits : h.remaining_len < 2 ^ 28

parse_cons :
    (byte1 : ℕ) (s : List ℕ) {r : ℕ × ℕ}
    → decode_length s ≡ ok r
    → parse_fixed_header (byte1 ∷ s) ≡ ok (new_header byte1 r.0 r.1)
unfolding parse_fixed_header decode_length length_loop
parse_cons byte1 [] e = cc
parse_cons byte1 (y ∷ s) e = rw e refl

parse_cons_malformed :
    (byte1 : ℕ) (s : List ℕ)
    → decode_length s ≡ err FixedHeaderError.malformed_remaining_length
    → parse_fixed_header (byte1 ∷ s) ≡ malformed
unfolding parse_fixed_header decode_length length_loop
parse_cons_malformed byte1 [] e = cc
parse_cons_malformed byte1 (y ∷ s) e = rw e refl

pub parse-groups :
    (byte1 n : ℕ) (rest : List ℕ)
    → n < 2 ^ 28
    → parse_fixed_header (byte1 ∷ (groups 3 n ++ rest)) ≡ ok (new_header byte1 (len_len n) n)
parse-groups byte1 n rest h = parse_cons byte1 (groups 3 n ++ rest) (decode_length-groups n rest h)

pub parse_answers : (s : List ℕ) → is_answer (parse_fixed_header s) ≡ true
unfolding parse_fixed_header
parse_answers [] = refl
parse_answers (x ∷ []) = refl
parse_answers (x ∷ y ∷ s) = ground (arith, decode_length_answers (y ∷ s))

pub parse-IsHeaderOf :
    (s : List ℕ) (h : FixedHeader) → All IsByte s → parse_fixed_header s ≡ ok h → IsHeaderOf s h
unfolding parse_fixed_header
parse-IsHeaderOf [] h hb e = cc
parse-IsHeaderOf (x ∷ []) h hb e = cc
parse-IsHeaderOf (x ∷ y ∷ s) h hb e =
    go (decode_length (y ∷ s)) (λ r. decode_length_bounds (y ∷ s) r.0 r.1 hb.1) e
  where
    go :
        (d : Outcome FixedHeaderError (ℕ × ℕ))
        → ((r : ℕ × ℕ) → d ≡ ok r → IsLength (y ∷ s) r)
        → (d >>= λ (len_len, len). ok (new_header x len_len len)) ≡ ok h
        → IsHeaderOf (x ∷ y ∷ s) h
    go (ok r) k e = ground (arith, k r refl)
    go (err x) k e = cc
    go panic k e = cc
    go out_of_fuel k e = cc

pub parse-append :
    (s t : List ℕ) {h : FixedHeader}
    → parse_fixed_header s ≡ ok h
    → parse_fixed_header (s ++ t) ≡ ok h
unfolding parse_fixed_header
parse-append [] t e = cc
parse-append (x ∷ []) t e = cc
parse-append (x ∷ y ∷ s) t {h} e =
    go (decode_length (y ∷ s)) (λ r. decode_length-append (y ∷ s) t {r = r}) e
  where
    go :
        (d : Outcome FixedHeaderError (ℕ × ℕ))
        → ((r : ℕ × ℕ) → d ≡ ok r → decode_length (y ∷ s ++ t) ≡ ok r)
        → (d >>= λ (len_len, len). ok (new_header x len_len len)) ≡ ok h
        → parse_fixed_header (x ∷ y ∷ s ++ t) ≡ ok h
    go (ok r) k e = parse_cons x (y ∷ s ++ t) (k r refl) ∙ e
    go (err x) k e = cc
    go panic k e = cc
    go out_of_fuel k e = cc

pub parse-append_malformed :
    (s t : List ℕ) → parse_fixed_header s ≡ malformed → parse_fixed_header (s ++ t) ≡ malformed
unfolding parse_fixed_header
parse-append_malformed [] t e = cc
parse-append_malformed (x ∷ []) t e = cc
parse-append_malformed (x ∷ y ∷ s) t e =
    go (decode_length (y ∷ s)) (decode_length-append_malformed (y ∷ s) t) e
  where
    go :
        (d : Outcome FixedHeaderError (ℕ × ℕ))
        → (d ≡ err FixedHeaderError.malformed_remaining_length
            → decode_length (y ∷ s ++ t) ≡ err FixedHeaderError.malformed_remaining_length)
        → (d >>= λ (len_len, len). ok (new_header x len_len len)) ≡ malformed
        → parse_fixed_header (x ∷ y ∷ s ++ t) ≡ malformed
    go (err FixedHeaderError.malformed_remaining_length) k e =
        parse_cons_malformed x (y ∷ s ++ t) (k refl)
    go (ok r) k e = cc
    go (err x) k e = cc
    go panic k e = cc
    go out_of_fuel k e = cc
