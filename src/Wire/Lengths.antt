-- ===== src/Wire/Lengths.antt =====
-- The variable byte integer: `write_remaining_length` against `decode_length`.
use for_mqtt_client.Base.{
  true, arith, if◌then◌else◌, ltb, All, length, bit_and, append_assoc, ◌++◌, ◌∷◌, [], List, ◌∙◌, ap,
  refl, ◌≡◌, ◌<◌, ◌≤◌, ◌^◌, ◌%◌, ◌/◌, ◌*◌, ◌+◌, suc, zero, ℕ,
}
use for_mqtt_client.Base.Bits.{low_bits, top_bit, set_top_bit}
use for_mqtt_client.Base.Order.{lt_wf}
use for_mqtt_client.Outcome.{ok, err, is_answer}
use for_mqtt_client.Protocol.{FixedHeaderError, len_len}
use for_mqtt_client.Bytes.{BytesCrate, IsByte}
use for_mqtt_client.Wire.{length_loop, decode_length, write_length_loop, write_remaining_length}
use mathlib.Core.WellFounded.{Acc}
use native.Mathlib.Numerals.{towards_suc}
use native.Mathlib.Nat.{div-add-mod}

-- The groups of seven bits of `x`, lowest first, at most `k + 1` of them.
unfoldable pub groups : ℕ → ℕ → List ℕ
groups zero x = x ∷ []
groups (suc k) x = if ltb x 128 then x ∷ [] else (x % 128 + 128) ∷ groups k (x / 128)

module _ ⦃b : BytesCrate⦄ where
  write_length_loop-groups :
      (k : ℕ) (s : List ℕ) (count x : ℕ) (w : Acc ◌<◌ x)
      → x < 128 ^ suc k
      → write_length_loop s count x w ≡ (s ++ groups k x, count + length (groups k x))
  unfolding write_length_loop groups
  write_length_loop-groups zero s count x (Acc.intro _ smaller) h =
      ground (arith, b.put_u8_law s (x % 128))
  write_length_loop-groups (suc k) s count x (Acc.intro _ smaller) h = grind (
    arith,
    b.put_u8_law s (x % 128),
    b.put_u8_law s (x % 128 + 128),
    set_top_bit (x % 128),
    append_assoc s ((x % 128 + 128) ∷ []) (groups k (x / 128)),
    λ (w : Acc ◌<◌ (x / 128)).
        write_length_loop-groups k (s ++ ((x % 128 + 128) ∷ [])) (count + 1) (x / 128) w
          (omega arith),
  )

  -- Below 2^28 the encoding is appended to the buffer, and its length returned.
  pub write_remaining_length-groups :
      (s : List ℕ) (n : ℕ)
      → n < 2 ^ 28
      → write_remaining_length s n ≡ (s ++ groups 3 n, length (groups 3 n))
  unfolding write_remaining_length
  write_remaining_length-groups s n h =
      write_length_loop-groups 3 s 0 n (lt_wf.apply n) h ∙ ground arith

pub length-groups : (n : ℕ) → n < 2 ^ 28 → length (groups 3 n) ≡ len_len n
unfolding groups len_len
length-groups n h = ground arith

next_shift : (shift : ℕ) → 128 * 2 ^ shift ≡ 2 ^ (shift + 7)
next_shift shift = simp towards_suc (omega arith)

-- A value is its lowest group and, seven bits further up, the others.
group_value : (shift v : ℕ) → v % 128 * 2 ^ shift + v / 128 * 2 ^ (shift + 7) ≡ v * 2 ^ shift
group_value shift v =
    let whole = ap (λ n. n * 2 ^ shift) (div-add-mod v 128) in
    rw (← next_shift shift) (omega (arith, whole))

-- The loop on a last group, and on one that another follows.
loop_last :
    (w len count shift : ℕ) (rest : List ℕ)
    → w < 128
    → length_loop (w ∷ rest) len count shift ≡ ok (count + 1, len + w * 2 ^ shift)
unfolding length_loop
loop_last w len count shift rest h = ground (arith, low_bits w, top_bit w)

loop_more :
    (g len count shift : ℕ) (rest : List ℕ)
    → g < 128
    → shift + 7 ≤ 21
    → length_loop ((g + 128) ∷ rest) len count shift
      ≡ length_loop rest (len + g * 2 ^ shift) (count + 1) (shift + 7)
unfolding length_loop
loop_more g len count shift rest h hs = ground (arith, low_bits (g + 128), top_bit (g + 128))

length_loop-groups :
    (k x len count shift : ℕ) (rest : List ℕ)
    → x < 128 ^ suc k
    → shift + 7 * k ≤ 21
    → length_loop (groups k x ++ rest) len count shift
      ≡ ok (count + length (groups k x), len + x * 2 ^ shift)
unfolding groups
length_loop-groups zero x len count shift rest h hs = loop_last x len count shift rest h
length_loop-groups (suc k) x len count shift rest h hs = ground (
  arith,
  loop_last x len count shift rest,
  loop_more (x % 128) len count shift (groups k (x / 128) ++ rest),
  group_value shift x,
  length_loop-groups k (x / 128) (len + x % 128 * 2 ^ shift) (count + 1) (shift + 7) rest
      (omega arith),
)

pub decode_length-groups :
    (n : ℕ) (rest : List ℕ) → n < 2 ^ 28 → decode_length (groups 3 n ++ rest) ≡ ok (len_len n, n)
unfolding decode_length
decode_length-groups n rest h = ground (arith, length_loop-groups 3 n 0 0 0 rest, length-groups n h)

-- What a successful decoding has read: one to four bytes of those given, and a value of 28 bits.
abbrev pub IsLength : List ℕ → ℕ × ℕ → Type 0
IsLength s r = (1 ≤ r.0) × (r.0 ≤ 4) × (r.0 ≤ length s) × (r.1 < 2 ^ 28)

pow_28 : (shift j : ℕ) → shift ≡ 7 * j → j ≤ 3 → 128 * 2 ^ shift ≤ 2 ^ 28
pow_28 shift zero e h = rw e (omega arith)
pow_28 shift (suc zero) e h = rw e (omega arith)
pow_28 shift (suc (suc zero)) e h = rw e (omega arith)
pow_28 shift (suc (suc (suc zero))) e h = rw e (omega arith)
pow_28 shift (suc (suc (suc (suc j)))) e h = absurd (omega arith)

group_fits : (a len shift : ℕ) → len < 2 ^ shift → len + a % 128 * 2 ^ shift < 128 * 2 ^ shift
group_fits a len shift h = grind arith

length_loop_bounds :
    (s : List ℕ) (len j shift n v : ℕ)
    → All IsByte s
    → j ≤ 3
    → shift ≡ 7 * j
    → len < 2 ^ shift
    → length_loop s len j shift ≡ ok (n, v)
    → (j + 1 ≤ n) × (n ≤ 4) × (n ≤ length s + j) × (v < 2 ^ 28)
unfolding length_loop
length_loop_bounds [] len j shift n v hb hj hs hl e = cc
length_loop_bounds (a ∷ s) len j shift n v hb hj hs hl e = ground (
  arith,
  low_bits a hb.0,
  group_fits a len shift hl,
  next_shift shift,
  pow_28 shift j hs hj,
  length_loop_bounds s (len + a % 128 * 2 ^ shift) (j + 1) (shift + 7) n v hb.1,
)

-- A length that `length` decodes from a list of bytes takes one to four of them and is below 2^28.
pub decode_length_bounds :
    (s : List ℕ) (n v : ℕ) → All IsByte s → decode_length s ≡ ok (n, v) → IsLength s (n, v)
unfolding decode_length
decode_length_bounds s n v hb e =
    omega (arith, length_loop_bounds s 0 0 0 n v hb (omega arith) (omega arith) (omega arith) e)

length_loop_answers :
    (s : List ℕ) (len count shift : ℕ) → is_answer (length_loop s len count shift) ≡ true
unfolding length_loop
length_loop_answers [] len count shift = refl
length_loop_answers (a ∷ s) len count shift =
    ground (arith, length_loop_answers s (len + bit_and a 127 * 2 ^ shift) (count + 1) (shift + 7))

pub decode_length_answers : (s : List ℕ) → is_answer (decode_length s) ≡ true
unfolding decode_length
decode_length_answers s = length_loop_answers s 0 0 0

length_loop-append :
    (s t : List ℕ) (len count shift : ℕ) {r : ℕ × ℕ}
    → length_loop s len count shift ≡ ok r
    → length_loop (s ++ t) len count shift ≡ ok r
unfolding length_loop
length_loop-append [] t len count shift e = cc
length_loop-append (a ∷ s) t len count shift {r} e = ground (
  arith,
  length_loop-append s t (len + bit_and a 127 * 2 ^ shift) (count + 1) (shift + 7) {r = r},
)

length_loop-append_malformed :
    (s t : List ℕ) (len count shift : ℕ)
    → length_loop s len count shift ≡ err FixedHeaderError.malformed_remaining_length
    → length_loop (s ++ t) len count shift ≡ err FixedHeaderError.malformed_remaining_length
unfolding length_loop
length_loop-append_malformed [] t len count shift e = cc
length_loop-append_malformed (a ∷ s) t len count shift e = ground (
  arith,
  length_loop-append_malformed s t (len + bit_and a 127 * 2 ^ shift) (count + 1) (shift + 7),
)

-- A length that `length` decodes from some bytes, it decodes from every longer list of bytes.
pub decode_length-append :
    (s t : List ℕ) {r : ℕ × ℕ} → decode_length s ≡ ok r → decode_length (s ++ t) ≡ ok r
unfolding decode_length
decode_length-append s t e = length_loop-append s t 0 0 0 e

pub decode_length-append_malformed :
    (s t : List ℕ)
    → decode_length s ≡ err FixedHeaderError.malformed_remaining_length
    → decode_length (s ++ t) ≡ err FixedHeaderError.malformed_remaining_length
unfolding decode_length
decode_length-append_malformed s t e = length_loop-append_malformed s t 0 0 0 e
