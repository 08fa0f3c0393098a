-- ===== src/Bytes/Model.antt =====
-- Lists with the methods of the crate `bytes`, which show that its laws can hold. They run in tests.
use for_mqtt_client.Base.{
  ℕ, ◌+◌, ◌*◌, ◌/◌, ◌%◌, ◌≤◌, ◌≡◌, refl, List, [], ◌∷◌, ◌++◌, length, take, drop, leb,
  if◌then◌else◌, arith,
}
use for_mqtt_client.Outcome.{Outcome, ok, panic}
use for_mqtt_client.Protocol.{PacketParseError}
use for_mqtt_client.Bytes.{BytesCrate}

abbrev Read : Type 0 → Type 0
Read A = Outcome PacketParseError A

abbrev list_get_u8 : List ℕ → Read (ℕ × List ℕ)
list_get_u8 [] = panic
list_get_u8 (a ∷ rest) = ok (a, rest)

abbrev list_get_u16 : List ℕ → Read (ℕ × List ℕ)
list_get_u16 (a ∷ b ∷ rest) = ok (a * 256 + b, rest)
list_get_u16 _ = panic

abbrev list_get_u32 : List ℕ → Read (ℕ × List ℕ)
list_get_u32 (a ∷ b ∷ c ∷ d ∷ rest) = ok (((a * 256 + b) * 256 + c) * 256 + d, rest)
list_get_u32 _ = panic

abbrev list_advance : ℕ → List ℕ → Read (List ℕ)
list_advance n s = if leb n (length s) then ok (drop n s) else panic

abbrev list_split_to : ℕ → List ℕ → Read (List ℕ × List ℕ)
list_split_to n s = if leb n (length s) then ok (take n s, drop n s) else panic

pub list_advance_law : (n : ℕ) (s : List ℕ) → n ≤ length s → list_advance n s ≡ ok (drop n s)
list_advance_law n s h = ground arith

pub list_split_to_law :
    (n : ℕ) (s : List ℕ) → n ≤ length s → list_split_to n s ≡ ok (take n s, drop n s)
list_split_to_law n s h = ground arith

abbrev pub list_bytes : BytesCrate
list_bytes = record {
  get_u8 = list_get_u8;
  get_u16 = list_get_u16;
  get_u32 = list_get_u32;
  advance = list_advance;
  split_to = list_split_to;
  put_u8 = λ s a. s ++ (a ∷ []);
  put_u16 = λ s a. s ++ (a / 256 ∷ a % 256 ∷ []);
  put_u32 = λ s a. s ++ (a / 16777216 ∷ a / 65536 % 256 ∷ a / 256 % 256 ∷ a % 256 ∷ []);
  extend_from_slice = λ s t. s ++ t;
  get_u8_law = λ a rest. refl;
  get_u16_law = λ a b rest. refl;
  get_u32_law = λ a b c d rest. refl;
  advance_law = list_advance_law;
  split_to_law = list_split_to_law;
  put_u8_law = λ s a h. refl;
  put_u16_law = λ s a h. refl;
  put_u32_law = λ s a h. refl;
  extend_law = λ s t. refl;
}
