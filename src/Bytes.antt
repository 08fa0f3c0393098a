-- ===== src/Bytes.antt =====
-- The part of the crate `bytes` that the packets use. `Bytes` and `BytesMut` are seen through what
-- they hold, a list of `u8`; the methods are fields, and the laws are their documented behaviour.
-- There is no law for a call outside of its bounds.
pub mod Model
use for_mqtt_client.Base.{
  ℕ, suc, ◌+◌, ◌*◌, ◌/◌, ◌%◌, ◌≤◌, ◌<◌, ◌≡◌, List, [], ◌∷◌, ◌++◌, length, take, drop,
}
use for_mqtt_client.Outcome.{Outcome, ok}
use for_mqtt_client.Protocol.{PacketParseError}

pub record BytesCrate : Type 0 where
  pub get_u8 : List ℕ → Outcome PacketParseError (ℕ × List ℕ)
  pub get_u16 : List ℕ → Outcome PacketParseError (ℕ × List ℕ)
  pub get_u32 : List ℕ → Outcome PacketParseError (ℕ × List ℕ)
  pub advance : ℕ → List ℕ → Outcome PacketParseError (List ℕ)
  pub split_to : ℕ → List ℕ → Outcome PacketParseError (List ℕ × List ℕ)
  pub put_u8 : List ℕ → ℕ → List ℕ
  pub put_u16 : List ℕ → ℕ → List ℕ
  pub put_u32 : List ℕ → ℕ → List ℕ
  pub extend_from_slice : List ℕ → List ℕ → List ℕ
  pub get_u8_law : (a : ℕ) (rest : List ℕ) → get_u8 (a ∷ rest) ≡ ok (a, rest)
  pub get_u16_law : (a b : ℕ) (rest : List ℕ) → get_u16 (a ∷ b ∷ rest) ≡ ok (a * 256 + b, rest)
  pub get_u32_law :
      (a b c d : ℕ) (rest : List ℕ)
      → get_u32 (a ∷ b ∷ c ∷ d ∷ rest) ≡ ok (((a * 256 + b) * 256 + c) * 256 + d, rest)
  pub advance_law : (n : ℕ) (s : List ℕ) → n ≤ length s → advance n s ≡ ok (drop n s)
  pub split_to_law : (n : ℕ) (s : List ℕ) → n ≤ length s → split_to n s ≡ ok (take n s, drop n s)
  pub put_u8_law : (s : List ℕ) (a : ℕ) → a < 256 → put_u8 s a ≡ s ++ (a ∷ [])
  pub put_u16_law : (s : List ℕ) (a : ℕ) → a < 65536 → put_u16 s a ≡ s ++ (a / 256 ∷ a % 256 ∷ [])
  pub put_u32_law :
      (s : List ℕ) (a : ℕ)
      → a < 4294967296
      → put_u32 s a ≡ s ++ (a / 16777216 ∷ a / 65536 % 256 ∷ a / 256 % 256 ∷ a % 256 ∷ [])
  pub extend_law : (s t : List ℕ) → extend_from_slice s t ≡ s ++ t

abbrev pub IsByte : ℕ → Type 0
IsByte b = b < 256
