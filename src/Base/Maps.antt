-- ===== src/Base/Maps.antt =====
-- `HashMap` with keys of type `u16`, as the list of its entries.
use Prim.Native.Nat.{ℕ}
use mathlib.Core.Bool.{Bool, true, false}
use mathlib.Core.Option.{Option, none, some}
use mathlib.Core.List.{List, [], ◌∷◌}
use for_mqtt_client.Base.Tests.{◌==◌, if◌then◌else◌}

module _ {A : Type 0} where
  abbrev pub get : ℕ → List (ℕ × A) → Option A
  get k [] = none
  get k (e ∷ m) = if e.0 == k then some e.1 else get k m

  abbrev pub contains_key : ℕ → List (ℕ × A) → Bool
  contains_key k [] = false
  contains_key k (e ∷ m) = if e.0 == k then true else contains_key k m

  -- Every entry of the key goes: `insert` leaves at most one.
  abbrev pub remove : ℕ → List (ℕ × A) → List (ℕ × A)
  remove k [] = []
  remove k (e ∷ m) = let rest = remove k m in if e.0 == k then rest else e ∷ rest

  abbrev pub insert : ℕ → A → List (ℕ × A) → List (ℕ × A)
  insert k a m = (k, a) ∷ remove k m
