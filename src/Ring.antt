-- ===== src/Ring.antt =====
-- The part of the crate `ringbuf` that the pool of packet identifiers uses: `SharedRb::new(65535)`, seen
-- through what it holds, first in first. The methods are fields, the laws their documented behaviour.
pub mod Model
use for_mqtt_client.Base.{ℕ, ◌≤◌, ◌<◌, ◌≡◌, Option, none, some, List, [], ◌∷◌, ◌++◌, length}

-- `SharedRb::new(65535)`
abbrev pub capacity : ℕ
capacity = 65535

pub record RingCrate : Type 0 where
  -- `Producer::push`: the buffer with the value, unless it is full.
  pub push : List ℕ → ℕ → Option (List ℕ)
  -- `Consumer::pop`: the oldest value and the buffer without it, unless it is empty.
  pub pop : List ℕ → Option (ℕ × List ℕ)
  pub push_law : (s : List ℕ) (x : ℕ) → length s < capacity → push s x ≡ some (s ++ (x ∷ []))
  pub push_full_law : (s : List ℕ) (x : ℕ) → capacity ≤ length s → push s x ≡ none
  pub pop_law : (x : ℕ) (s : List ℕ) → pop (x ∷ s) ≡ some (x, s)
  pub pop_empty_law : pop [] ≡ none
