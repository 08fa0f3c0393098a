-- ===== src/Hub/Identifiers.antt =====
-- The packet identifiers that a hub hands out, from the loop in `TaskHub::connect` of
-- src/tasks/task_hub/mod.rs on, which fills the ring buffer.
use for_mqtt_client.Base.{
  ℕ, zero, suc, ◌+◌, ◌≤◌, ◌<◌, Option, none, some, List, [], ◌∷◌, ◌++◌, ◌≡◌, refl, length, arith,
  if◌then◌else◌, leb, ltb, ◌&&◌, append_assoc, append-nil, length-append, ◌∙◌, ap, sym,
}
use mathlib.Core.Option.{some-injective}
use mathlib.Core.Path.{subst}
use for_mqtt_client.Protocol.{Protocol}
use for_mqtt_client.Options.{MqttOptions}
use for_mqtt_client.Bytes.{BytesCrate}
use for_mqtt_client.Ring.{RingCrate, capacity}
use for_mqtt_client.Hub.Data.{to_connect}
use for_mqtt_client.Hub.World.{World, EventBus}
use for_mqtt_client.Hub.Connection.{Input, run}
use for_mqtt_client.Hub.Pool.{count, count_ids}
use for_mqtt_client.Hub.Ownership.{Owns, run-Owns}

-- The numbers from `i` on, `k` of them.
unfoldable pub numbers : ℕ → ℕ → List ℕ
numbers i zero = []
numbers i (suc k) = i ∷ numbers (suc i) k

length-numbers : (k i : ℕ) → length (numbers i k) ≡ k
unfolding numbers
length-numbers zero i = refl
length-numbers (suc k) i = omega (arith, length-numbers k (suc i))

count_below : (k i x : ℕ) → x < i → count x (numbers i k) ≡ 0
unfolding numbers count
count_below zero i x h = refl
count_below (suc k) i x h = ground (arith, count_below k (suc i) x (omega arith))

-- How many requests may have the identifier `x`: one, if it is one of the `k` from `i` on.
abbrev pub slots : ℕ → ℕ → ℕ → ℕ
slots k i x = if leb i x && ltb x (i + k) then 1 else 0

count-numbers : (k i x : ℕ) → count x (numbers i k) ≡ slots k i x
unfolding numbers count
count-numbers zero i x = ground arith
count-numbers (suc k) i x = ground (arith, count_below k (suc i) x, count-numbers k (suc i) x)

abbrev and_then : {A B : Type 0} → Option A → (A → Option B) → Option B
and_then none f = none
and_then (some a) f = f a

module _ ⦃r : RingCrate⦄ where
  -- The loop of `connect`: `for i in 1..=u16::MAX`, which gives up at the first push that fails.
  unfoldable pub fill : ℕ → ℕ → List ℕ → Option (List ℕ)
  fill zero i pool = some pool
  fill (suc k) i pool = and_then (r.push pool i) (fill k (suc i))

  fill-numbers :
      (k i : ℕ) (pool : List ℕ)
      → length pool + k ≤ capacity
      → fill k i pool ≡ some (pool ++ numbers i k)
  unfolding fill numbers
  fill-numbers zero i pool h = ap some (sym (append-nil pool))
  fill-numbers (suc k) i pool h =
      rw
        (
          r.push_law pool i (omega arith),
          fill-numbers k (suc i) (pool ++ (i ∷ [])) (omega (arith, length-append pool (i ∷ []))),
        )
        (ap some (append_assoc pool (i ∷ []) (numbers (suc i) k)))

-- The hub that `connect` makes.
unfoldable pub new_hub : MqttOptions → Protocol → List ℕ → World
new_hub options protocol pool = record {
  hub = record {
    protocol = protocol;
    options = options;
    state = to_connect;
    rx_publish = [];
    rx_publish_id = [];
    client_data = [];
  };
  pool = pool;
  keep_alive_id = 0;
  calls = 0;
  done = [];
}

module _ ⦃b : BytesCrate⦄ ⦃r : RingCrate⦄ ⦃bus : EventBus⦄ where
  -- The hub behind the loop, unless the loop has given up.
  unfoldable pub connect : MqttOptions → Protocol → Option World
  unfolding new_hub
  connect options protocol =
      and_then (fill capacity 1 []) λ pool. some (new_hub options protocol pool)

  pub new_hub-Owns :
      (options : MqttOptions) (protocol : Protocol) (ids : List ℕ)
      → Owns ids (new_hub options protocol ids)
  unfolding new_hub count_ids
  new_hub-Owns options protocol ids = record { total = omega arith; shares = λ x. omega arith }

  -- The loop of `connect` fills the ring buffer without a failing push: the hub starts with the
  -- identifiers from 1 to 65535.
  pub connect_lem :
      (options : MqttOptions) (protocol : Protocol)
      → connect options protocol ≡ some (new_hub options protocol (numbers 1 capacity))
  unfolding connect
  connect_lem options protocol =
      ap (λ o. and_then o λ pool. some (new_hub options protocol pool))
        (fill-numbers capacity 1 [] (omega arith))

  -- Whatever a hub that `connect` has made goes through, at most one request that waits for the
  -- broker has the packet identifier `x`, and none if `x` is not between 1 and 65535.
  pub run-identifiers :
      (options : MqttOptions) (protocol : Protocol) (is : List Input) (x : ℕ) (w : World)
      → connect options protocol ≡ some w
      → count_ids x (run is w).hub.client_data ≤ slots capacity 1 x
  run-identifiers options protocol is x w e =
      let ids = numbers 1 capacity in
      let same = some-injective _ _ (sym (connect_lem options protocol) ∙ e) in
      let start = subst (Owns ids) same (new_hub-Owns options protocol ids) in
      let k = run-Owns ids is w (omega (arith, length-numbers capacity 1)) start in
      omega (arith, k.shares x, count-numbers capacity 1 x)
