-- ===== src/Hub/Delivery.antt =====
-- Which publishes of the broker the hub of src/tasks/task_hub/mod.rs gives to the user, and how often.
use for_mqtt_client.Base.{
  ℕ, ◌+◌, ◌≤◌, Option, none, some, List, [], ◌∷◌, ◌≡◌, ◌≢◌, refl, arith, Bool-cases, inl, inr,
  if◌then◌else◌, ◌==◌,
}
use mathlib.Core.Option.{some-injective}
use for_mqtt_client.Base.Maps.{get, contains_key, remove}
use for_mqtt_client.Packet.Qos.{packet_id}
use for_mqtt_client.Packet.Publish.{Publish}
use for_mqtt_client.Client.Data.{publish_event}
use for_mqtt_client.Hub.World.{World, Action, tell}

abbrev pub matches : ℕ → Option ℕ → ℕ
matches x none = 0
matches x (some k) = if k == x then 1 else 0

-- 1 for a publish with the packet identifier.
abbrev pub has_id : ℕ → Publish → ℕ
has_id x p = matches x (packet_id p.qos)

abbrev pub delivers : ℕ → Action → ℕ
delivers x (tell (publish_event p)) = has_id x p
delivers x _ = 0

-- How many publishes with the packet identifier the user has been given.
unfoldable pub delivered : ℕ → List Action → ℕ
delivered x [] = 0
delivered x (a ∷ rest) = delivers x a + delivered x rest

-- How many the hub holds for the user.
unfoldable pub held : ℕ → List (ℕ × Publish) → ℕ
held x [] = 0
held x (e ∷ m) = has_id x e.1 + held x m

-- Whether the identifier is free for a new publish of the broker.
abbrev pub free : ℕ → List (ℕ × ℕ) → ℕ
free x m = if contains_key x m then 0 else 1

-- The publishes with the identifier that the user has, or may still get without another `AffirmRxId`.
abbrev pub pending : ℕ → World → ℕ
pending x w = delivered x w.done + held x w.hub.rx_publish + free x w.hub.rx_publish_id

pub held-remove : (x k : ℕ) (m : List (ℕ × Publish)) → held x (remove k m) ≤ held x m
unfolding held
held-remove x k [] = omega arith
held-remove x k (e ∷ m) = elim (Bool-cases (e.0 == k)) [
  | inl h ↦ rw h (omega (arith, held-remove x k m))
  | inr h ↦ rw h (omega (arith, held-remove x k m))
]

pub held-get :
    (x k : ℕ) (m : List (ℕ × Publish)) (p : Publish)
    → get k m ≡ some p
    → held x (remove k m) + has_id x p ≤ held x m
unfolding held
held-get x k [] p e = cc
held-get x k (d ∷ m) p e = elim (Bool-cases (d.0 == k)) [
  | inl h ↦
      let same = some-injective _ _ (rw h at e) in rw (h, ← same) (omega (arith, held-remove x k m))
  | inr h ↦ rw h (omega (arith, held-get x k m p (rw h at e)))
]

pub contains_key-remove :
    (x k : ℕ) (m : List (ℕ × ℕ)) → k ≢ x → contains_key x (remove k m) ≡ contains_key x m
contains_key-remove x k [] n = refl
contains_key-remove x k (e ∷ m) n = ground (arith, contains_key-remove x k m n)
