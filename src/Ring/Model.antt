-- ===== src/Ring/Model.antt =====
-- A ring buffer that keeps the laws: the list itself.
use for_mqtt_client.Base.{
  ℕ, refl, Option, none, some, List, [], ◌∷◌, ◌++◌, length, ltb, if◌then◌else◌, lt→ltb, le→not_ltb,
}
use for_mqtt_client.Ring.{RingCrate, capacity}

abbrev push : List ℕ → ℕ → Option (List ℕ)
push s x = if ltb (length s) capacity then some (s ++ (x ∷ [])) else none

abbrev pop : List ℕ → Option (ℕ × List ℕ)
pop [] = none
pop (x ∷ s) = some (x, s)

abbrev pub list_ring : RingCrate
list_ring = record {
  push = push;
  pop = pop;
  push_law = λ s x h. rw (lt→ltb (length s) capacity h);
  push_full_law = λ s x h. rw (le→not_ltb (length s) capacity h);
  pop_law = λ x s. refl;
  pop_empty_law = refl;
}
