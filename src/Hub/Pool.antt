-- ===== src/Hub/Pool.antt =====
-- The packet identifiers of src/tasks/task_hub/mod.rs: every one is either in the ring buffer or with one
-- request that is not acknowledged.
use for_mqtt_client.Base.{
  ℕ, suc, ◌+◌, ◌<◌, some, List, [], ◌∷◌, ◌++◌, ◌≡◌, refl, length, ◌==◌, if◌then◌else◌, arith,
  length-append, Bool-cases, inl, inr, ==_iff,
}
use for_mqtt_client.Hub.Unacknowledged.{
  UnacknowledgedClientData, publish_qos1, publish_qos2, packet_id, acknowledge, find, remove_found,
  replace_found,
}

-- How often a number stands in a list, and among the identifiers of the requests.
unfoldable pub count : ℕ → List ℕ → ℕ
count x [] = 0
count x (y ∷ ys) = (if y == x then 1 else 0) + count x ys

unfoldable pub count_ids : ℕ → List UnacknowledgedClientData → ℕ
count_ids x [] = 0
count_ids x (u ∷ us) = (if packet_id u == x then 1 else 0) + count_ids x us

pub count-append : (x : ℕ) (xs ys : List ℕ) → count x (xs ++ ys) ≡ count x xs + count x ys
unfolding count
count-append x [] ys = omega arith
count-append x (y ∷ xs) ys = omega (arith, count-append x xs ys)

count_ids-append :
    (x : ℕ) (us : List UnacknowledgedClientData) (u : UnacknowledgedClientData)
    → count_ids x (us ++ (u ∷ [])) ≡ count_ids x us + (if packet_id u == x then 1 else 0)
unfolding count_ids
count_ids-append x [] u = omega arith
count_ids-append x (v ∷ us) u = omega (arith, count_ids-append x us u)

-- The pool and the requests together hold `ids`, each as often as it stands there.
pub record AreShared (ids pool : List ℕ) (us : List UnacknowledgedClientData) : Type 0 where
  pub total : length pool + length us ≡ length ids
  pub shares : (x : ℕ) → count x pool + count_ids x us ≡ count x ids

remove_found_lem :
    (id : ℕ) (us : List UnacknowledgedClientData) (u : UnacknowledgedClientData)
    → find id us ≡ some u
    → (length us ≡ suc (length (remove_found id us)))
      × ((x : ℕ) → count_ids x us ≡ count_ids x (remove_found id us) + (if id == x then 1 else 0))
unfolding find remove_found count_ids
remove_found_lem id [] u e = cc
remove_found_lem id (v ∷ us) u e = elim (Bool-cases (packet_id v == id)) [
  | inl h ↦
      let same = (==_iff (packet_id v) id).0 h in rw h (omega arith, λ x. rw same (omega arith))
  | inr h ↦
      let k = remove_found_lem id us u (rw h at e) in
      rw h (omega (arith, k.0), λ x. omega (arith, k.1 x))
]

replace_found_lem :
    (id : ℕ) (us : List UnacknowledgedClientData) (new : UnacknowledgedClientData)
    → packet_id new ≡ id
    → (length (replace_found id new us) ≡ length us)
      × ((x : ℕ) → count_ids x (replace_found id new us) ≡ count_ids x us)
unfolding replace_found count_ids
replace_found_lem id [] new e = (refl, λ x. refl)
replace_found_lem id (v ∷ us) new e = elim (Bool-cases (packet_id v == id)) [
  | inl h ↦
      let same = (==_iff (packet_id v) id).0 h in
      rw h (omega arith, λ x. rw (e, same) (omega arith))
  | inr h ↦
      let k = replace_found_lem id us new e in rw h (omega (arith, k.0), λ x. omega (arith, k.1 x))
]

pub find-packet_id :
    (id : ℕ) (us : List UnacknowledgedClientData) (u : UnacknowledgedClientData)
    → find id us ≡ some u
    → packet_id u ≡ id
unfolding find
find-packet_id id [] u e = cc
find-packet_id id (v ∷ us) u e = elim (Bool-cases (packet_id v == id)) [
  | inl h ↦ let same = (==_iff (packet_id v) id).0 h in let e' = rw h at e in cc
  | inr h ↦ find-packet_id id us u (rw h at e)
]

-- A stage of a request keeps its identifier.
pub acknowledge-packet_id :
    (u : UnacknowledgedClientData) → packet_id (acknowledge u).0 ≡ packet_id u
unfolding acknowledge packet_id
acknowledge-packet_id (publish_qos1 packet) = refl
acknowledge-packet_id (publish_qos2 packet) = refl
acknowledge-packet_id _ = refl

-- The steps of the pool: an identifier goes to a request that is put at the end, a request is replaced by
-- its next stage, and one that is complete leaves its identifier to the pool.
pub AreShared-request :
    (ids : List ℕ) (x : ℕ) (pool : List ℕ) (us : List UnacknowledgedClientData)
    (u : UnacknowledgedClientData)
    → packet_id u ≡ x
    → AreShared ids (x ∷ pool) us
    → AreShared ids pool (us ++ (u ∷ []))
unfolding count
AreShared-request ids x pool us u e k = record {
  total = omega (arith, k.total, length-append us (u ∷ []));
  shares = λ y. rw (count_ids-append y us u, e) (omega (arith, k.shares y));
}

pub AreShared-replace :
    (ids : List ℕ) (id : ℕ) (pool : List ℕ) (us : List UnacknowledgedClientData)
    (new : UnacknowledgedClientData)
    → packet_id new ≡ id
    → AreShared ids pool us
    → AreShared ids pool (replace_found id new us)
AreShared-replace ids id pool us new e k =
    let r = replace_found_lem id us new e in
    record { total = omega (arith, k.total, r.0); shares = λ y. omega (arith, k.shares y, r.1 y) }

pub AreShared-remove :
    (ids : List ℕ) (id : ℕ) (pool : List ℕ) (us : List UnacknowledgedClientData)
    (u : UnacknowledgedClientData)
    → find id us ≡ some u
    → AreShared ids pool us
    → AreShared ids (pool ++ (id ∷ [])) (remove_found id us) × (length pool < length ids)
unfolding count
AreShared-remove ids id pool us u e k =
    let r = remove_found_lem id us u e in
    (
      record {
        total = omega (arith, k.total, r.0, length-append pool (id ∷ []));
        shares = λ y. rw (count-append y pool (id ∷ [])) (omega (arith, k.shares y, r.1 y));
      },
      omega (arith, k.total, r.0),
    )
