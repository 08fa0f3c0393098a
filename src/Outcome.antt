-- ===== src/Outcome.antt =====
-- What a call of a Rust function comes to.
use for_mqtt_client.Base.{◌≡◌, refl, Bool, true, false}

-- `Result<A, E>`, with two more outcomes: the call panics, or a loop of the model has used up its fuel.
pub data Outcome {ℓ} (E : Type 0) (A : Type ℓ) : Type ℓ where
  ok : A → Outcome E A
  err : E → Outcome E A
  panic : Outcome E A
  out_of_fuel : Outcome E A

-- The `?` operator.
infixl 5 ◌>>=◌
abbrev pub ◌>>=◌ {ℓ κ} :
    {E : Type 0} {A : Type ℓ} {B : Type κ} → Outcome E A → (A → Outcome E B) → Outcome E B
ok a >>= f = f a
err e >>= f = err e
panic >>= f = panic
out_of_fuel >>= f = out_of_fuel

-- `map_err`, which is also what `?` does to an error of another type.
abbrev pub map_err {ℓ} : {E F : Type 0} {A : Type ℓ} → (E → F) → Outcome E A → Outcome F A
map_err g (ok a) = ok a
map_err g (err e) = err (g e)
map_err g panic = panic
map_err g out_of_fuel = out_of_fuel

-- The call returns, with a value that satisfies `P` or with an error.
pub data Returns {ℓ} {E : Type 0} {A : Type ℓ} (P : A → Type 0) : Outcome E A → Type ℓ where
  returns_ok : {a : A} → P a → Returns P (ok a)
  returns_err : {e : E} → Returns P (err e)

module _ {ℓ κ} {E : Type 0} {A : Type ℓ} {B : Type κ} where
  pub Returns-bind :
      {P : A → Type 0} {Q : B → Type 0} {r : Outcome E A} {f : A → Outcome E B}
      → Returns P r
      → ((a : A) → P a → Returns Q (f a))
      → Returns Q (r >>= f)
  Returns-bind (returns_ok p) k = k _ p
  Returns-bind returns_err k = returns_err

  -- A chain that succeeds has succeeded in its first call and in its second.
  pub ok-of_bind :
      (first : Outcome E A) {next : A → Outcome E B} {y : B}
      → (first >>= next) ≡ ok y
      → (x : A) × (next x ≡ ok y) × (first ≡ ok x)
  ok-of_bind out_of_fuel e = cc
  ok-of_bind panic e = cc
  ok-of_bind (err _) e = cc
  ok-of_bind (ok x) e = (x, e, refl)

module _ {ℓ} {E F : Type 0} {A : Type ℓ} where
  pub Returns-map_err :
      {P : A → Type 0} (g : E → F) {r : Outcome E A} → Returns P r → Returns P (map_err g r)
  Returns-map_err g (returns_ok p) = returns_ok p
  Returns-map_err g returns_err = returns_err

pub Returns-weaken {ℓ} :
    {E : Type 0} {A : Type ℓ} {P Q : A → Type 0} {r : Outcome E A}
    → ((a : A) → P a → Q a)
    → Returns P r
    → Returns Q r
Returns-weaken w (returns_ok p) = returns_ok (w _ p)
Returns-weaken w returns_err = returns_err

abbrev pub is_answer {ℓ} : {E : Type 0} {A : Type ℓ} → Outcome E A → Bool
is_answer (ok a) = true
is_answer (err e) = true
is_answer panic = false
is_answer out_of_fuel = false

pub Returns-of_answer {ℓ} :
    {E : Type 0} {A : Type ℓ} (r : Outcome E A) → is_answer r ≡ true → Returns (λ _. Unit {0}) r
Returns-of_answer (ok a) h = returns_ok tt
Returns-of_answer (err e) h = returns_err
Returns-of_answer panic h = cc
Returns-of_answer out_of_fuel h = cc
