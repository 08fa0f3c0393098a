-- ===== src/Task.antt =====
-- The language of the tasks other than the hub: a function of the state of the task, with the `?`
-- operator. The inputs of a task are a list; where the list ends, the task waits.
use for_mqtt_client.Outcome.{Outcome, ok, err, panic, out_of_fuel}

-- Why a task goes no further: an error, or an input that has not come.
pub data Stop (E : Type 0) : Type 0 where
  failed : E → Stop E
  waits : Stop E

abbrev pub Task : Type 0 → Type 0 → Type 0 → Type 0
Task S E A = S → S × Outcome (Stop E) A

abbrev pub continue_with :
    {S E A B : Type 0} → (A → Task S E B) → S × Outcome (Stop E) A → S × Outcome (Stop E) B
continue_with f (s, ok a) = f a s
continue_with f (s, err e) = (s, err e)
continue_with f (s, panic) = (s, panic)
continue_with f (s, out_of_fuel) = (s, out_of_fuel)

-- The `?` operator.
infixl 5 ◌>>=◌
abbrev pub ◌>>=◌ : {S E A B : Type 0} → Task S E A → (A → Task S E B) → Task S E B
(m >>= f) s = continue_with f (m s)

infixl 5 ◌>>◌
abbrev pub ◌>>◌ : {S E A B : Type 0} → Task S E A → Task S E B → Task S E B
(m >> n) s = continue_with (λ _. n) (m s)

abbrev pub return : {S E A : Type 0} → A → Task S E A
return a s = (s, ok a)

abbrev pub fail : {S E A : Type 0} → E → Task S E A
fail e s = (s, err (Stop.failed e))

abbrev pub wait : {S E A : Type 0} → Task S E A
wait s = (s, err Stop.waits)

-- What `?` does to an error of another type.
abbrev pub convert : {E F A : Type 0} → (E → F) → Outcome (Stop E) A → Outcome (Stop F) A
convert g (ok a) = ok a
convert g (err (Stop.failed e)) = err (Stop.failed (g e))
convert g (err Stop.waits) = err Stop.waits
convert g panic = panic
convert g out_of_fuel = out_of_fuel

abbrev pub converting : {S E F A : Type 0} → (E → F) → Task S E A → Task S F A
converting g m s = ((m s).0, convert g (m s).1)
