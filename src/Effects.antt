-- ===== src/Effects.antt =====
-- Code that calls services. A run is the state of the services, which each call may change in any way
-- (the other clients of those services act between two calls), and the trace of what this code has
-- made them do, latest first.
pub mod Keeps
pub mod Yields
pub mod Triples
pub mod Ends
pub mod Deferred
pub mod Adds
pub mod Settled
use sbombastic.Common.{
  ℕ, zero, suc, ◌≡◌, List, [], ◌∷◌, ◌++◌, Error, Result, ok, err, panic, is_conflict, if◌then◌else◌,
}

pub record Run (W E : Type 0) : Type 0 where
  pub world : W
  pub trace : List E

abbrev pub Eff : Type 0 → Type 0 → Type 0 → Type 0
Eff W E A = Run W E → Result A × Run W E

module _ {W E A : Type 0} where
  abbrev pub pure : A → Eff W E A
  pure a s = (ok a, s)

  abbrev pub fail : Error → Eff W E A
  fail e s = (err e, s)

  abbrev pub lift : Result A → Eff W E A
  lift r s = (r, s)

  -- A service call: the service answers and moves on, and if it answers with a value the events that
  -- the value stands for have happened.
  abbrev pub answered : Result A × W → (A → List E) → List E → Result A × Run W E
  answered (ok a, w) events t = (ok a, record { world = w; trace = events a ++ t })
  answered (err e, w) events t = (err e, record { world = w; trace = t })
  answered (panic, w) events t = (panic, record { world = w; trace = t })

  abbrev pub call : (W → Result A × W) → (A → List E) → Eff W E A
  call op events s = answered (op s.world) events s.trace

  abbrev pub read : (W → Result A × W) → Eff W E A
  read op = call op (λ _. [])

  -- retry.RetryOnConflict of k8s.io/client-go, as its documentation describes it: the body is run
  -- again, some number of times, while the server answers with a conflict.
  abbrev again : Eff W E A → Result A × Run W E → Result A × Run W E
  again next (err Error.conflict, s) = next s
  again next (r, s) = (r, s)

  unfoldable pub attempts : ℕ → Eff W E A → Eff W E A
  attempts zero body s = body s
  attempts (suc n) body s = let next = attempts n body in again next (body s)

module _ {W E A B : Type 0} where
  abbrev pub resume :
      Result A × Run W E → (Error → Eff W E B) → (A → Eff W E B) → Result B × Run W E
  resume (ok a, s) failed next = next a s
  resume (err e, s) failed next = failed e s
  resume (panic, s) failed next = (panic, s)

  -- `a, err := m; if err != nil { failed }; next`, where both ways on return from the function.
  abbrev pub branch : Eff W E A → (Error → Eff W E B) → (A → Eff W E B) → Eff W E B
  branch m failed next s = resume (m s) failed next

  infixl 5 ◌>>=◌ ◌>>◌
  abbrev pub ◌>>=◌ : Eff W E A → (A → Eff W E B) → Eff W E B
  ◌>>=◌ m next = branch m fail next

  abbrev pub ◌>>◌ : Eff W E A → Eff W E B → Eff W E B
  ◌>>◌ m next = branch m fail (λ _. next)

pub record Retry (W E A : Type 0) : Type 0 where
  pub retry : Eff W E A → Eff W E A
  pub retried : (body : Eff W E A) (s : Run W E) → (n : ℕ) × (retry body s ≡ attempts n body s)

module _ {W E A : Type 0} where
  -- A loop whose body returns from the function on an error.
  unfoldable pub for_each : List A → (A → Eff W E (Unit {0})) → Eff W E (Unit {0})
  for_each [] body = pure tt
  for_each (x ∷ xs) body = body x >> for_each xs body
