-- ===== src/Effects/Keeps.antt =====
-- What a piece of code keeps, whatever the services answer: one rule for each way to build code.
use sbombastic.Common.{
  ℕ, zero, suc, ◌≡◌, refl, Bool, true, false, List, [], ◌∷◌, ◌++◌, Error, Result, ok, err, panic,
  if◌then◌else◌,
}
use mathlib.Core.Path.{subst, sym}
use sbombastic.Effects.Yields.{Yields}
use sbombastic.Effects.{
  Run, Eff, pure, fail, lift, call, read, answered, attempts, resume, branch, Retry, for_each,
  again,
}

-- `m` keeps `Q` of the trace, on every way out of it.
pub record Keeps {ℓ} {W E A : Type 0} (Q : List E → Type ℓ) (m : Eff W E A) : Type ℓ where
  pub keep : (s : Run W E) → Q s.trace → Q (m s).1.trace

module _ {ℓ} {W E A : Type 0} {Q : List E → Type ℓ} where
  pub Keeps-pure : (a : A) → Keeps {W = W} Q (pure a)
  Keeps-pure a = record { keep = λ s h. h }

  pub Keeps-fail : (e : Error) → Keeps {W = W} {A = A} Q (fail e)
  Keeps-fail e = record { keep = λ s h. h }

  pub Keeps-lift : (r : Result A) → Keeps {W = W} Q (lift r)
  Keeps-lift r = record { keep = λ s h. h }

  -- A call keeps what its events keep.
  pub Keeps-call :
      (op : W → Result A × W) (events : A → List E)
      → ((a : A) (t : List E) → Q t → Q (events a ++ t))
      → Keeps Q (call op events)
  Keeps-call op events h = record { keep = λ s q. go (op s.world) s.trace q }
    where
      go : (r : Result A × W) (t : List E) → Q t → Q (answered r events t).1.trace
      go (ok a, w) t q = h a t q
      go (err e, w) t q = q
      go (panic, w) t q = q

  pub Keeps-read : (op : W → Result A × W) → Keeps Q (read op)
  Keeps-read op = Keeps-call op (λ _. []) (λ a t q. q)

  pub Keeps-if :
      (b : Bool) (m n : Eff W E A)
      → (b ≡ true → Keeps Q m)
      → (b ≡ false → Keeps Q n)
      → Keeps Q (if b then m else n)
  Keeps-if true m n km kn = km refl
  Keeps-if false m n km kn = kn refl

  Keeps-again :
      (next : Eff W E A) (r : Result A × Run W E)
      → Keeps Q next
      → Q r.1.trace
      → Q (again next r).1.trace
  Keeps-again next (ok a, s) k q = q
  Keeps-again next (panic, s) k q = q
  Keeps-again next (err Error.conflict, s) k q = k.keep s q
  Keeps-again next (err _, s) k q = q

  Keeps-attempts : (n : ℕ) (body : Eff W E A) → Keeps Q body → Keeps Q (attempts n body)
  unfolding attempts
  Keeps-attempts zero body k = k
  Keeps-attempts (suc n) body k = record {
    keep = λ s q. Keeps-again (attempts n body) (body s) (Keeps-attempts n body k) (k.keep s q);
  }

  pub Keeps-retry : (r : Retry W E A) (body : Eff W E A) → Keeps Q body → Keeps Q (r.retry body)
  Keeps-retry r body k = record {
    keep = λ s q.
        let (n, e) = r.retried body s in
        subst (λ x. Q x.1.trace) (sym e) ((Keeps-attempts n body k).keep s q);
  }

module _ {ℓ} {W E A B : Type 0} {Q : List E → Type ℓ} where
  pub Keeps-branch :
      (m : Eff W E A) (failed : Error → Eff W E B) (next : A → Eff W E B)
      → Keeps Q m
      → ((e : Error) → Keeps Q (failed e))
      → ((a : A) → Keeps Q (next a))
      → Keeps Q (branch m failed next)
  Keeps-branch m failed next km kf kn = record { keep = λ s q. go (m s) (km.keep s q) }
    where
      go : (r : Result A × Run W E) → Q r.1.trace → Q (resume r failed next).1.trace
      go (ok a, s) q = (kn a).keep s q
      go (err e, s) q = (kf e).keep s q
      go (panic, s) q = q

  -- A read, and a computation that may fail, with the rest behind them.
  pub Keeps-read_then :
      (op : W → Result A × W) (next : A → Eff W E B)
      → ((a : A) → Keeps Q (next a))
      → Keeps Q (branch (read op) fail next)
  Keeps-read_then op next k = Keeps-branch (read op) fail next (Keeps-read op) Keeps-fail k

  pub Keeps-lift_then :
      (r : Result A) (next : A → Eff W E B)
      → ((a : A) → Keeps Q (next a))
      → Keeps Q (branch (lift r) fail next)
  Keeps-lift_then r next k = Keeps-branch (lift r) fail next (Keeps-lift r) Keeps-fail k

module _ {ℓ κ} {W E A B : Type 0} {Q : List E → Type ℓ} {R : A → Type κ} where
  -- The same, where the rest may use what the first part returns.
  pub Keeps-branch_with :
      (m : Eff W E A) (failed : Error → Eff W E B) (next : A → Eff W E B)
      → Keeps Q m
      → Yields R m
      → ((e : Error) → Keeps Q (failed e))
      → ((a : A) → R a → Keeps Q (next a))
      → Keeps Q (branch m failed next)
  Keeps-branch_with m failed next km ym kf kn = record {
    keep = λ s q. go (m s) (ym.yield s) (km.keep s q);
  }
    where
      go :
          (r : Result A × Run W E)
          → ((a : A) → r.0 ≡ ok a → R a)
          → Q r.1.trace
          → Q (resume r failed next).1.trace
      go (ok a, s) y q = (kn a (y a refl)).keep s q
      go (err e, s) y q = (kf e).keep s q
      go (panic, s) y q = q

module _ {ℓ} {W E A : Type 0} {Q : List E → Type ℓ} where
  pub Keeps-for_each :
      (xs : List A) (body : A → Eff W E (Unit {0}))
      → ((x : A) → Keeps Q (body x))
      → Keeps Q (for_each xs body)
  unfolding for_each
  Keeps-for_each [] body k = Keeps-pure tt
  Keeps-for_each (x ∷ xs) body k =
      Keeps-branch (body x) fail (λ _. for_each xs body) (k x) Keeps-fail
        (λ _. Keeps-for_each xs body k)

pub ruleset keeps_rules = (
  Keeps-pure, Keeps-fail, Keeps-lift, Keeps-read, Keeps-if, Keeps-retry, Keeps-branch,
  Keeps-for_each,
)
