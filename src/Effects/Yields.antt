-- ===== src/Effects/Yields.antt =====
-- What the value is that a piece of code returns, whenever it returns one.
use sbombastic.Common.{
  List, ◌≡◌, refl, Bool, true, false, Error, Result, ok, err, panic, if◌then◌else◌,
}
use mathlib.Core.Path.{subst}
use sbombastic.Effects.{Run, Eff, pure, fail, lift, call, answered, resume, branch}

pub record Yields {ℓ} {W E A : Type 0} (P : A → Type ℓ) (m : Eff W E A) : Type ℓ where
  pub yield : (s : Run W E) (a : A) → (m s).0 ≡ ok a → P a

module _ {ℓ} {W E A : Type 0} {P : A → Type ℓ} where
  pub Yields-pure : (a : A) → P a → Yields {W = W} {E = E} P (pure a)
  Yields-pure a h = record { yield = λ s b e. let same : a ≡ b = cc in subst P same h }

  pub Yields-fail : (e : Error) → Yields {W = W} {E = E} P (fail e)
  Yields-fail e = record { yield = λ s b h. cc }

  pub Yields-if :
      (b : Bool) (m n : Eff W E A)
      → (b ≡ true → Yields P m)
      → (b ≡ false → Yields P n)
      → Yields P (if b then m else n)
  Yields-if true m n km kn = km refl
  Yields-if false m n km kn = kn refl

module _ {ℓ} {W E A B : Type 0} {P : B → Type ℓ} where
  pub Yields-branch :
      (m : Eff W E A) (failed : Error → Eff W E B) (next : A → Eff W E B)
      → ((e : Error) → Yields P (failed e))
      → ((a : A) → Yields P (next a))
      → Yields P (branch m failed next)
  Yields-branch m failed next kf kn = record { yield = λ s b h. go (m s) b h }
    where
      go : (r : Result A × Run W E) (b : B) → (resume r failed next).0 ≡ ok b → P b
      go (ok a, s) b h = (kn a).yield s b h
      go (err e, s) b h = (kf e).yield s b h
      go (panic, s) b h = cc

  -- The same, where the rest may use what the first part returns.
  pub Yields-branch_with {κ} :
      {R : A → Type κ} (m : Eff W E A) (failed : Error → Eff W E B) (next : A → Eff W E B)
      → Yields R m
      → ((e : Error) → Yields P (failed e))
      → ((a : A) → R a → Yields P (next a))
      → Yields P (branch m failed next)
  Yields-branch_with {R} m failed next km kf kn = record {
    yield = λ s b h. go (m s) b (km.yield s) h;
  }
    where
      go :
          (r : Result A × Run W E) (b : B)
          → ((a : A) → r.0 ≡ ok a → R a)
          → (resume r failed next).0 ≡ ok b
          → P b
      go (ok a, s) b k h = (kn a (k a refl)).yield s b h
      go (err e, s) b k h = (kf e).yield s b h
      go (panic, s) b k h = cc

module _ {W E A : Type 0} where
  -- A value that is computed without a call.
  pub Yields-lift : (r : Result A) → Yields {W = W} {E = E} (λ a. r ≡ ok a) (lift r)
  Yields-lift r = record { yield = λ s a h. h }

  -- What the answers of a call have in common.
  pub Yields-call {ℓ} :
      {P : A → Type ℓ} (op : W → Result A × W) (events : A → List E)
      → ((w : W) (a : A) → (op w).0 ≡ ok a → P a)
      → Yields P (call op events)
  Yields-call {P} op events k = record { yield = λ s a h. go (op s.world) s.trace a (k s.world) h }
    where
      go :
          (r : Result A × W) (t : List E) (a : A)
          → ((b : A) → r.0 ≡ ok b → P b)
          → (answered r events t).0 ≡ ok a
          → P a
      go (ok b, w) t a k h = k a h
      go (err e, w) t a k h = cc
      go (panic, w) t a k h = cc
