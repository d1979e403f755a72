-- ===== src/Effects/Ends.antt =====
-- What holds of the value and the trace where a piece of code returns a value: triples that say nothing
-- of the other ways out.
use mathlib.Core.Path.{subst}
use sbombastic.Common.{
  Bool, true, if◌then◌else◌, List, ◌++◌, ◌≡◌, refl, Error, Result, ok, err, panic,
}
use sbombastic.Effects.{Run, Eff, pure, fail, call, branch, resume, answered, lift}
use sbombastic.Effects.Deferred.{deferred}
use sbombastic.Effects.Keeps.{Keeps}
use sbombastic.Effects.Yields.{Yields}
use sbombastic.Effects.Triples.{
  Triple, Triple-pure, Triple-fail, Triple-call, Triple-branch, Triple-if,
}

abbrev pub Ends : {A E : Type 0} → (A → List E → Type 0) → Result A → List E → Type 0
Ends P (ok a) t = P a t
Ends P _ t = Unit {0}

module _ {W E A : Type 0} {Pre : List E → Type 0} {P : A → List E → Type 0} where
  pub Ends-pure : (a : A) → ((t : List E) → Pre t → P a t) → Triple {W = W} Pre (pure a) (Ends P)
  Ends-pure a h = Triple-pure a h

  pub Ends-fail : (e : Error) → Triple {W = W} Pre (fail e) (Ends P)
  Ends-fail e = Triple-fail e (λ t p. tt)

  pub Ends-lift :
      (r : Result A) → ((a : A) (t : List E) → Pre t → P a t) → Triple {W = W} Pre (lift r) (Ends P)
  Ends-lift (ok a) h = record { after = λ s p. h a s.trace p }
  Ends-lift (err e) h = record { after = λ s p. tt }
  Ends-lift panic h = record { after = λ s p. tt }

  -- The same, with what was computed.
  pub Ends-computed :
      (r : Result A)
      → ((a : A) (t : List E) → r ≡ ok a → Pre t → P a t)
      → Triple {W = W} Pre (lift r) (Ends P)
  Ends-computed (ok a) h = record { after = λ s p. h a s.trace refl p }
  Ends-computed (err e) h = record { after = λ s p. tt }
  Ends-computed panic h = record { after = λ s p. tt }

  pub Ends-call :
      (op : W → Result A × W) (events : A → List E)
      → ((a : A) (t : List E) → Pre t → P a (events a ++ t))
      → Triple Pre (call op events) (Ends P)
  Ends-call op events h = Triple-call op events h (λ e t p. tt) (λ t p. tt)

  -- A call whose answer has a property.
  pub Ends-answer {ℓ} :
      (V : A → Type ℓ) (op : W → Result A × W) (events : A → List E)
      → ((w : W) (a : A) → (op w).0 ≡ ok a → V a)
      → ((a : A) (t : List E) → V a → Pre t → P a (events a ++ t))
      → Triple Pre (call op events) (Ends P)
  Ends-answer V op events law h = record { after = λ s p. go (op s.world) s.trace (law s.world) p }
    where
      go :
          (r : Result A × W) (t : List E)
          → ((a : A) → r.0 ≡ ok a → V a)
          → Pre t
          → Ends P (answered r events t).0 (answered r events t).1.trace
      go (ok a, w) t v p = h a t (v a refl) p
      go (err e, w) t v p = tt
      go (panic, w) t v p = tt

  -- Code that keeps a property of the trace, and whose value has another.
  pub Ends-both {ℓ κ} :
      {Q : List E → Type ℓ} (V : A → Type κ) (m : Eff W E A)
      → Keeps Q m
      → Yields V m
      → ((t : List E) → Pre t → Q t)
      → ((a : A) (t : List E) → V a → Q t → P a t)
      → Triple Pre m (Ends P)
  Ends-both {Q = Q} V m k y into out = record {
    after = λ s p. go (m s) (y.yield s) (k.keep s (into s.trace p));
  }
    where
      go :
          (r : Result A × Run W E)
          → ((a : A) → r.0 ≡ ok a → V a)
          → Q r.1.trace
          → Ends P r.0 r.1.trace
      go (ok a, s) v q = out a s.trace (v a refl) q
      go (err e, s) v q = tt
      go (panic, s) v q = tt

  -- Code that keeps a property of the trace keeps what it entails.
  pub Ends-Keeps {ℓ} :
      {Q : List E → Type ℓ} (m : Eff W E A)
      → Keeps Q m
      → ((t : List E) → Pre t → Q t)
      → ((a : A) (t : List E) → Q t → P a t)
      → Triple Pre m (Ends P)
  Ends-Keeps {Q = Q} m k into out = record { after = λ s p. go (m s) (k.keep s (into s.trace p)) }
    where
      go : (r : Result A × Run W E) → Q r.1.trace → Ends P r.0 r.1.trace
      go (ok a, s) q = out a s.trace q
      go (err e, s) q = tt
      go (panic, s) q = tt

  pub ended :
      {m : Eff W E A}
      → Triple Pre m (Ends P)
      → (s : Run W E) (a : A) → Pre s.trace
      → (m s).0 ≡ ok a
      → P a (m s).1.trace
  ended {m = m} k s a p h = go (m s) (k.after s p) h
    where
      go : (r : Result A × Run W E) → Ends P r.0 r.1.trace → r.0 ≡ ok a → P a r.1.trace
      go (ok b, u) q e = let same : b ≡ a = cc in subst (λ x. P x u.trace) same q
      go (err f, u) q e = cc
      go (panic, u) q e = cc

module _ {W E : Type 0} {Pre : List E → Type 0} {P : Unit {0} → List E → Type 0} where
  -- An error that is ignored where a test of it succeeds, and returned where it does not.
  pub Ends-ignored :
      (ignores : Bool) (e : Error)
      → (ignores ≡ true → (t : List E) → Pre t → P tt t)
      → Triple {W = W} Pre (if ignores then pure tt else fail e) (Ends P)
  Ends-ignored ignores e h =
      Triple-if ignores (pure tt) (fail e) (λ b. Ends-pure tt (h b)) (λ b. Ends-fail e)

module _ {W E A : Type 0} {Pre Start : List E → Type 0} {P R : A → List E → Type 0} where
  pub Ends-weaken :
      {m : Eff W E A}
      → Triple Pre m (Ends P)
      → ((t : List E) → Start t → Pre t)
      → ((a : A) (t : List E) → P a t → R a t)
      → Triple Start m (Ends R)
  Ends-weaken {m = m} k into out = record { after = λ s p. go (m s) (k.after s (into s.trace p)) }
    where
      go : (r : Result A × Run W E) → Ends P r.0 r.1.trace → Ends R r.0 r.1.trace
      go (ok a, s) q = out a s.trace q
      go (err e, s) q = tt
      go (panic, s) q = tt

module _ {W E A : Type 0} {Pre : List E → Type 0} {P R : A → List E → Type 0} where
  pub Ends-deferred :
      (clean : W → List E × W) (m : Eff W E A)
      → Triple Pre m (Ends P)
      → ((a : A) (w : W) (t : List E) → P a t → R a ((clean w).0 ++ t))
      → Triple Pre (deferred clean m) (Ends R)
  Ends-deferred clean m k out = record { after = λ s p. go (m s) (k.after s p) }
    where
      go :
          (r : Result A × Run W E)
          → Ends P r.0 r.1.trace
          → Ends R r.0 ((clean r.1.world).0 ++ r.1.trace)
      go (ok a, s) q = out a s.world s.trace q
      go (err e, s) q = tt
      go (panic, s) q = tt

module _ {W E A B : Type 0} {Pre : List E → Type 0} {P : B → List E → Type 0} where
  pub Ends-branch :
      (R : A → List E → Type 0) (m : Eff W E A) (next : A → Eff W E B)
      → Triple Pre m (Ends R)
      → ((a : A) → Triple (R a) (next a) (Ends P))
      → Triple Pre (branch m fail next) (Ends P)
  Ends-branch R m next km kn = Triple-branch m fail next km (λ e. Ends-fail e) kn (λ t p. tt)

  -- The same for code whose first part says what it returns.
  pub Ends-branch_with :
      (R : A → Type 0) (m : Eff W E A) (next : A → Eff W E B)
      → Yields R m
      → ((a : A) → R a → Triple (λ t. Unit {0}) (next a) (Ends P))
      → Triple Pre (branch m fail next) (Ends P)
  Ends-branch_with R m next ym kn = record { after = λ s p. go (m s) (ym.yield s) }
    where
      go :
          (r : Result A × Run W E)
          → ((a : A) → r.0 ≡ ok a → R a)
          → Ends P (resume r fail next).0 (resume r fail next).1.trace
      go (ok a, s) y = (kn a (y a refl)).after s tt
      go (err e, s) y = tt
      go (panic, s) y = tt

  -- A call with a way on of its own where it fails; each way knows an answer that it comes from.
  pub Ends-try :
      (R : A → List E → Type 0) (op : W → Result A × W) (events : A → List E)
      (failed : Error → Eff W E B) (next : A → Eff W E B)
      → ((a : A) (t : List E) → Pre t → R a (events a ++ t))
      → ((e : Error) (w : W) → (op w).0 ≡ err e → Triple Pre (failed e) (Ends P))
      → ((a : A) (w : W) → (op w).0 ≡ ok a → Triple (R a) (next a) (Ends P))
      → Triple Pre (branch (call op events) failed next) (Ends P)
  Ends-try R op events failed next enter kf kn = record {
    after = λ s p. go (op s.world) s.trace (λ e. kf e s.world) (λ a. kn a s.world) p;
  }
    where
      go :
          (r : Result A × W) (t : List E)
          → ((e : Error) → r.0 ≡ err e → Triple Pre (failed e) (Ends P))
          → ((a : A) → r.0 ≡ ok a → Triple (R a) (next a) (Ends P))
          → Pre t
          → Ends P
              (resume (answered r events t) failed next).0
              (resume (answered r events t) failed next).1.trace
      go (ok a, w) t f n p =
          (n a refl).after (record { world = w; trace = events a ++ t }) (enter a t p)
      go (err e, w) t f n p = (f e refl).after (record { world = w; trace = t }) p
      go (panic, w) t f n p = tt
