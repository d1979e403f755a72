-- ===== src/Effects/Deferred.antt =====
-- Go's defer, for a clean-up that only logs its errors: it runs on every way out, also on a panic.
use sbombastic.Common.{List, ◌++◌, Result, ok, err, panic}
use sbombastic.Effects.{Run, Eff, fail, call, answered, resume, branch}
use sbombastic.Effects.Keeps.{Keeps}
use sbombastic.Effects.Yields.{Yields}

module _ {W E A : Type 0} where
  abbrev cleaned : Result A × Run W E → (W → List E × W) → Result A × Run W E
  cleaned (r, s) clean =
      (r, record { world = (clean s.world).1; trace = (clean s.world).0 ++ s.trace })

  -- The clean-up answers with its events, latest first, of which a failure may be one.
  abbrev pub deferred : (W → List E × W) → Eff W E A → Eff W E A
  deferred clean m s = cleaned (m s) clean

  pub Keeps-deferred {ℓ κ} :
      {Q : List E → Type ℓ} {R : List E → Type κ} (clean : W → List E × W) (m : Eff W E A)
      → ((t : List E) → R t → Q t)
      → Keeps Q m
      → ((w : W) (t : List E) → Q t → R ((clean w).0 ++ t))
      → Keeps R (deferred clean m)
  Keeps-deferred clean m into k out = record {
    keep = λ s r. out (m s).1.world _ (k.keep s (into s.trace r));
  }

  pub Yields-deferred {ℓ} :
      {P : A → Type ℓ} (clean : W → List E × W) (m : Eff W E A)
      → Yields P m
      → Yields P (deferred clean m)
  Yields-deferred clean m y = record { yield = λ s a h. y.yield s a h }

module _ {ℓ κ} {W E A B : Type 0} {Q : List E → Type ℓ} (R : A → List E → Type κ) where
  -- A call whose effect is undone behind the rest keeps what the rest keeps between the two.
  pub Keeps-scoped :
      (op : W → Result A × W) (events : A → List E) (clean : A → W → List E × W)
      (body : A → Eff W E B)
      → ((a : A) (t : List E) → Q t → R a (events a ++ t))
      → ((a : A) → Keeps (R a) (body a))
      → ((a : A) (w : W) (t : List E) → R a t → Q ((clean a w).0 ++ t))
      → Keeps Q (branch (call op events) fail (λ a. deferred (clean a) (body a)))
  Keeps-scoped op events clean body enter k leave = record {
    keep = λ s q. go (op s.world) s.trace q;
  }
    where
      go :
          (r : Result A × W) (t : List E)
          → Q t
          → Q (resume (answered r events t) fail (λ a. deferred (clean a) (body a))).1.trace
      go (ok a, w) t q =
          leave a _ _ ((k a).keep (record { world = w; trace = events a ++ t }) (enter a t q))
      go (err e, w) t q = q
      go (panic, w) t q = q
