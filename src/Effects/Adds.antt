-- ===== src/Effects/Adds.antt =====
-- Code that, where it returns a value, has added exactly the given events.
use sbombastic.Common.{◌≡◌, refl, sym, ap, ◌∙◌, List, [], ◌∷◌, ◌++◌, Result, ok, err, panic}
use mathlib.Core.List.{append_assoc}
use sbombastic.Effects.{Run, Eff, pure, call, answered, resume, branch, fail, for_each}

pub record Adds {W E A : Type 0} (events : List E) (m : Eff W E A) : Type 0 where
  pub added : (s : Run W E) (a : A) → (m s).0 ≡ ok a → (m s).1.trace ≡ events ++ s.trace

-- What a loop adds, latest first.
abbrev pub loop_events : {A E : Type 0} → (A → List E) → List A → List E
loop_events f [] = []
loop_events f (x ∷ xs) = loop_events f xs ++ f x

module _ {W E A : Type 0} where
  pub Adds-pure : (a : A) → Adds {W = W} {E = E} [] (pure a)
  Adds-pure a = record { added = λ s b h. refl }

  pub Adds-call : (op : W → Result A × W) (events : List E) → Adds events (call op (λ _. events))
  Adds-call op events = record { added = λ s a h. go (op s.world) s.trace a h }
    where
      go :
          (r : Result A × W) (t : List E) (a : A)
          → (answered r (λ _. events) t).0 ≡ ok a
          → (answered r (λ _. events) t).1.trace ≡ events ++ t
      go (ok b, w) t a h = refl
      go (err e, w) t a h = cc
      go (panic, w) t a h = cc

module _ {W E A B : Type 0} where
  pub Adds-then :
      (xs ys : List E) (m : Eff W E A) (n : Eff W E B)
      → Adds xs m
      → Adds ys n
      → Adds (ys ++ xs) (branch m fail (λ _. n))
  Adds-then xs ys m n km kn = record { added = λ s b h. go s.trace (m s) b (km.added s) h }
    where
      go :
          (t : List E) (r : Result A × Run W E) (b : B)
          → ((a : A) → r.0 ≡ ok a → r.1.trace ≡ xs ++ t)
          → (resume r fail (λ _. n)).0 ≡ ok b
          → (resume r fail (λ _. n)).1.trace ≡ (ys ++ xs) ++ t
      go t (ok a, s) b k h =
          kn.added s b h ∙ (ap (λ u. ys ++ u) (k a refl) ∙ sym (append_assoc ys xs t))
      go t (err e, s) b k h = cc
      go t (panic, s) b k h = cc

module _ {W E A : Type 0} where
  pub Adds-for_each :
      (f : A → List E) (xs : List A) (body : A → Eff W E (Unit {0}))
      → ((x : A) → Adds (f x) (body x))
      → Adds (loop_events f xs) (for_each xs body)
  unfolding for_each
  Adds-for_each f [] body k = Adds-pure tt
  Adds-for_each f (x ∷ xs) body k =
      Adds-then (f x) (loop_events f xs) (body x) (for_each xs body) (k x)
        (Adds-for_each f xs body k)
