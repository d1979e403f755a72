-- ===== src/Effects/Triples.antt =====
-- What holds of the trace before a piece of code, and of its result and the trace after it, whatever
-- the services answer.
use sbombastic.Common.{
  ℕ, zero, suc, ◌≡◌, refl, Bool, true, false, List, [], ◌++◌, Error, Result, ok, err, panic,
  if◌then◌else◌,
}
use mathlib.Core.Path.{subst, sym, ap}
use sbombastic.Effects.{
  Run, Eff, pure, fail, lift, call, answered, attempts, resume, branch, Retry, again,
}

pub record Triple {ℓ κ} {W E A : Type 0} (Pre : List E → Type ℓ) (m : Eff W E A)
    (Post : Result A → List E → Type κ) : Type (ℓ ⊔ κ) where
  pub after : (s : Run W E) → Pre s.trace → Post (m s).0 (m s).1.trace

module _ {ℓ κ} {W E A : Type 0} {Pre : List E → Type ℓ} {Post : Result A → List E → Type κ} where
  pub Triple-pure :
      (a : A) → ((t : List E) → Pre t → Post (ok a) t) → Triple {W = W} Pre (pure a) Post
  Triple-pure a h = record { after = λ s p. h s.trace p }

  pub Triple-fail :
      (e : Error) → ((t : List E) → Pre t → Post (err e) t) → Triple {W = W} Pre (fail e) Post
  Triple-fail e h = record { after = λ s p. h s.trace p }

  pub Triple-lift :
      (r : Result A) → ((t : List E) → Pre t → Post r t) → Triple {W = W} Pre (lift r) Post
  Triple-lift r h = record { after = λ s p. h s.trace p }

  pub Triple-call :
      (op : W → Result A × W) (events : A → List E)
      → ((a : A) (t : List E) → Pre t → Post (ok a) (events a ++ t))
      → ((e : Error) (t : List E) → Pre t → Post (err e) t)
      → ((t : List E) → Pre t → Post panic t)
      → Triple Pre (call op events) Post
  Triple-call op events good bad worst = record { after = λ s p. go (op s.world) s.trace p }
    where
      go :
          (r : Result A × W) (t : List E)
          → Pre t
          → Post (answered r events t).0 (answered r events t).1.trace
      go (ok a, w) t p = good a t p
      go (err e, w) t p = bad e t p
      go (panic, w) t p = worst t p

  pub Triple-if :
      (b : Bool) (m n : Eff W E A)
      → (b ≡ true → Triple Pre m Post)
      → (b ≡ false → Triple Pre n Post)
      → Triple Pre (if b then m else n) Post
  Triple-if true m n hm hn = hm refl
  Triple-if false m n hm hn = hn refl

  -- A retried body starts again where a conflict left it.
  Triple-again :
      (next : Eff W E A) (r : Result A × Run W E)
      → Triple Pre next Post
      → ((t : List E) → Post (err Error.conflict) t → Pre t)
      → Post r.0 r.1.trace
      → Post (again next r).0 (again next r).1.trace
  Triple-again next (ok a, s) k back q = q
  Triple-again next (panic, s) k back q = q
  Triple-again next (err Error.conflict, s) k back q = k.after s (back s.trace q)
  Triple-again next (err _, s) k back q = q

  Triple-attempts :
      (n : ℕ) (body : Eff W E A)
      → Triple Pre body Post
      → ((t : List E) → Post (err Error.conflict) t → Pre t)
      → Triple Pre (attempts n body) Post
  unfolding attempts
  Triple-attempts zero body k back = k
  Triple-attempts (suc n) body k back = record {
    after = λ s p.
        Triple-again (attempts n body) (body s) (Triple-attempts n body k back) back (k.after s p);
  }

  pub Triple-retry :
      (r : Retry W E A) (body : Eff W E A)
      → Triple Pre body Post
      → ((t : List E) → Post (err Error.conflict) t → Pre t)
      → Triple Pre (r.retry body) Post
  Triple-retry r body k back = record {
    after = λ s p.
        let (n, e) = r.retried body s in
        subst (λ x. Post x.0 x.1.trace) (sym e) ((Triple-attempts n body k back).after s p);
  }

module _ {ℓ κ μ} {W E A B : Type 0} {Pre : List E → Type ℓ} {Mid : Result A → List E → Type κ}
    {Post : Result B → List E → Type μ} where
  pub Triple-branch :
      (m : Eff W E A) (failed : Error → Eff W E B) (next : A → Eff W E B)
      → Triple Pre m Mid
      → ((e : Error) → Triple (Mid (err e)) (failed e) Post)
      → ((a : A) → Triple (Mid (ok a)) (next a) Post)
      → ((t : List E) → Mid panic t → Post panic t)
      → Triple Pre (branch m failed next) Post
  Triple-branch m failed next km kf kn worst = record { after = λ s p. go (m s) (km.after s p) }
    where
      go :
          (r : Result A × Run W E)
          → Mid r.0 r.1.trace
          → Post (resume r failed next).0 (resume r failed next).1.trace
      go (ok a, s) q = (kn a).after s q
      go (err e, s) q = (kf e).after s q
      go (panic, s) q = worst s.trace q

module _ {E A : Type 0} where
  -- The trace is as it was.
  abbrev pub Still : List E → Result A → List E → Type 0
  Still t r u = u ≡ t

  -- The events are added where a value is returned, and only there.
  abbrev pub Sends : List E → List E → Result A → List E → Type 0
  Sends events t (ok a) u = u ≡ events ++ t
  Sends events t _ u = u ≡ t

module _ {W E A : Type 0} where
  pub Triple-read :
      (op : W → Result A × W) (t : List E) → Triple (λ u. u ≡ t) (call op (λ _. [])) (Still t)
  Triple-read op t = Triple-call op (λ _. []) (λ a u p. p) (λ e u p. p) (λ u p. p)

  pub Triple-send :
      (op : W → Result A × W) (events t : List E)
      → Triple (λ u. u ≡ t) (call op (λ _. events)) (Sends events t)
  Triple-send op events t =
      Triple-call op (λ _. events) (λ a u p. ap (λ v. events ++ v) p) (λ e u p. p) (λ u p. p)

module _ {κ} {W E A B : Type 0} {Post : Result B → List E → Type κ} where
  -- A call, and behind it code that knows an answer that its value comes from.
  pub Triple-asked :
      (op : W → Result A × W) (events t : List E) (next : A → Eff W E B)
      → ((e : Error) → Post (err e) t)
      → Post panic t
      → ((a : A) (w : W) → (op w).0 ≡ ok a → Triple (λ u. u ≡ events ++ t) (next a) Post)
      → Triple (λ u. u ≡ t) (branch (call op (λ _. events)) fail next) Post
  Triple-asked op events t next bad worst k = record {
    after = λ s p. go (op s.world) s.trace (λ a. k a s.world) p;
  }
    where
      go :
          (r : Result A × W) (u : List E)
          → ((a : A) → r.0 ≡ ok a → Triple (λ v. v ≡ events ++ t) (next a) Post)
          → u ≡ t
          → Post
              (resume (answered r (λ _. events) u) fail next).0
              (resume (answered r (λ _. events) u) fail next).1.trace
      go (ok a, w) u n p =
          (n a refl).after (record { world = w; trace = events ++ u }) (ap (λ v. events ++ v) p)
      go (err e, w) u n p = subst (λ v. Post (err e) v) (sym p) (bad e)
      go (panic, w) u n p = subst (λ v. Post panic v) (sym p) worst
