-- ===== src/Storage/Ensures.antt =====
-- Rules for what a storage operation ensures of its result and of the state it ends in: one for each
-- call to the server, with the state behind the call written out.
use sbombastic.Common.{
  suc, ◌≡◌, refl, Bool, true, false, Option, none, some, Error, Result, ok, err, panic, inl, inr,
  Bool-cases, if◌then◌else◌,
}
use sbombastic.Effects.{Run, Eff, pure, fail, lift, read, branch, resume}
use sbombastic.Storage.Rows.{Kind}
use sbombastic.Storage.Repository.{
  Db, Server, StoreRun, Storing, ask, begin, commit, deferring_rollback, restored, or_error, opened,
  closed,
}

pub record Ensures {W E A : Type 0} (Q : Result A × Run W E → Type 0) (m : Eff W E A) (s : Run W E)
    : Type 0 where
  pub ensured : Q (m s)

module _ {W E A : Type 0} {Q : Result A × Run W E → Type 0} where
  pub Ensures-pure : (a : A) (s : Run W E) → Q (ok a, s) → Ensures Q (pure a) s
  Ensures-pure a s q = record { ensured = q }

  pub Ensures-fail : (e : Error) (s : Run W E) → Q (err e, s) → Ensures Q (fail e) s
  Ensures-fail e s q = record { ensured = q }

  pub Ensures-if :
      (b : Bool) (m n : Eff W E A) (s : Run W E)
      → (b ≡ true → Ensures Q m s)
      → (b ≡ false → Ensures Q n s)
      → Ensures Q (if b then m else n) s
  Ensures-if true m n s km kn = km refl
  Ensures-if false m n s km kn = kn refl

module _ {W E A B : Type 0} {Q : Result B × Run W E → Type 0} where
  pub Ensures-lift :
      (r : Result A) (failed : Error → Eff W E B) (next : A → Eff W E B) (s : Run W E)
      → ((e : Error) → r ≡ err e → Ensures Q (failed e) s)
      → ((a : A) → r ≡ ok a → Ensures Q (next a) s)
      → (r ≡ panic → Q (panic, s))
      → Ensures Q (branch (lift r) failed next) s
  Ensures-lift (ok a) failed next s kf kn kp = record { ensured = (kn a refl).ensured }
  Ensures-lift (err e) failed next s kf kn kp = record { ensured = (kf e refl).ensured }
  Ensures-lift panic failed next s kf kn kp = record { ensured = kp refl }

  -- A piece of code that ensures `R`, and the code behind it.
  pub Ensures-branch :
      (R : Result A × Run W E → Type 0) (m : Eff W E A) (failed : Error → Eff W E B)
      (next : A → Eff W E B) (s : Run W E)
      → Ensures R m s
      → ((e : Error) (t : Run W E) → R (err e, t) → Ensures Q (failed e) t)
      → ((a : A) (t : Run W E) → R (ok a, t) → Ensures Q (next a) t)
      → ((t : Run W E) → R (panic, t) → Q (panic, t))
      → Ensures Q (branch m failed next) s
  Ensures-branch R m failed next s km kf kn kp = record { ensured = go (m s) km.ensured }
    where
      go : (r : Result A × Run W E) → R r → Q (resume r failed next)
      go (ok a, t) q = (kn a t q).ensured
      go (err e, t) q = (kf e t q).ensured
      go (panic, t) q = kp t q

module _ (K : Kind) (S : Server K.Object) where
  -- A call has been counted.
  abbrev pub counted : Db K.Json → Db K.Json
  counted db = record db { calls = suc db.calls }

  abbrev pub at_world : StoreRun K → Db K.Json → StoreRun K
  at_world s db = record { world = db; trace = s.trace }

  -- The state behind a call that is answered.
  abbrev pub moved : {A : Type 0} → (Db K.Json → A × Db K.Json) → StoreRun K → StoreRun K
  moved op s = at_world s (record (op s.world).1 { calls = suc s.world.calls })

  module _ {A B : Type 0} {Q : Result B × StoreRun K → Type 0} where
    pub Ensures-ask :
        (op : Db K.Json → A × Db K.Json) (failed : Error → Storing K B) (next : A → Storing K B)
        (s : StoreRun K)
        → Ensures Q (failed Error.other) (at_world s (counted s.world))
        → Ensures Q (next (op s.world).0) (moved op s)
        → Ensures Q (branch (read (ask K S op)) failed next) s
    unfolding ask
    Ensures-ask op failed next s kf kn = elim (Bool-cases (S.fails s.world.calls)) [
      | inl e ↦ record { ensured = rw e kf.ensured }
      | inr e ↦ record { ensured = rw e kn.ensured }
    ]

    pub Ensures-or_error :
        (o : Option A) (e : Error) (failed : Error → Storing K B) (next : A → Storing K B)
        (s : StoreRun K)
        → (o ≡ none → Ensures Q (failed e) s)
        → ((a : A) → o ≡ some a → Ensures Q (next a) s)
        → Ensures Q (branch (or_error K S o e) failed next) s
    Ensures-or_error none e failed next s kn ks = record { ensured = (kn refl).ensured }
    Ensures-or_error (some a) e failed next s kn ks = record { ensured = (ks a refl).ensured }

  module _ {B : Type 0} {Q : Result B × StoreRun K → Type 0} where
    pub Ensures-begin :
        (failed : Error → Storing K B) (next : Unit {0} → Storing K B) (s : StoreRun K)
        → Ensures Q (failed Error.other) (at_world s (counted s.world))
        → (let db = s.world in
            Ensures Q (next tt) (at_world s (record (counted db) { saved = some db.table })))
        → Ensures Q (branch (begin K S) failed next) s
    unfolding begin
    Ensures-begin failed next s kf kn = Ensures-ask (opened K S) failed next s kf kn

    pub Ensures-commit :
        (failed : Error → Storing K B) (next : Unit {0} → Storing K B) (s : StoreRun K)
        → Ensures Q (failed Error.other) (at_world s (counted s.world))
        → Ensures Q (next tt) (at_world s (record (counted s.world) { saved = none }))
        → Ensures Q (branch (commit K S) failed next) s
    unfolding commit
    Ensures-commit failed next s kf kn = Ensures-ask (closed K S) failed next s kf kn

    pub Ensures-deferring_rollback :
        (body : Storing K B) (s : StoreRun K)
        → Ensures (λ r. Q (r.0, at_world r.1 (restored K S r.1.world))) body s
        → Ensures Q (deferring_rollback K S body) s
    unfolding deferring_rollback
    Ensures-deferring_rollback body s k = record { ensured = k.ensured }
