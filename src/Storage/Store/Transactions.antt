-- ===== src/Storage/Store/Transactions.antt =====
-- internal/storage/store.go: rules for a transaction, from db.Begin to tx.Commit and the broadcast,
-- with the deferred tx.Rollback.
use sbombastic.Common.{◌≡◌, refl, ap, arith, none, some, Error, Result, ok, panic}
use sbombastic.Effects.{fail, pure, ◌>>◌}
use sbombastic.Storage.Rows.{Kind}
use sbombastic.Storage.Repository.{
  EventType, Server, StoreRun, Storing, begin, commit, deferring_rollback, restored,
}
use sbombastic.Storage.Ensures.{
  Ensures, Ensures-fail, Ensures-begin, Ensures-commit, Ensures-deferring_rollback, at_world,
}
use sbombastic.Storage.Store.{broadcast, internally}
use sbombastic.Storage.Store.Rules.{Broadcasts, Later, Ensures-broadcast}

module _ (K : Kind) where
  -- Neither the table nor what was broadcast has changed, and no transaction is open.
  abbrev pub Untouched : StoreRun K → StoreRun K → Type 0
  Untouched s t =
      (t.world.table ≡ s.world.table)
      × ((t.trace ≡ s.trace) × ((t.world.saved ≡ none) × Later K s t))

  -- How an operation that began in `s` ends: `P` of its value and its state, or an error that has
  -- changed nothing.
  abbrev pub Ends :
      {A : Type 0} → (A → StoreRun K → Type 0) → StoreRun K → Result A × StoreRun K → Type 0
  Ends P s (ok a, t) = P a t
  Ends P s (_, t) = Untouched s t

  -- A transaction that began when the table was that of `s`.
  abbrev pub Open : StoreRun K → StoreRun K → Type 0
  Open s t = (t.world.saved ≡ some s.world.table) × ((t.trace ≡ s.trace) × Later K s t)

  -- The state before `s` has gone to the database for anything but a resource version.
  abbrev pub Near : StoreRun K → StoreRun K → Type 0
  Near s t = Untouched s t × (t.world.next_id ≡ s.world.next_id)

module _ (K : Kind) (S : Server K.Object) {A : Type 0} (P : A → StoreRun K → Type 0)
    (s : StoreRun K) where
  -- What the code between db.Begin and the deferred tx.Rollback has to ensure.
  abbrev pub Rolled : Result A × StoreRun K → Type 0
  Rolled r = Ends K P s (r.0, at_world K S r.1 (restored K S r.1.world))

  pub fail_begun : (e : Error) (t : StoreRun K) → Open K s t → Ensures Rolled (fail e) t
  fail_begun e t h = record { ensured = ground arith }

  pub panic_begun : (t : StoreRun K) → Open K s t → Rolled (panic, t)
  panic_begun t h = ground arith

  pub commit_begun :
      (event_type : EventType) (obj : K.Object) (a : A) (t : StoreRun K)
      → Open K s t
      → ((u : StoreRun K)
          → u.world.table ≡ t.world.table
          → u.world.saved ≡ none
          → u.world.next_id ≡ t.world.next_id
          → Later K t u
          → Broadcasts K event_type obj s u
          → P a u)
      → Ensures Rolled (internally K S (commit K S) λ _. broadcast K S event_type obj >> pure a) t
  commit_begun event_type obj a t h k = Ensures-commit K S _ _ _ (fail_begun Error.other _ h) (
      Ensures-broadcast K S event_type obj a _ (λ u w b.
        let saved = ap (λ db. db.saved) w in
        rw saved (
          k _ (ap (λ db. db.table) w) refl (ap (λ db. db.next_id) w) (ground arith)
            (ground arith))))

  pub Ends-transaction :
      (body : Storing K A) (t : StoreRun K)
      → Near K s t
      → ((u : StoreRun K)
          → Open K s u
          → u.world.table ≡ s.world.table
          → u.world.next_id ≡ s.world.next_id
          → Later K t u
          → Ensures Rolled body u)
      → Ensures (Ends K P s) (internally K S (begin K S) λ _. deferring_rollback K S body) t
  Ends-transaction body t h k = Ensures-begin K S _ _ t (Ensures-fail _ _ ground arith) (
      Ensures-deferring_rollback K S body _
        (k _ (ground arith) (ground arith) (ground arith) (ground arith)))
