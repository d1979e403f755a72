-- ===== src/Storage/Invariant.antt =====
-- internal/storage/store.go: what every sequence of operations keeps true of the table and of the
-- events that are broadcast.
use sbombastic.Common.{
  ℕ, ◌≤◌, ◌<◌, ◌≡◌, refl, arith, String, Bool, none, some, List, [], ◌∷◌, Result, ok, err, panic,
  inl, inr,
}
use sbombastic.Storage.Keys.{extract_key_name_and_namespace}
use sbombastic.Storage.Rows.{Kind, IsKind}
use sbombastic.Storage.Repository.{EventType, Event, added, modified, deleted, Server, StoreRun}
use sbombastic.Storage.Tables.{
  IsTable, IsTable-insert, IsTable-delete_rows, IsTable-update_rows, IsTable-later,
}
use sbombastic.Storage.Store.{next_version, create, delete}
use sbombastic.Storage.Store.Rules.{Broadcasts}
use sbombastic.Storage.Store.Transactions.{Untouched, Ends}
use sbombastic.Storage.Store.Atomic.{Created, Deleted, create-Created, delete-Deleted}
use sbombastic.Storage.Store.Updating.{Tried, Updating, returned, unfinished, guaranteed_update}
use sbombastic.Storage.Store.Updates.{Updated, guaranteed_update-Updated}

module _ (K : Kind) where
  abbrev Bounds : EventType → ℕ → ℕ → (ℕ → Type 0) → Type 0
  Bounds deleted bound version earlier = earlier bound
  Bounds _ bound version earlier = (version < bound) × earlier version

  -- The objects that were written carry versions below `bound`, the later the higher. An object that
  -- was deleted is broadcast with the version it had.
  abbrev pub InOrder : ℕ → List (Event K.Object) → Type 0
  InOrder bound [] = Unit
  InOrder bound (e ∷ events) =
      Bounds e.event_type bound (K.version e.object) (λ b. InOrder b events)

  Bounds-later :
      (k : EventType) (x y version : ℕ) (earlier : ℕ → Type 0)
      → x ≤ y
      → (earlier x → earlier y)
      → Bounds k x version earlier
      → Bounds k y version earlier
  Bounds-later added x y version earlier l k (a, h) = (omega arith, h)
  Bounds-later modified x y version earlier l k (a, h) = (omega arith, h)
  Bounds-later deleted x y version earlier l k h = k h

  InOrder-later :
      (x y : ℕ) (events : List (Event K.Object)) → x ≤ y → InOrder x events → InOrder y events
  InOrder-later x y [] l h = tt
  InOrder-later x y (e ∷ events) l h =
      Bounds-later e.event_type x y (K.version e.object) (λ b. InOrder b events) l
        (InOrder-later x y events l) h

  -- No transaction is open, the table is in the order of its ids, without a name and namespace twice,
  -- and the events are in the order of their versions.
  abbrev pub IsValid : StoreRun K → Type 0
  IsValid s =
      (s.world.saved ≡ none)
      × ((0 < s.world.next_id)
          × (IsTable s.world.next_id s.world.table × InOrder (next_version s.world) s.trace))

  IsValid-Untouched : (s t : StoreRun K) → IsValid s → Untouched K s t → IsValid t
  IsValid-Untouched s t (saved, (p, (table, o))) (rows, (trace, (shut, (l, m)))) = (
    shut,
    (
      omega arith,
      (
        rw rows (IsTable-later s.world.next_id t.world.next_id s.world.table l table),
        rw trace (InOrder-later (next_version s.world) (next_version t.world) s.trace m o),
      ),
    ),
  )

  InOrder-written :
      (event_type : EventType) (obj : K.Object) (s t : StoreRun K)
      → Broadcasts K event_type obj s t
      → next_version s.world ≤ K.version obj
      → K.version obj < next_version t.world
      → InOrder (next_version s.world) s.trace
      → InOrder (next_version t.world) t.trace
  InOrder-written k obj s t (inl e) l m o =
      rw e (InOrder-later (next_version s.world) (next_version t.world) s.trace (omega arith) o)
  InOrder-written k obj s t (inr e) l m o = rw e (go k)
    where
      go :
          (k : EventType) → Bounds k (next_version t.world) (K.version obj) (λ b. InOrder b s.trace)
      go added = (m, InOrder-later (next_version s.world) (K.version obj) s.trace l o)
      go modified = (m, InOrder-later (next_version s.world) (K.version obj) s.trace l o)
      go deleted =
          InOrder-later (next_version s.world) (next_version t.world) s.trace (omega arith) o

  InOrder-deleted :
      (obj : K.Object) (s t : StoreRun K)
      → Broadcasts K EventType.deleted obj s t
      → next_version s.world ≤ next_version t.world
      → InOrder (next_version s.world) s.trace
      → InOrder (next_version t.world) t.trace
  InOrder-deleted obj s t (inl e) l o =
      rw e (InOrder-later (next_version s.world) (next_version t.world) s.trace l o)
  InOrder-deleted obj s t (inr e) l o =
      rw e (InOrder-later (next_version s.world) (next_version t.world) s.trace l o)

module _ (K : Kind) (S : Server K.Object) (laws : IsKind K) where
  IsValid-Created :
      (obj : K.Object) (s : StoreRun K) (r : Result K.Object × StoreRun K)
      → IsValid K s
      → Ends K (Created K S obj s) s r
      → IsValid K r.1
  IsValid-Created obj s (err e, t) v h = IsValid-Untouched K s t v h
  IsValid-Created obj s (panic, t) v h = IsValid-Untouched K s t v h
  IsValid-Created obj s (ok o, t) (saved, (p, (table, order)))
        (new, (later, ((free, (bytes, (m, rows))), (next, (events, shut))))) =
      let version = laws.version-update_object obj o (next_version s.world) new in
      (
        shut,
        (
          omega arith,
          (
            rw (rows, next) (IsTable-insert s.world.next_id s.world.table _ refl p free table),
            InOrder-written K EventType.added o s t events (omega arith) (omega arith) order,
          ),
        ),
      )

  IsValid-Deleted :
      (name namespace : String) (preconditions validate_deletion : K.Object → Result (Unit {0}))
      (s : StoreRun K) (r : Result K.Object × StoreRun K)
      → IsValid K s
      → Ends K (Deleted K S (name, namespace) preconditions validate_deletion s) s r
      → IsValid K r.1
  IsValid-Deleted name namespace p q s (err e, t) v h = IsValid-Untouched K s t v h
  IsValid-Deleted name namespace p q s (panic, t) v h = IsValid-Untouched K s t v h
  IsValid-Deleted name namespace p q s (ok o, t) (saved, (pos, (table, order)))
        (was, (a, (b, (rows, (events, (shut, (l, m))))))) =
      (
        shut,
        (
          omega arith,
          (
            rw rows (
                IsTable-later s.world.next_id t.world.next_id _ l
                  (IsTable-delete_rows s.world.next_id name namespace s.world.table table)),
            InOrder-deleted K o s t events m order,
          ),
        ),
      )

  module _ (name namespace : String) (ignore_not_found : Bool)
      (preconditions : K.Object → Result (Unit {0}))
      (try_update : ℕ → K.Object → Tried K.Object) where
    IsValid-Updated :
        (s : StoreRun K) (r : Result (Updating K.Object) × StoreRun K)
        → IsValid K s
        → Ends K (Updated K S name namespace ignore_not_found preconditions try_update s) s r
        → IsValid K r.1
    IsValid-Updated s (err e, t) v h = IsValid-Untouched K s t v h
    IsValid-Updated s (panic, t) v h = IsValid-Untouched K s t v h
    IsValid-Updated s (ok unfinished, t) v h = IsValid-Untouched K s t v h
    IsValid-Updated s (ok (returned none), t) v (i, h) = IsValid-Untouched K s t v h
    IsValid-Updated s (ok (returned (some o)), t) (saved, (pos, (table, order)))
          (
            new,
            (asked, ((v, (u, (above, below))), ((bytes, (m, rows)), (events, (shut, (l, _)))))),
          ) =
        let version = laws.version-update_object new o v u in
        (
          shut,
          (
            omega arith,
            (
              rw rows (
                  IsTable-later s.world.next_id t.world.next_id _ l
                    (IsTable-update_rows name namespace bytes s.world.next_id s.world.table table)),
              InOrder-written K EventType.modified o s t events (omega arith) (omega arith) order,
            ),
          ),
        )

-- A call of the storage interface that may write.
pub data Command (K : Kind) : Type 0 where
  create_object : K.Object → Command K
  delete_object :
      Bool → String → (K.Object → Result (Unit {0})) → (K.Object → Result (Unit {0})) → Command K
  update_object :
      Bool
      → String
      → Bool
      → (K.Object → Result (Unit {0}))
      → (ℕ → K.Object → Tried K.Object)
      → ℕ
      → Command K

module _ (K : Kind) (S : Server K.Object) where
  -- What the call leaves behind; what it returns is not looked at.
  unfoldable run : Command K → StoreRun K → StoreRun K
  unfolding create delete guaranteed_update
  run (create_object obj) s = (create K S obj s).1
  run (delete_object cluster_scoped key preconditions validate) s =
      (delete K S cluster_scoped key preconditions validate s).1
  run (update_object cluster_scoped key ignore preconditions try_update fuel) s =
      (guaranteed_update K S cluster_scoped key ignore preconditions try_update fuel s).1

  unfoldable pub run_all : List (Command K) → StoreRun K → StoreRun K
  unfolding run
  run_all [] s = s
  run_all (c ∷ commands) s = run_all commands (run c s)

  run-IsValid : IsKind K → (c : Command K) (s : StoreRun K) → IsValid K s → IsValid K (run c s)
  unfolding run
  run-IsValid laws (create_object obj) s v =
      IsValid-Created K S laws obj s _ v (create-Created K S obj s v.0).ensured
  run-IsValid laws (delete_object cluster_scoped key p q) s v =
      let (name, namespace) = extract_key_name_and_namespace cluster_scoped key in
      IsValid-Deleted K S laws name namespace p q s _ v
        (delete-Deleted K S cluster_scoped key p q s v.0).ensured
  run-IsValid laws (update_object cluster_scoped key ignore p try_update fuel) s v =
      let (name, namespace) = extract_key_name_and_namespace cluster_scoped key in
      IsValid-Updated K S laws name namespace ignore p try_update s _ v
        (guaranteed_update-Updated K S cluster_scoped key ignore p try_update fuel s v.0).ensured

  -- Any sequence of Create, Delete and GuaranteedUpdate, whatever calls fail, keeps the table in the
  -- order of its ids and without a name and namespace twice, and broadcasts the objects it writes with
  -- ever higher resource versions.
  pub run_all-IsValid :
      IsKind K
      → (commands : List (Command K)) (s : StoreRun K) → IsValid K s
      → IsValid K (run_all commands s)
  unfolding run_all
  run_all-IsValid laws [] s v = v
  run_all-IsValid laws (c ∷ commands) s v =
      run_all-IsValid laws commands (run c s) (run-IsValid laws c s v)
