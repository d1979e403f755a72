-- ===== src/Storage/Store/Rules.antt =====
-- internal/storage/store.go: rules for the steps that the operations of the store are built of.
use sbombastic.Common.{
  is_ok, ◌≤◌, ℕ, suc, ◌≡◌, refl, arith, String, true, false, some, List, [], ◌∷◌, ◌++◌, Error,
  Result, ok, ◌⊎◌, inl, inr, Bool-cases, Option-cases, any,
}
use sbombastic.Effects.{pure, fail, lift, branch, ◌>>◌, ◌>>=◌}
use sbombastic.Storage.Rows.{Kind, Row, is_at, insert_row, select_object, delete_rows, update_rows}
use sbombastic.Storage.Repository.{
  Db, ask, EventType, Server, StoreRun, Storing, create_object, delete_object, get_object,
  update_object,
}
use sbombastic.Storage.Ensures.{Ensures, Ensures-ask, at_world, counted}
use sbombastic.Storage.Store.{next_resource_version, broadcast, next_version, nextval, versioned}

module _ (K : Kind) where
  abbrev pub row_of : ℕ → K.Object → K.Json → Row K.Json
  row_of id obj bytes = record {
    id = id;
    name = K.name obj;
    namespace = K.namespace obj;
    object = bytes;
  }

  -- The event, or nothing: that an event could not be published is only logged.
  abbrev pub Broadcasts : EventType → K.Object → StoreRun K → StoreRun K → Type 0
  Broadcasts event_type obj s t =
      (t.trace ≡ s.trace) ⊎ (t.trace ≡ record { event_type = event_type; object = obj } ∷ s.trace)

  -- A row more, at a name and a namespace that had none.
  abbrev pub Inserts : Db K.Json → K.Object → List (Row K.Json) → Type 0
  Inserts db o rows =
      (any (is_at (K.name o) (K.namespace o)) db.table ≡ false)
      × ((bytes : K.Json) × ((K.marshal o ≡ some bytes)
            × (rows ≡ db.table ++ (row_of db.next_id o bytes ∷ []))))

module _ (K : Kind) (S : Server K.Object) {B : Type 0} {Q : Result B × StoreRun K → Type 0} where
  pub Ensures-next_resource_version :
      (failed : Error → Storing K B) (next : ℕ → Storing K B) (s : StoreRun K)
      → Ensures Q (failed Error.other) (at_world K S s (counted K S s.world))
      → (let (v, db) = nextval K S s.world in
          Ensures Q (next v) (at_world K S s (record db { calls = suc s.world.calls })))
      → Ensures Q (branch (next_resource_version K S) failed next) s
  unfolding next_resource_version
  Ensures-next_resource_version failed next s kf kn =
      Ensures-ask K S (nextval K S) failed next s kf kn

  pub Ensures-versioned :
      (obj : K.Object) (rv : ℕ) (next : K.Object → Storing K B) (s : StoreRun K)
      → Ensures Q (fail Error.other) s
      → ((o : K.Object) → K.update_object obj rv ≡ some o → Ensures Q (next o) s)
      → Ensures Q (lift (versioned K S obj rv) >>= next) s
  Ensures-versioned obj rv next s kf kn = elim (Option-cases (K.update_object obj rv)) [
    | inl e ↦ record { ensured = rw (versioned, e) kf.ensured }
    | inr (o, e) ↦ record { ensured = rw (versioned, e) (kn o e).ensured }
  ]

  -- The last two lines of every operation that writes.
  pub Ensures-broadcast :
      (event_type : EventType) (obj : K.Object) (b : B) (s : StoreRun K)
      → ((t : StoreRun K)
          → t.world ≡ counted K S s.world
          → Broadcasts K event_type obj s t
          → Q (ok b, t))
      → Ensures Q (broadcast K S event_type obj >> pure b) s
  unfolding broadcast
  Ensures-broadcast event_type obj b s k = elim (Bool-cases (S.publish_fails s.world.calls obj)) [
    | inl e ↦ record { ensured = rw e (k _ refl (inl refl)) }
    | inr e ↦ record { ensured = rw e (k _ refl (inr refl)) }
  ]

module _ (K : Kind) where
  -- The sequences only grow.
  abbrev pub Later : StoreRun K → StoreRun K → Type 0
  Later s t = (s.world.next_id ≤ t.world.next_id) × (next_version s.world ≤ next_version t.world)

  -- What every step of a transaction leaves as it was.
  abbrev pub Frame : StoreRun K → StoreRun K → Type 0
  Frame s t = (t.trace ≡ s.trace) × ((t.world.saved ≡ s.world.saved) × Later s t)

  -- What has been inserted, by how the call ended.
  abbrev pub Inserted : K.Object → StoreRun K → Result (Unit {0}) × StoreRun K → Type 0
  Inserted obj s (ok _, t) =
      Frame s t × (Inserts K s.world obj t.world.table × (t.world.next_id ≡ suc s.world.next_id))
  Inserted obj s (_, t) = Frame s t

  abbrev pub Taken : String → String → StoreRun K → Result K.Object × StoreRun K → Type 0
  Taken name namespace s (ok o, t) =
      Frame s t
      × ((bytes : K.Json) × ((select_object s.world.table name namespace ≡ some bytes)
            × (K.unmarshal bytes ≡ some o)))
  Taken name namespace s (_, t) = Frame s t

module _ (K : Kind) (S : Server K.Object) where
  pub create_object-Inserted :
      (obj : K.Object) (s : StoreRun K) → Ensures (Inserted K obj s) (create_object K S obj) s
  unfolding create_object insert_row is_at ask
  create_object-Inserted obj s = record { ensured = ground arith }

  pub delete_object-Taken :
      (name namespace : String) (s : StoreRun K)
      → Ensures
          (λ r.
            Taken K name namespace s r
            × (is_ok r.0 ≡ true → r.1.world.table ≡ delete_rows name namespace s.world.table))
          (delete_object K S name namespace)
          s
  unfolding delete_object ask
  delete_object-Taken name namespace s = record { ensured = ground arith }

  pub get_object-Taken :
      (name namespace : String) (s : StoreRun K)
      → Ensures
          (λ r. Taken K name namespace s r × (r.1.world.table ≡ s.world.table))
          (get_object K S name namespace)
          s
  unfolding get_object ask
  get_object-Taken name namespace s = record { ensured = ground arith }

  pub update_object-Updated :
      (name namespace : String) (obj : K.Object) (s : StoreRun K)
      → Ensures
          (λ r.
            Frame K s r.1
            × (is_ok r.0 ≡ true
                → (bytes : K.Json) × ((K.marshal obj ≡ some bytes)
                    × (r.1.world.table ≡ update_rows name namespace bytes s.world.table))))
          (update_object K S name namespace obj)
          s
  unfolding update_object ask
  update_object-Updated name namespace obj s = record { ensured = ground arith }
