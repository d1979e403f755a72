-- ===== src/Storage/Store/Atomic.antt =====
-- internal/storage/store.go: what each operation has done, by how it ended.
use sbombastic.Common.{suc, ◌<◌, ◌≡◌, arith, String, Bool, none, some, Result, ok, ◌==◌}
use sbombastic.Storage.Keys.{extract_key_name_and_namespace}
use sbombastic.Storage.Rows.{Kind, select_object, delete_rows}
use sbombastic.Storage.Repository.{EventType, Server, StoreRun}
use sbombastic.Storage.Ensures.{Ensures, Ensures-lift, Ensures-fail, Ensures-if, Ensures-branch}
use sbombastic.Storage.Store.{create, delete, next_version}
use sbombastic.Storage.Store.Rules.{
  Broadcasts, Inserts, Later, Inserted, Ensures-next_resource_version, Ensures-versioned,
  create_object-Inserted, delete_object-Taken,
}
use sbombastic.Storage.Store.Transactions.{
  Ends, fail_begun, panic_begun, commit_begun, Ends-transaction,
}

-- The object that stands at the name and the namespace.
abbrev pub Stands : (K : Kind) → StoreRun K → String → String → K.Object → Type 0
Stands K s name namespace o =
    (bytes : K.Json) × ((select_object s.world.table name namespace ≡ some bytes)
      × (K.unmarshal bytes ≡ some o))

module _ (K : Kind) (S : Server K.Object) where
  abbrev pub Created : K.Object → StoreRun K → K.Object → StoreRun K → Type 0
  Created obj s o t =
      (K.update_object obj (next_version s.world) ≡ some o)
      × ((next_version s.world < next_version t.world)
          × (Inserts K s.world o t.world.table
              × ((t.world.next_id ≡ suc s.world.next_id)
                  × (Broadcasts K EventType.added o s t × (t.world.saved ≡ none)))))

  pub create-Created :
      (obj : K.Object) (s : StoreRun K)
      → s.world.saved ≡ none
      → Ensures (Ends K (Created obj s) s) (create K S obj) s
  unfolding create
  create-Created obj s h =
      Ensures-next_resource_version K S _ _ s (Ensures-fail _ _ (ground arith)) (
        Ensures-versioned K S obj _ _ _ (Ensures-fail _ _ (ground arith)) (λ o u.
          Ends-transaction K S (Created obj s) s _ _ (ground arith) λ v ov table next_id lv.
            Ensures-branch (Inserted K o v) _ _ _ _ (create_object-Inserted K S o v)
              (λ e t f. fail_begun K S _ s _ t (ground arith))
              (λ _ t f. commit_begun K S _ s _ _ _ t (ground arith) λ w tw sw nw lw b. ground arith)
              (λ t f. panic_begun K S (Created obj s) s t (ground arith))))

  abbrev pub Deleted :
      String × String
      → (K.Object → Result (Unit {0}))
      → (K.Object → Result (Unit {0}))
      → StoreRun K
      → K.Object
      → StoreRun K
      → Type 0
  Deleted (name, namespace) preconditions validate_deletion s o t =
      Stands K s name namespace o
      × ((preconditions o ≡ ok tt)
          × ((validate_deletion o ≡ ok tt)
              × ((t.world.table ≡ delete_rows name namespace s.world.table)
                  × (Broadcasts K EventType.deleted o s t
                      × ((t.world.saved ≡ none) × Later K s t)))))

  pub delete-Deleted :
      (cluster_scoped : Bool) (key : String) (preconditions : K.Object → Result (Unit {0}))
      (validate_deletion : K.Object → Result (Unit {0})) (s : StoreRun K)
      → s.world.saved ≡ none
      → Ensures
          (Ends K
            (Deleted
              (extract_key_name_and_namespace cluster_scoped key)
              preconditions
              validate_deletion
              s)
            s)
          (delete K S cluster_scoped key preconditions validate_deletion)
          s
  unfolding delete
  delete-Deleted cluster_scoped key preconditions validate_deletion s h =
      let (name, namespace) = extract_key_name_and_namespace cluster_scoped key in
      let D =
        Deleted (extract_key_name_and_namespace cluster_scoped key) preconditions validate_deletion
          s in
      Ensures-if (name == "") _ _ s (λ e. Ensures-fail _ _ (ground arith))
        (λ e. Ends-transaction K S D s _ _ (ground arith) λ v ov table next_id lv.
          Ensures-branch _ _ _ _ _ (delete_object-Taken K S name namespace v)
            (λ e t f. fail_begun K S D s _ t (ground arith))
            (λ o t f.
              Ensures-lift (preconditions o) _ _ t (λ e q. fail_begun K S D s e t (ground arith))
                (λ _ p.
                  Ensures-lift (validate_deletion o) _ _ t
                    (λ e q. fail_begun K S D s e t (ground arith))
                    (λ _ q.
                      commit_begun K S D s EventType.deleted o o t (ground arith)
                        λ w tw sw nw lw b. ground arith)
                    (λ q. panic_begun K S D s t (ground arith)))
                (λ q. panic_begun K S D s t (ground arith)))
            (λ t f. panic_begun K S D s t (ground arith)))
