-- ===== src/Storage/Store/Updates.antt =====
-- internal/storage/store.go: what GuaranteedUpdate has done, by how it ended.
use sbombastic.Common.{
  ℕ, zero, suc, ◌<◌, ◌≤◌, ◌≡◌, refl, arith, String, Bool, true, none, some, Error, Result, ok, ◌==◌,
}
use sbombastic.Storage.Keys.{extract_key_name_and_namespace}
use sbombastic.Storage.Rows.{Kind, update_rows}
use sbombastic.Storage.Repository.{EventType, Server, StoreRun, Storing}
use sbombastic.Storage.Ensures.{
  Ensures, Ensures-lift, Ensures-fail, Ensures-if, Ensures-branch, Ensures-pure,
}
use sbombastic.Storage.Store.{next_version}
use sbombastic.Storage.Store.Rules.{
  Broadcasts, Later, Ensures-next_resource_version, Ensures-versioned, get_object-Taken,
  update_object-Updated,
}
use sbombastic.Storage.Store.Transactions.{
  Untouched, Ends, Open, Rolled, fail_begun, panic_begun, commit_begun, Ends-transaction,
}
use sbombastic.Storage.Store.Updating.{
  Tried, updated, lock_conflict, refused, Updating, returned, unfinished, write_update, update_loop,
  guaranteed_update, not_there, after_try,
}
use sbombastic.Storage.Store.Atomic.{Stands}

module _ (K : Kind) (S : Server K.Object) (name namespace : String) (ignore_not_found : Bool)
    (preconditions : K.Object → Result (Unit {0}))
    (try_update : ℕ → K.Object → Tried K.Object) where
  -- The new object has been written, under a new version.
  abbrev pub Wrote : StoreRun K → K.Object → K.Object → StoreRun K → Type 0
  Wrote s new o t =
      ((v : ℕ) × ((K.update_object new v ≡ some o)
          × ((next_version s.world ≤ v) × (v < next_version t.world))))
      × (((bytes : K.Json) × ((K.marshal o ≡ some bytes)
              × (t.world.table ≡ update_rows name namespace bytes s.world.table)))
          × (Broadcasts K EventType.modified o s t × ((t.world.saved ≡ none) × Later K s t)))

  -- It was made from the object that stood there.
  abbrev pub Asked : StoreRun K → K.Object → Type 0
  Asked s new =
      (old : K.Object) × (Stands K s name namespace old
        × ((preconditions old ≡ ok tt) × ((tried : ℕ) × (try_update tried old ≡ updated new))))

  abbrev pub Updated : StoreRun K → Updating K.Object → StoreRun K → Type 0
  Updated s (returned (some o)) t = (new : K.Object) × (Asked s new × Wrote s new o t)
  Updated s (returned none) t = (ignore_not_found ≡ true) × Untouched K s t
  Updated s unfinished t = Untouched K s t

  module _ (s : StoreRun K) where
    abbrev U : Updating K.Object → StoreRun K → Type 0
    U = Updated s

    write_update-Updated :
        (new : K.Object) (t : StoreRun K)
        → Asked s new
        → Open K s t
        → t.world.table ≡ s.world.table
        → Ensures
            (Rolled K S U s)
            (write_update K S name namespace ignore_not_found preconditions try_update new)
            t
    unfolding write_update
    write_update-Updated new t a op same =
        Ensures-next_resource_version K S _ _ t (fail_begun K S U s _ _ (ground arith)) (
          Ensures-versioned K S new _ _ _ (fail_begun K S U s _ _ (ground arith)) λ o u.
            Ensures-branch _ _ _ _ _ (update_object-Updated K S name namespace o _)
              (λ e w f. fail_begun K S U s _ w (ground arith))
              (λ _ w f.
                commit_begun K S U s EventType.modified o (returned (some o)) w (ground arith)
                  λ x tx sx nx lx b.
                    (new, (a, ((next_version t.world, (u, ground arith)), ground arith))))
              (λ w f. panic_begun K S U s w (ground arith)))

    not_there-Updated :
        (e : Error) (t : StoreRun K)
        → Open K s t
        → Ensures
            (Rolled K S U s)
            (not_there K S name namespace ignore_not_found preconditions try_update e)
            t
    not_there-Updated e t op = record { ensured = ground arith }

    after_try-Updated :
        (old : K.Object) (tried : ℕ) (next : Storing K (Updating K.Object))
        (answer : Tried K.Object) (t : StoreRun K)
        → try_update tried old ≡ answer
        → Stands K s name namespace old
        → preconditions old ≡ ok tt
        → Open K s t
        → t.world.table ≡ s.world.table
        → Ensures (Rolled K S U s) next t
        → Ensures
            (Rolled K S U s)
            (after_try K S name namespace ignore_not_found preconditions try_update next answer)
            t
    after_try-Updated old tried next (updated new) t e st p op same k =
        write_update-Updated new t (old, (st, (p, (tried, e)))) op same
    after_try-Updated old tried next lock_conflict t e st p op same k = k
    after_try-Updated old tried next (refused f) t e st p op same k = fail_begun K S U s f t op

    update_loop-Updated :
        (fuel tried : ℕ) (t : StoreRun K)
        → Open K s t
        → t.world.table ≡ s.world.table
        → Ensures
            (Rolled K S U s)
            (update_loop K S name namespace ignore_not_found preconditions try_update fuel tried)
            t
    unfolding update_loop
    update_loop-Updated zero tried t op same = Ensures-pure _ _ (ground arith)
    update_loop-Updated (suc fuel) tried t op same =
        Ensures-branch _ _ _ _ _ (get_object-Taken K S name namespace t)
          (λ e w f. not_there-Updated e w (ground arith))
          (λ old w f.
            Ensures-lift (preconditions old) _ _ w (λ e q. fail_begun K S U s e w (ground arith))
              (λ _ p.
                after_try-Updated old tried _ _ w refl (ground arith) p (ground arith)
                  (ground arith)
                  (update_loop-Updated fuel (suc tried) w (ground arith) (ground arith)))
              (λ q. panic_begun K S U s w (ground arith)))
          (λ w f. panic_begun K S U s w (ground arith))

pub guaranteed_update-Updated :
    (K : Kind) (S : Server K.Object) (cluster_scoped : Bool) (key : String)
    (ignore_not_found : Bool) (preconditions : K.Object → Result (Unit {0}))
    (try_update : ℕ → K.Object → Tried K.Object) (fuel : ℕ) (s : StoreRun K)
    → s.world.saved ≡ none
    → let (name, namespace) = extract_key_name_and_namespace cluster_scoped key in
      Ensures
        (Ends K (Updated K S name namespace ignore_not_found preconditions try_update s) s)
        (guaranteed_update K S cluster_scoped key ignore_not_found preconditions try_update fuel)
        s
unfolding guaranteed_update
guaranteed_update-Updated K S cluster_scoped key ignore_not_found preconditions try_update fuel s
      h =
    let (name, namespace) = extract_key_name_and_namespace cluster_scoped key in
    Ensures-if (name == "") _ _ s (λ e. Ensures-fail _ _ (ground arith))
      λ e. Ends-transaction K S _ s _ _ (ground arith) λ v ov table next_id lv.
        update_loop-Updated K S name namespace ignore_not_found preconditions try_update s fuel zero
          v ov table
