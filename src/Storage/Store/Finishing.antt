-- ===== src/Storage/Store/Finishing.antt =====
-- internal/storage/store.go: the loop of GuaranteedUpdate ends when tryUpdate stops to answer with the
-- conflict of an optimistic lock.
use sbombastic.Common.{
  ℕ, zero, suc, ◌+◌, ◌<◌, ◌≡◌, refl, arith, String, Bool, true, false, Error, Result, ok, ◌==◌,
}
use sbombastic.Effects.{fail, branch, lift}
use sbombastic.Storage.Keys.{extract_key_name_and_namespace}
use sbombastic.Storage.Rows.{Kind}
use sbombastic.Storage.Repository.{
  Server, StoreRun, Storing, EventType, get_object, update_object, commit,
}
use sbombastic.Storage.Store.{next_resource_version, versioned, key_error, broadcast}
use sbombastic.Storage.Ensures.{
  Ensures, Ensures-if, Ensures-branch, Ensures-begin, Ensures-deferring_rollback,
}
use sbombastic.Storage.Store.Updating.{
  Tried, updated, lock_conflict, refused, Updating, unfinished, write_update, update_loop,
  guaranteed_update, not_there, after_try,
}

module _ {Object : Type 0} where
  abbrev pub is_lock_conflict : Tried Object → Bool
  is_lock_conflict lock_conflict = true
  is_lock_conflict _ = false

  abbrev pub is_finished : Result (Updating Object) → Bool
  is_finished (ok unfinished) = false
  is_finished _ = true

module _ (K : Kind) (S : Server K.Object) (name namespace : String) (ignore_not_found : Bool)
    (preconditions : K.Object → Result (Unit {0}))
    (try_update : ℕ → K.Object → Tried K.Object) where
  abbrev Finishes : Result (Updating K.Object) × StoreRun K → Type 0
  Finishes r = is_finished r.0 ≡ true

  -- Nothing is asked of a piece of code but how the code behind it goes on.
  Finishes-behind :
      {A : Type 0} (m : Storing K A) (failed : Error → Storing K (Updating K.Object))
      (next : A → Storing K (Updating K.Object)) (s : StoreRun K)
      → ((e : Error) (t : StoreRun K) → Ensures Finishes (failed e) t)
      → ((a : A) (t : StoreRun K) → Ensures Finishes (next a) t)
      → Ensures Finishes (branch m failed next) s
  Finishes-behind m failed next s kf kn =
      Ensures-branch (λ r. Unit) m failed next s (record { ensured = tt }) (λ e t _. kf e t)
        (λ a t _. kn a t) (λ t _. refl)

  Finishes-fail : (e : Error) (s : StoreRun K) → Ensures Finishes (fail e) s
  Finishes-fail e s = record { ensured = refl }

  not_there-Finishes :
      (e : Error) (t : StoreRun K)
      → Ensures Finishes
          (not_there K S name namespace ignore_not_found preconditions try_update e)
          t
  not_there-Finishes e t = record { ensured = ground arith }

  write_update-Finishes :
      (new : K.Object) (t : StoreRun K)
      → Ensures Finishes
          (write_update K S name namespace ignore_not_found preconditions try_update new)
          t
  unfolding write_update
  write_update-Finishes new t =
      Finishes-behind (next_resource_version K S) _ _ t (λ e. Finishes-fail Error.other)
        λ rv u. Finishes-behind (lift (versioned K S new rv)) _ _ u Finishes-fail λ o v.
          Finishes-behind (update_object K S name namespace o) _ _ v
            (λ e. Finishes-fail (key_error K S e))
            λ _ w.
              Finishes-behind (commit K S) _ _ w (λ e. Finishes-fail Error.other)
                λ _ x.
                  Finishes-behind (broadcast K S EventType.modified o) _ _ x Finishes-fail
                    λ _ y. record { ensured = refl }

  after_try-Finishes :
      (next : Storing K (Updating K.Object)) (answer : Tried K.Object) (t : StoreRun K)
      → (is_lock_conflict answer ≡ true → Ensures Finishes next t)
      → Ensures Finishes
          (after_try K S name namespace ignore_not_found preconditions try_update next answer)
          t
  after_try-Finishes next (updated new) t k = write_update-Finishes new t
  after_try-Finishes next lock_conflict t k = k refl
  after_try-Finishes next (refused e) t k = Finishes-fail e t

  update_loop-Finishes :
      (fuel tried n k : ℕ) (t : StoreRun K)
      → tried + n ≡ k
      → ((o : K.Object) → is_lock_conflict (try_update k o) ≡ false)
      → n < fuel
      → Ensures Finishes
          (update_loop K S name namespace ignore_not_found preconditions try_update fuel tried)
          t
  unfolding update_loop
  update_loop-Finishes zero tried n k t e a l = record { ensured = ground arith }
  update_loop-Finishes (suc fuel) tried zero k t e a l =
      Finishes-behind (get_object K S name namespace) _ _ t not_there-Finishes λ old u.
        Finishes-behind (lift (preconditions old)) _ _ u Finishes-fail
          λ _ v. after_try-Finishes _ (try_update tried old) v λ c. ground (arith, a old)
  update_loop-Finishes (suc fuel) tried (suc m) k t e a l =
      Finishes-behind (get_object K S name namespace) _ _ t not_there-Finishes λ old u.
        Finishes-behind (lift (preconditions old)) _ _ u Finishes-fail λ _ v.
          after_try-Finishes _ (try_update tried old) v
            λ c. update_loop-Finishes fuel (suc tried) m k v (omega arith) a (omega arith)

guaranteed_update-Ensures :
    (K : Kind) (S : Server K.Object) (cluster_scoped : Bool) (key : String)
    (ignore_not_found : Bool) (preconditions : K.Object → Result (Unit {0}))
    (try_update : ℕ → K.Object → Tried K.Object) (fuel n : ℕ) (s : StoreRun K)
    → ((o : K.Object) → is_lock_conflict (try_update n o) ≡ false)
    → n < fuel
    → Ensures
        (λ r. is_finished r.0 ≡ true)
        (guaranteed_update K S cluster_scoped key ignore_not_found preconditions try_update fuel)
        s
unfolding guaranteed_update
guaranteed_update-Ensures K S cluster_scoped key ignore_not_found preconditions try_update fuel n s
      a l =
    let (name, namespace) = extract_key_name_and_namespace cluster_scoped key in
    Ensures-if (name == "") _ _ s (λ _. record { ensured = refl })
      λ _.
        Ensures-begin K S _ _ s (record { ensured = refl })
          (Ensures-deferring_rollback K S _ _ (
            update_loop-Finishes K S name namespace ignore_not_found preconditions try_update fuel
              zero n n _ (omega arith) a l))

-- If the n-th try is never answered with the conflict of an optimistic lock, then the loop ends within
-- n + 1 passes, whatever calls fail.
pub guaranteed_update-Finishes :
    (K : Kind) (S : Server K.Object) (cluster_scoped : Bool) (key : String)
    (ignore_not_found : Bool) (preconditions : K.Object → Result (Unit {0}))
    (try_update : ℕ → K.Object → Tried K.Object) (fuel n : ℕ) (s : StoreRun K)
    → ((o : K.Object) → is_lock_conflict (try_update n o) ≡ false)
    → n < fuel
    → is_finished
        (guaranteed_update K S cluster_scoped key ignore_not_found preconditions try_update fuel
          s).0
      ≡ true
guaranteed_update-Finishes K S cluster_scoped key ignore_not_found preconditions try_update fuel n s
      a l =
    (guaranteed_update-Ensures K S cluster_scoped key ignore_not_found preconditions try_update fuel
      n s a l).ensured
