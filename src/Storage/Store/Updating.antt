-- ===== src/Storage/Store/Updating.antt =====
-- internal/storage/store.go: GuaranteedUpdate. Its loop runs on fuel: `tried` is the number of passes
-- so far, and what tryUpdate answers may depend on it.
use sbombastic.Common.{ℕ, zero, suc, String, Bool, Option, some, Error, Result, ◌==◌, if◌then◌else◌}
use sbombastic.Effects.{pure, fail, lift, branch, ◌>>=◌, ◌>>◌}
use sbombastic.Storage.Keys.{extract_key_name_and_namespace}
use sbombastic.Storage.Rows.{Kind}
use sbombastic.Storage.Repository.{
  EventType, Server, Storing, begin, commit, deferring_rollback, get_object, update_object,
}
use sbombastic.Storage.Store.{
  next_resource_version, broadcast, internally, versioned, missing, key_error,
}

-- What tryUpdate answers: the new object, a conflict with the message of an optimistic lock, or
-- another error.
pub data Tried (Object : Type 0) : Type 0 where
  updated : Object → Tried Object
  lock_conflict : Tried Object
  refused : Error → Tried Object

-- How the loop ends: with the object in `destination`, or none where it is left at its zero value.
pub data Updating (Object : Type 0) : Type 0 where
  returned : Option Object → Updating Object
  unfinished : Updating Object

module _ (K : Kind) (S : Server K.Object) (name namespace : String) (ignore_not_found : Bool)
    (preconditions : K.Object → Result (Unit {0}))
    (try_update : ℕ → K.Object → Tried K.Object) where
  -- From nextResourceVersion to the `break`.
  unfoldable pub write_update : K.Object → Storing K (Updating K.Object)
  unfolding next_resource_version update_object commit broadcast
  write_update obj = internally K S (next_resource_version K S) λ rv.
      lift (versioned K S obj rv) >>= λ obj.
      branch (update_object K S name namespace obj) (λ e. fail (key_error K S e))
        λ _.
          internally K S (commit K S)
            λ _. broadcast K S EventType.modified obj >> pure (returned (some obj))

  -- What follows tryUpdate in one pass.
  abbrev pub after_try :
      Storing K (Updating K.Object) → Tried K.Object → Storing K (Updating K.Object)
  after_try next (updated obj) = write_update obj
  after_try next lock_conflict = next
  after_try next (refused e) = fail e

  abbrev pub not_there : Error → Storing K (Updating K.Object)
  not_there e = missing K S ignore_not_found e >>= λ out. pure (returned out)

  unfoldable pub update_loop : ℕ → ℕ → Storing K (Updating K.Object)
  unfolding get_object write_update
  update_loop zero tried = pure unfinished
  update_loop (suc fuel) tried =
      let next = update_loop fuel (suc tried) in
      branch (get_object K S name namespace) not_there
        λ obj. lift (preconditions obj) >> after_try next (try_update tried obj)

unfoldable pub guaranteed_update :
    (K : Kind)
    → Server K.Object
    → Bool
    → String
    → Bool
    → (K.Object → Result (Unit {0}))
    → (ℕ → K.Object → Tried K.Object)
    → ℕ
    → Storing K (Updating K.Object)
unfolding extract_key_name_and_namespace begin deferring_rollback update_loop
guaranteed_update K S cluster_scoped key ignore_not_found preconditions try_update fuel =
    let (name, namespace) = extract_key_name_and_namespace cluster_scoped key in
    if name == ""
    then fail Error.other
    else internally K S (begin K S) λ _.
      deferring_rollback K S
        (update_loop K S name namespace ignore_not_found preconditions try_update fuel zero)
