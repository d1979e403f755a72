-- ===== src/Storage/Store.antt =====
-- internal/storage/store.go: the operations of the storage interface that write, Get and Count.
--
-- An error is classified as its callers ask: storage.NewKeyExistsError is `already_exists`,
-- storage.NewKeyNotFoundError `not_found`, storage.NewInternalError `other`. The preconditions, the
-- validation of a deletion and tryUpdate are functions of the caller.
--
-- An operation returns the object that setValue copies to the caller's `out`. setValue asks
-- conversion.EnforcePtr for two pointers and fails only where one of them is nil or no pointer. The
-- source is the object that the code has just decoded or stored; the kinds implement runtime.Object on
-- their pointers, and the API machinery passes new objects as `out`. So a destination is a pointer
-- here, by the type of the operations, and setValue has no error. That Create skips setValue for a nil
-- `out` changes nothing but whether the caller sees the object.
pub mod Updating
pub mod Rules
pub mod Transactions
pub mod Atomic
pub mod Updates
pub mod Finishing
pub mod Lists
use sbombastic.Common.{
  ℕ, suc, String, Bool, true, false, Option, none, some, List, [], ◌∷◌, Error, Result, ok, err,
  is_already_exists, is_not_found, ◌==◌, if◌then◌else◌,
}
use sbombastic.Effects.{Run, Eff, pure, fail, lift, read, branch, ◌>>=◌, ◌>>◌}
use sbombastic.Storage.Keys.{extract_key_name_and_namespace, extract_key_namespace}
use sbombastic.Storage.Rows.{Kind}
use sbombastic.Storage.Repository.{
  Db, EventType, Event, Server, Storing, ask, begin, commit, deferring_rollback, create_object,
  delete_object, get_object, count_objects,
}

-- What SELECT nextval(…) gives: the first value of the sequence when it was never called.
abbrev pub next_version : {Json : Type 0} → Db Json → ℕ
next_version db = if db.is_called then suc db.last_version else db.last_version

module _ (K : Kind) (S : Server K.Object) where
  abbrev nextval : Db K.Json → ℕ × Db K.Json
  nextval db = let v = next_version db in (v, record db { last_version = v; is_called = true })

  unfoldable pub next_resource_version : Storing K ℕ
  unfolding ask
  next_resource_version = read (ask K S nextval)

  unfoldable pub get_current_resource_version : Storing K ℕ
  unfolding ask next_resource_version
  get_current_resource_version =
      read (ask K S (λ db. ((db.last_version, db.is_called), db))) >>= λ (rv, is_called).
      if is_called then pure rv else next_resource_version

  -- broadcaster.Action, whose error is only logged.
  unfoldable pub broadcast : EventType → K.Object → Storing K (Unit {0})
  broadcast event_type obj s =
      let world = s.world in
      let after = record world { calls = suc world.calls } in
      if S.publish_fails world.calls obj
      then (ok tt, record { world = after; trace = s.trace })
      else (
        ok tt,
        record {
          world = after;
          trace = record { event_type = event_type; object = obj } ∷ s.trace;
        },
      )

  -- `return storage.NewInternalError(err)`
  abbrev internally : {A B : Type 0} → Storing K A → (A → Storing K B) → Storing K B
  internally m next = branch m (λ _. fail Error.other) next

  -- s.Versioner().UpdateObject(obj, rv)
  abbrev pub versioned : K.Object → ℕ → Result K.Object
  versioned obj rv = elim (K.update_object obj rv) [ none ↦ err Error.other | some o ↦ ok o ]

  abbrev create_error : Error → Error
  create_error e = if is_already_exists e then Error.already_exists else Error.other

  -- The value of `out` is the object that is returned.
  unfoldable pub create : K.Object → Storing K K.Object
  unfolding next_resource_version begin commit deferring_rollback create_object broadcast
  create obj = internally next_resource_version λ rv. lift (versioned obj rv) >>= λ obj.
      internally (begin K S) λ _. deferring_rollback K S (
        branch (create_object K S obj) (λ e. fail (create_error e))
          λ _. internally (commit K S) λ _. broadcast EventType.added obj >> pure obj)

  abbrev pub key_error : Error → Error
  key_error e = if is_not_found e then Error.not_found else Error.other

  unfoldable pub delete :
      Bool
      → String
      → (K.Object → Result (Unit {0}))
      → (K.Object → Result (Unit {0}))
      → Storing K K.Object
  unfolding extract_key_name_and_namespace begin commit deferring_rollback delete_object broadcast
  delete cluster_scoped key preconditions validate_deletion =
      let (name, namespace) = extract_key_name_and_namespace cluster_scoped key in
      if name == ""
      then fail Error.other
      else internally (begin K S) λ _. deferring_rollback K S (
          branch (delete_object K S name namespace) (λ e. fail (key_error e))
            λ obj.
              lift (preconditions obj)
              >> (lift (validate_deletion obj)
                  >> (internally (commit K S) λ _. broadcast EventType.deleted obj >> pure obj)))

  -- `return nil` with objPtr at its zero value is `none`.
  abbrev pub missing : Bool → Error → Storing K (Option K.Object)
  missing ignore_not_found e =
      if is_not_found e
      then (if ignore_not_found then pure none else fail Error.not_found)
      else fail Error.other

  unfoldable pub get : Bool → String → Bool → Storing K (Option K.Object)
  unfolding extract_key_name_and_namespace get_object
  get cluster_scoped key ignore_not_found =
      let (name, namespace) = extract_key_name_and_namespace cluster_scoped key in
      if name == ""
      then fail Error.other
      else branch (get_object K S name namespace) (missing ignore_not_found) λ obj. pure (some obj)

  unfoldable pub count : Bool → String → Storing K ℕ
  unfolding extract_key_namespace count_objects
  count cluster_scoped key =
      internally (count_objects K S (extract_key_namespace cluster_scoped key)) pure
