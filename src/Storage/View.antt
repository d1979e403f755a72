-- ===== src/Storage/View.antt =====
-- The abstract view of the storage: a function from a name and a namespace to what is stored there.
-- internal/storage/store.go: each operation that writes is one change of that function, or none.
use mathlib.Core.Path.{fun_ext}
use sbombastic.Common.{
  ℕ, ◌≤◌, ◌≡◌, refl, arith, String, Bool, false, ◌&&◌, Option, none, some, List, [], ◌∷◌, ◌++◌,
  Result, ok, err, panic, is_some, any, ◌==◌, eq_iff, if◌then◌else◌,
}
use sbombastic.Storage.Keys.{extract_key_name_and_namespace}
use sbombastic.Storage.Rows.{Kind, Row, is_at, select_object, delete_rows, update_rows}
use sbombastic.Storage.Repository.{Server, StoreRun}
use sbombastic.Storage.Store.{create, delete, next_version}
use sbombastic.Storage.Store.Transactions.{Ends}
use sbombastic.Storage.Store.Atomic.{Created, Deleted, create-Created, delete-Deleted}
use sbombastic.Storage.Store.Updating.{
  Tried, updated, Updating, returned, unfinished, guaranteed_update,
}
use sbombastic.Storage.Store.Updates.{Updated, guaranteed_update-Updated}

abbrev pub View : Type 0 → Type 0
View Json = String → String → Option Json

module _ {Json : Type 0} where
  -- The function, changed at one name and namespace.
  unfoldable pub put : View Json → String → String → Option Json → View Json
  put f name namespace value a b = if name == a && namespace == b then value else f a b

  select-insert :
      (rows : List (Row Json)) (row : Row Json) (a b : String)
      → any (is_at row.name row.namespace) rows ≡ false
      → select_object (rows ++ (row ∷ [])) a b
        ≡ (if row.name == a && row.namespace == b then some row.object else select_object rows a b)
  unfolding select_object is_at
  select-insert [] row a b h = refl
  select-insert (r ∷ rows) row a b h = ground (
    arith,
    select-insert rows row a b,
    eq_iff r.name a,
    eq_iff r.namespace b,
    eq_iff row.name a,
    eq_iff row.namespace b,
    eq_iff r.name row.name,
    eq_iff r.namespace row.namespace,
  )

  select-delete_rows :
      (name namespace : String) (rows : List (Row Json)) (a b : String)
      → select_object (delete_rows name namespace rows) a b
        ≡ (if name == a && namespace == b then none else select_object rows a b)
  unfolding select_object delete_rows is_at
  select-delete_rows name namespace [] a b = ground arith
  select-delete_rows name namespace (r ∷ rows) a b = ground (
    arith,
    select-delete_rows name namespace rows a b,
    eq_iff r.name a,
    eq_iff r.namespace b,
    eq_iff name a,
    eq_iff namespace b,
    eq_iff r.name name,
    eq_iff r.namespace namespace,
  )

  select-update_rows :
      (name namespace : String) (object : Json) (rows : List (Row Json)) (a b : String)
      → select_object (update_rows name namespace object rows) a b ≡ (
          if name == a && namespace == b && is_some (select_object rows a b)
          then some object
          else select_object rows a b)
  unfolding select_object update_rows is_at
  select-update_rows name namespace object [] a b = ground arith
  select-update_rows name namespace object (r ∷ rows) a b = ground (
    arith,
    select-update_rows name namespace object rows a b,
    eq_iff r.name a,
    eq_iff r.namespace b,
    eq_iff name a,
    eq_iff namespace b,
    eq_iff r.name name,
    eq_iff r.namespace namespace,
  )

  select-update_there :
      (name namespace : String) (object old : Json) (rows : List (Row Json)) (a b : String)
      → select_object rows name namespace ≡ some old
      → select_object (update_rows name namespace object rows) a b
        ≡ put (select_object rows) name namespace (some object) a b
  unfolding put
  select-update_there name namespace object old rows a b h =
      ground (
        arith,
        select-update_rows name namespace object rows a b,
        eq_iff name a,
        eq_iff namespace b,
      )

  select-none :
      (rows : List (Row Json)) (a b : String)
      → any (is_at a b) rows ≡ false
      → select_object rows a b ≡ none
  unfolding select_object is_at
  select-none [] a b h = refl
  select-none (r ∷ rows) a b h = ground (arith, select-none rows a b)

abbrev pub view : (K : Kind) → StoreRun K → View K.Json
view K s = select_object s.world.table

module _ (K : Kind) where
  -- The operation has changed the view at one place, from the first to the second value.
  abbrev pub Puts :
      StoreRun K → StoreRun K → String → String → Option K.Json → Option K.Json → Type 0
  Puts s t name namespace before after =
      (view K s name namespace ≡ before) × (view K t ≡ put (view K s) name namespace after)

  -- What Create puts, and what Delete takes away.
  abbrev pub PutsCreate : K.Object → StoreRun K → K.Object → StoreRun K → Type 0
  PutsCreate obj s o t =
      (K.update_object obj (next_version s.world) ≡ some o)
      × ((bytes : K.Json) × ((K.marshal o ≡ some bytes)
            × Puts s t (K.name o) (K.namespace o) none (some bytes)))

  abbrev pub PutsDelete : StoreRun K → String → String → K.Object → StoreRun K → Type 0
  PutsDelete s name namespace o t =
      (bytes : K.Json) × ((K.unmarshal bytes ≡ some o) × Puts s t name namespace (some bytes) none)

  module _ {A : Type 0} {P R : A → StoreRun K → Type 0} where
    pub Ends-weaken :
        (s : StoreRun K) (r : Result A × StoreRun K)
        → Ends K P s r
        → ((a : A) (t : StoreRun K) → P a t → R a t)
        → Ends K R s r
    Ends-weaken s (ok a, t) e h = h a t e
    Ends-weaken s (err f, t) e h = e
    Ends-weaken s (panic, t) e h = e

  -- Create puts the encoding of the given object, with the next resource version, where nothing stood,
  -- and returns that object; where it fails, the table and the broadcasts are as they were.
  pub create-Puts :
      (S : Server K.Object) (obj : K.Object) (s : StoreRun K)
      → s.world.saved ≡ none
      → Ends K (PutsCreate obj s) s (create K S obj s)
  unfolding put
  create-Puts S obj s h =
      Ends-weaken {P = Created K S obj s} s _ (create-Created K S obj s h).ensured
        (λ o t (u, (v, ((fresh, (bytes, (m, rows))), _))). (
          u,
          (
            bytes,
            (
              m,
              (
                select-none s.world.table (K.name o) (K.namespace o) fresh,
                fun_ext λ a. fun_ext λ b. rw rows (select-insert s.world.table _ a b fresh),
              ),
            ),
          ),
        ))

  -- Delete takes the value away that stood at the name and the namespace of the key.
  pub delete-Puts :
      (S : Server K.Object) (cluster_scoped : Bool) (key : String)
      (preconditions validate_deletion : K.Object → Result (Unit {0})) (s : StoreRun K)
      → s.world.saved ≡ none
      → let (name, namespace) = extract_key_name_and_namespace cluster_scoped key in
        Ends K
          (PutsDelete s name namespace)
          s
          (delete K S cluster_scoped key preconditions validate_deletion s)
  unfolding put
  delete-Puts S cluster_scoped key preconditions validate_deletion s h =
      let (name, namespace) = extract_key_name_and_namespace cluster_scoped key in
      Ends-weaken {P = Deleted K S (name, namespace) preconditions validate_deletion s} s _
        (delete-Deleted K S cluster_scoped key preconditions validate_deletion s h).ensured
        (λ o t ((bytes, (at, m)), (_, (_, (rows, _)))). (
          bytes,
          (
            m,
            (
              at,
              fun_ext
                  λ a. fun_ext λ b. rw rows (select-delete_rows name namespace s.world.table a b),
            ),
          ),
        ))

  -- What GuaranteedUpdate puts, by how its loop ended.
  abbrev pub PutsUpdate :
      (K.Object → Result (Unit {0}))
      → (ℕ → K.Object → Tried K.Object)
      → StoreRun K
      → String
      → String
      → Updating K.Object
      → StoreRun K
      → Type 0
  PutsUpdate preconditions try_update s name namespace (returned (some o)) t =
      (was : K.Json) × (old : K.Object) × (new : K.Object) × (tried : ℕ) × (v : ℕ) × ((K.unmarshal
            was
          ≡ some old)
        × ((preconditions old ≡ ok tt)
            × ((try_update tried old ≡ updated new)
                × ((K.update_object new v ≡ some o)
                    × ((next_version s.world ≤ v)
                        × ((bytes : K.Json) × ((K.marshal o ≡ some bytes)
                              × Puts s t name namespace (some was) (some bytes))))))))
  PutsUpdate preconditions try_update s name namespace _ t = view K t ≡ view K s

  -- Where GuaranteedUpdate returns an object, that is what one of the calls of tryUpdate made of the
  -- object that stood there, which met the preconditions, under a resource version that was not given
  -- before; and its encoding was put where the other stood. Otherwise the view is as it was; where it
  -- fails, so are the table and the broadcasts.
  pub guaranteed_update-Puts :
      (S : Server K.Object) (cluster_scoped : Bool) (key : String) (ignore_not_found : Bool)
      (preconditions : K.Object → Result (Unit {0})) (try_update : ℕ → K.Object → Tried K.Object)
      (fuel : ℕ) (s : StoreRun K)
      → s.world.saved ≡ none
      → let (name, namespace) = extract_key_name_and_namespace cluster_scoped key in
        Ends K (PutsUpdate preconditions try_update s name namespace) s (
          guaranteed_update K S cluster_scoped key ignore_not_found preconditions try_update fuel s)
  unfolding put
  guaranteed_update-Puts S cluster_scoped key ignore_not_found preconditions try_update fuel s h =
      let (name, namespace) = extract_key_name_and_namespace cluster_scoped key in
      Ends-weaken {P = Updated K S name namespace ignore_not_found preconditions try_update s} s _
        (guaranteed_update-Updated K S cluster_scoped key ignore_not_found preconditions try_update
          fuel s h).ensured
        (puts s name namespace)
    where
      puts :
          (s : StoreRun K) (name namespace : String) (u : Updating K.Object) (t : StoreRun K)
          → Updated K S name namespace ignore_not_found preconditions try_update s u t
          → PutsUpdate preconditions try_update s name namespace u t
      puts s name namespace (returned none) t (i, same) = cc
      puts s name namespace unfinished t same = cc
      puts s name namespace (returned (some o)) t
            (
              new,
              (
                (old, ((was, (at, decoded)), (allowed, (tried, tries)))),
                ((v, (versioned, (later, _))), ((bytes, (m, rows)), _)),
              ),
            ) =
          (
            was,
            old,
            new,
            tried,
            v,
            (
              decoded,
              (
                allowed,
                (
                  tries,
                  (
                    versioned,
                    (
                      later,
                      (
                        bytes,
                        (
                          m,
                          (
                            at,
                            fun_ext λ a. fun_ext λ b.
                                rw rows (
                                  select-update_there name namespace bytes was s.world.table a b
                                    at),
                          ),
                        ),
                      ),
                    ),
                  ),
                ),
              ),
            ),
          )
