-- ===== src/Storage/Rows.antt =====
-- internal/storage/repository/generic_object_repository.go: the SQL statements of the repository of
-- one kind of objects, with what they do to the rows of its table, and the methods that run them.
--
-- An object is a value of Go, `Json` what the column of a row holds of it; both, encoding/json, the
-- accessors of the metadata and the Versioner of k8s.io/apiserver are the fields of a `Kind`.
use sbombastic.Common.{
  ℕ, ◌≡◌, String, Bool, ◌&&◌, Option, none, some, List, [], ◌∷◌, ◌++◌, GoMap, ◌==◌, filter, length,
  any, if◌then◌else◌,
}

pub record Kind : Type 1 where
  pub Object : Type 0
  pub Json : Type 0
  pub name : Object → String
  pub namespace : Object → String
  pub uid : Object → String
  pub version : Object → ℕ
  -- Versioner.UpdateObject
  pub update_object : Object → ℕ → Option Object
  -- Versioner.ParseResourceVersion
  pub parse_resource_version : String → Option ℕ
  -- newFunc(), and accessor.SetAnnotations with one annotation more
  pub new_object : Object
  pub annotate : Object → String → String → Object
  pub marshal : Object → Option Json
  pub unmarshal : Json → Option Object
  -- `object->'metadata'->'labels'`, and `object #>> path`
  pub labels : Json → Option (GoMap String)
  pub field : Json → List String → Option String
  -- `(object->'metadata'->>'resourceVersion')::bigint`
  pub stored_version : Json → Option ℕ

-- What the documentation of those functions says.
pub record IsKind (K : Kind) : Type 0 where
  pub unmarshal-marshal :
      (o : K.Object) (j : K.Json) → K.marshal o ≡ some j → K.unmarshal j ≡ some o
  pub name-update_object :
      (o p : K.Object) (v : ℕ) → K.update_object o v ≡ some p → K.name p ≡ K.name o
  pub namespace-update_object :
      (o p : K.Object) (v : ℕ) → K.update_object o v ≡ some p → K.namespace p ≡ K.namespace o
  pub version-update_object :
      (o p : K.Object) (v : ℕ) → K.update_object o v ≡ some p → K.version p ≡ v

-- CREATE TABLE (id BIGSERIAL PRIMARY KEY, name TEXT, namespace TEXT, object JSONB,
-- UNIQUE (name, namespace))
pub record Row (Json : Type 0) : Type 0 where
  pub id : ℕ
  pub name : String
  pub namespace : String
  pub object : Json

module _ {Json : Type 0} where
  -- WHERE name = $1 AND namespace = $2
  unfoldable pub is_at : String → String → Row Json → Bool
  is_at name namespace row = row.name == name && row.namespace == namespace

  -- SELECT object FROM table WHERE name = $1 AND namespace = $2: its first row
  unfoldable pub select_object : List (Row Json) → String → String → Option Json
  unfolding is_at
  select_object [] name namespace = none
  select_object (row ∷ rows) name namespace =
      let rest = select_object rows name namespace in
      if is_at name namespace row then some row.object else rest

  -- INSERT INTO table (name, namespace, object) VALUES … ON CONFLICT DO NOTHING, where the sequence
  -- of the column id gives `id`: the rows affected, and the rows of the table in the order of id.
  unfoldable pub insert_row : ℕ → String → String → Json → List (Row Json) → ℕ × List (Row Json)
  unfolding is_at
  insert_row id name namespace object rows =
      if any (is_at name namespace) rows then (0, rows) else (
        1,
        rows ++ (record { id = id; name = name; namespace = namespace; object = object } ∷ []),
      )

  -- DELETE FROM table WHERE name = $1 AND namespace = $2 RETURNING object
  unfoldable pub delete_rows : String → String → List (Row Json) → List (Row Json)
  unfolding is_at
  delete_rows name namespace [] = []
  delete_rows name namespace (row ∷ rows) =
      let rest = delete_rows name namespace rows in
      if is_at name namespace row then rest else row ∷ rest

  -- UPDATE table SET object = $1 WHERE name = $2 AND namespace = $3
  unfoldable pub update_rows : String → String → Json → List (Row Json) → List (Row Json)
  unfolding is_at
  update_rows name namespace object [] = []
  update_rows name namespace object (row ∷ rows) =
      let rest = update_rows name namespace object rows in
      (if is_at name namespace row then record row { object = object } else row) ∷ rest

  -- SELECT COUNT(*) FROM table, WHERE namespace = $1 unless that is empty
  unfoldable pub count_rows : String → List (Row Json) → ℕ
  count_rows namespace rows =
      if namespace == ""
      then length rows
      else length (filter (λ row. row.namespace == namespace) rows)
