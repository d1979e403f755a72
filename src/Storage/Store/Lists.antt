-- ===== src/Storage/Store/Lists.antt =====
-- internal/storage/store.go: GetList, Watch and watchList. What a watch begins with is the list of
-- events that the broadcaster sends before those that follow.
use sbombastic.Common.{
  ℕ, String, Bool, true, false, ◌&&◌, ◌||◌, Option, none, some, List, [], ◌∷◌, ◌++◌, map, Error,
  Result, ok, err, ◌==◌, if◌then◌else◌,
}
use sbombastic.Effects.{pure, fail, lift, read, ◌>>=◌}
use sbombastic.Storage.Keys.{extract_key_namespace}
use sbombastic.Storage.Decimals.{parse_uint}
use sbombastic.Storage.Rows.{Kind}
use sbombastic.Storage.Repository.{Server, Storing, ask}
use sbombastic.Storage.Listing.{ListOptions, list}
use sbombastic.Storage.Store.{next_resource_version, internally, get}

-- A list object: its items and its metadata.
pub record ObjectList (Object : Type 0) : Type 0 where
  pub items : List Object
  pub version : ℕ
  pub continue : String

-- The events that a watch begins with.
pub data WatchEvent (Object : Type 0) : Type 0 where
  initial : Object → WatchEvent Object
  bookmark : Object → WatchEvent Object

module _ (K : Kind) (S : Server K.Object) where
  abbrev is_unset : String → Bool
  is_unset rv = rv == "" || rv == "0"

  abbrev or_zero : Option ℕ → ℕ
  or_zero none = 0
  or_zero (some n) = n

  unfoldable list_version : ListOptions → Storing K ℕ
  unfolding next_resource_version parse_uint
  list_version opts =
      if is_unset opts.resource_version
      then next_resource_version K S
      else pure (or_zero (parse_uint opts.resource_version))

  unfoldable list_items : Bool → String → ListOptions → Storing K (ObjectList K.Object)
  unfolding extract_key_namespace list list_version
  list_items cluster_scoped key opts =
      internally K S (list K S (extract_key_namespace cluster_scoped key) opts) λ (items, token).
        internally K S (list_version opts)
          λ rv. pure (record { items = items; version = rv; continue = token })

  unfoldable pub get_list : Bool → String → ListOptions → Storing K (ObjectList K.Object)
  unfolding list_items
  get_list cluster_scoped key opts = elim (K.parse_resource_version opts.resource_version) [
    | none ↦ fail Error.bad_request
    | some rv ↦ list_items cluster_scoped key opts
  ]

  -- broadcaster.WatchWithPrefix and broadcaster.Watch
  unfoldable watch_with_prefix : List (WatchEvent K.Object) → Storing K (List (WatchEvent K.Object))
  unfolding ask
  watch_with_prefix events = read (ask K S (λ db. (events, db)))

  abbrev bookmarked : Option K.Object → Result K.Object
  bookmarked none = err Error.other
  bookmarked (some obj) = ok (K.annotate obj "k8s.io/initial-events-end" "true")

  unfoldable pub watch_list : Bool → String → ListOptions → Storing K (List (WatchEvent K.Object))
  unfolding get_list watch_with_prefix
  watch_list cluster_scoped key opts = get_list cluster_scoped key opts >>= λ found.
      lift (bookmarked (K.update_object K.new_object found.version)) >>= λ mark.
      watch_with_prefix (map initial found.items ++ (bookmark mark ∷ []))

  abbrev pub or_new : Option K.Object → K.Object
  or_new none = K.new_object
  or_new (some obj) = obj

  abbrev is_set : Option Bool → Bool
  is_set (some true) = true
  is_set _ = false

  unfoldable pub watch : Bool → String → ListOptions → Storing K (List (WatchEvent K.Object))
  unfolding watch_list get get_list watch_with_prefix
  watch cluster_scoped key opts =
      if is_set opts.send_initial_events && opts.allow_watch_bookmarks
      then watch_list cluster_scoped key opts
      else if opts.resource_version == ""
      then watch_with_prefix []
      else if opts.resource_version == "0"
      then (get K S cluster_scoped key false >>= λ out.
          watch_with_prefix (initial (or_new out) ∷ []))
      else (get_list cluster_scoped key opts >>= λ found.
          watch_with_prefix (map initial found.items))
