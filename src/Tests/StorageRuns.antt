-- ===== src/Tests/StorageRuns.antt =====
-- Runs of the storage: a kind of objects that are their own encoding, a server that answers every call,
-- and a table with two rows.
use sbombastic.Common.{
  ℕ, zero, suc, ◌≡◌, refl, ap, sym, arith, ◌>>=◌, String, true, false, Option, none, some, List, [],
  ◌∷◌, GoMap, ok,
}
use sbombastic.Storage.Keys.{
  object_key, extract_key_name_and_namespace, extract_key_name_and_namespace-object_key, is_part,
}
use sbombastic.Storage.Decimals.{parse_int, format_int, parse_int-format_int}
use sbombastic.Storage.Rows.{Kind, IsKind, Row, is_at}
use sbombastic.Storage.Repository.{Server, StoreRun, modified}
use sbombastic.Storage.Store.{create, delete}
use sbombastic.Storage.Store.Transactions.{Ends}
use sbombastic.Storage.Store.Updating.{Tried, updated, lock_conflict, guaranteed_update}
use sbombastic.Storage.Store.Finishing.{guaranteed_update-Finishes, is_finished}
use sbombastic.Storage.View.{
  PutsCreate, PutsDelete, PutsUpdate, create-Puts, delete-Puts, guaranteed_update-Puts,
}
use sbombastic.Storage.Invariant.{IsValid, Command, create_object, run_all, run_all-IsValid}
use sbombastic.Storage.Listing.{ListOptions, query_conditions}
use sbombastic.Storage.Listing.Answers.{follow_list}
use sbombastic.Storage.Listing.Following.{follow_list-list}
use sbombastic.Storage.Listing.Bounds.{Paged, list-Paged}
use sbombastic.Storage.Listing.Matching.{Selects, expected, label_condition-Selects}
use sbombastic.Storage.Listing.Selectors.{LabelRequirement, label_condition, does_not_exist}
use sbombastic.Storage.Listing.{list}
use sbombastic.Storage.Watcher.{process_message, process_message-Delivered, Delivered}

record Item : Type 0 where
  name : String
  namespace : String
  uid : String
  version : ℕ
  labels : Option (GoMap String)

abbrev items : Kind
items = record {
  Object = Item;
  Json = Item;
  name = λ o. o.name;
  namespace = λ o. o.namespace;
  uid = λ o. o.uid;
  version = λ o. o.version;
  update_object = λ o v. some (record o { version = v });
  parse_resource_version = λ s. some 0;
  new_object = record { name = ""; namespace = ""; uid = ""; version = 0; labels = none };
  annotate = λ o key value. o;
  marshal = λ o. some o;
  unmarshal = λ j. some j;
  labels = λ j. j.labels;
  field = λ j path. none;
  stored_version = λ j. some j.version;
}

abbrev or_item : Item → Option Item → Item
or_item o none = o
or_item o (some p) = p

items-IsKind : IsKind items
items-IsKind = record {
  unmarshal-marshal = λ o j e. sym e;
  name-update_object = λ o p v e. ap (λ q. (or_item o q).name) (sym e);
  namespace-update_object = λ o p v e. ap (λ q. (or_item o q).namespace) (sym e);
  version-update_object = λ o p v e. ap (λ q. (or_item o q).version) (sym e);
}

abbrev up : Server Item
up = record { fails = λ n. false; publish_fails = λ n o. false }

abbrev item : String → ℕ → Item
item name version = record {
  name = name;
  namespace = "prod";
  uid = name;
  version = version;
  labels = none;
}

abbrev row : ℕ → String → Row Item
row id name = record { id = id; name = name; namespace = "prod"; object = item name id }

abbrev two_rows : List (Row Item)
two_rows = row 1 "a" ∷ row 2 "b" ∷ []

abbrev two_stored : StoreRun items
two_stored = record {
  world = record {
    table = two_rows;
    next_id = 3;
    last_version = 2;
    is_called = true;
    saved = none;
    calls = 0;
  };
  trace = [];
}

abbrev key_b : String
key_b = "storage.sbomscanner.kubewarden.io/sboms/prod/b"

create-Puts_example :
    Ends items
      (PutsCreate items (item "c" 0) two_stored)
      two_stored
      (create items up (item "c" 0) two_stored)
create-Puts_example = create-Puts items up (item "c" 0) two_stored refl

delete-Puts_example :
    Ends items
      (PutsDelete items two_stored "b" "prod")
      two_stored
      (delete items up false key_b (λ o. ok tt) (λ o. ok tt) two_stored)
unfolding extract_key_name_and_namespace
delete-Puts_example = delete-Puts items up false key_b (λ o. ok tt) (λ o. ok tt) two_stored refl

-- The first try meets a conflict.
abbrev second_try : ℕ → Item → Tried Item
second_try zero o = lock_conflict
second_try (suc n) o = updated (record o { uid = "new" })

guaranteed_update-Puts_example :
    Ends items
      (PutsUpdate items (λ o. ok tt) second_try two_stored "b" "prod")
      two_stored
      (guaranteed_update items up false key_b false (λ o. ok tt) second_try 2 two_stored)
unfolding extract_key_name_and_namespace
guaranteed_update-Puts_example =
    guaranteed_update-Puts items up false key_b false (λ o. ok tt) second_try 2 two_stored refl

guaranteed_update-Finishes_example :
    is_finished
      (guaranteed_update items up false key_b false (λ o. ok tt) second_try 2 two_stored).0
    ≡ true
guaranteed_update-Finishes_example =
    guaranteed_update-Finishes items up false key_b false (λ o. ok tt) second_try 2 1 two_stored
      (λ o. refl) (omega arith)

two_stored-IsValid : IsValid items two_stored
unfolding is_at
two_stored-IsValid = (
  refl,
  (
    omega arith,
    (
      (
        (((omega arith, tt), (tt, tt))),
        (((omega arith, omega arith), ((omega arith, omega arith), tt)), ((refl, (refl, tt)))),
      ),
      tt,
    ),
  ),
)

abbrev two_commands : List (Command items)
two_commands = create_object (item "c" 0) ∷ create_object (item "c" 0) ∷ []

run_all-IsValid_example : IsValid items (run_all items up two_commands two_stored)
run_all-IsValid_example =
    run_all-IsValid items up items-IsKind two_commands two_stored two_stored-IsValid

abbrev by_one : ListOptions
by_one = record {
  resource_version = "";
  send_initial_events = none;
  allow_watch_bookmarks = false;
  limit = 1;
  continue = "";
  label = none;
  field = none;
}

follow_list-list_example :
    follow_list items up "" by_one two_stored 3
    ≡ ((list items up "" (record by_one { limit = 0 }) two_stored).0 >>= λ (found, token). ok found)
unfolding query_conditions
follow_list-list_example =
    follow_list-list items up "" by_one 0 [] two_stored 3 (λ n. refl) refl (omega arith) refl
      ((omega arith, tt), (tt, tt)) (omega arith, (omega arith, tt))
      (omega arith, (omega arith, tt)) ((item "a" 1, refl), ((item "b" 2, refl), tt)) (omega arith)

list-Paged_example : Paged items 1 (list items up "" by_one two_stored).0
list-Paged_example = list-Paged items up "" by_one two_stored (omega arith)

abbrev no_zone : LabelRequirement
no_zone = record { operator = does_not_exist; key = "zone"; values = [] }

label_condition-Selects_example :
    Selects items (label_condition no_zone) (row 1 "a") (expected items no_zone (row 1 "a"))
label_condition-Selects_example = label_condition-Selects items no_zone (row 1 "a") tt

parse_int-format_int_example : parse_int (format_int 42) ≡ some (false, 42)
parse_int-format_int_example = parse_int-format_int 42 (omega arith)

extract_key_name_and_namespace-object_key_example :
    extract_key_name_and_namespace false (object_key false "sboms" "prod" "b") ≡ ("b", "prod")
unfolding is_part
extract_key_name_and_namespace-object_key_example =
    extract_key_name_and_namespace-object_key false "sboms" "prod" "b" refl refl refl

process_message-Delivered_example :
    Delivered items up false "sboms" (item "b" 2) modified two_stored (
      process_message items up false "sboms"
        (some (record { event_type = modified; object = some (item "b" 2) }))
        two_stored)
unfolding is_part
process_message-Delivered_example =
    process_message-Delivered items up false "sboms" (item "b" 2) refl refl refl modified two_stored
