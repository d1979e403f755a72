-- ===== src/Storage/Keys.antt =====
-- internal/storage/store.go: extractKeyNameAndNamespace and extractKeyNamespace, with the part of
-- strings.Split that they use.
use Prim.Native.Char.{Char, code}
use sbombastic.Common.{
  ◌≡◌, refl, String, Bool, true, false, List, [], ◌∷◌, All, append, arith, eqb, trim_prefix,
  cut_prefix, not, ◌&&◌, if◌then◌else◌,
}

abbrev glue : Char → List String → List String
glue c [] = String.◌∷◌ c String.[] ∷ []
glue c (part ∷ parts) = String.◌∷◌ c part ∷ parts

-- strings.Split(s, "/")
unfoldable pub split_slash : String → List String
split_slash String.[] = String.[] ∷ []
split_slash (String.◌∷◌ c s) =
    let parts = split_slash s in if eqb (code c) b'/' then String.[] ∷ parts else glue c parts

abbrev namespaced_key : List String → String × String
namespaced_key (group ∷ resource ∷ namespace ∷ name ∷ []) = (name, namespace)
namespaced_key _ = ("", "")

abbrev cluster_key : List String → String × String
cluster_key (group ∷ resource ∷ name ∷ []) = (name, "")
cluster_key _ = ("", "")

unfoldable pub extract_key_name_and_namespace : Bool → String → String × String
unfolding split_slash trim_prefix
extract_key_name_and_namespace cluster_scoped key =
    let parts = split_slash (trim_prefix key "/") in
    if cluster_scoped then cluster_key parts else namespaced_key parts

abbrev list_key : List String → String
list_key (group ∷ resource ∷ namespace ∷ []) = namespace
list_key _ = ""

unfoldable pub extract_key_namespace : Bool → String → String
unfolding split_slash trim_prefix
extract_key_namespace cluster_scoped key =
    if cluster_scoped then "" else list_key (split_slash (trim_prefix key "/"))

-- How the API server writes a key: every part behind a slash.
unfoldable pub print_key : List String → String
print_key [] = String.[]
print_key (part ∷ []) = part
print_key (part ∷ other ∷ parts) = append part (append "/" (print_key (other ∷ parts)))

-- A text without a slash.
unfoldable pub is_part : String → Bool
is_part String.[] = true
is_part (String.◌∷◌ c s) = not (eqb (code c) b'/') && is_part s

abbrev pub group_name : String
group_name = "storage.sbomscanner.kubewarden.io"

-- The key under which the watcher looks an object up.
unfoldable pub object_key : Bool → String → String → String → String
unfolding print_key
object_key true resource namespace name = print_key (group_name ∷ resource ∷ name ∷ [])
object_key false resource namespace name = print_key (group_name ∷ resource ∷ namespace ∷ name ∷ [])

is_part-cases : (slash rest : Bool) → (not slash && rest) ≡ true → (slash ≡ false) × (rest ≡ true)
is_part-cases slash rest h = ground arith

split_slash-part : (s : String) → is_part s ≡ true → split_slash s ≡ s ∷ []
unfolding split_slash is_part
split_slash-part String.[] h = refl
split_slash-part (String.◌∷◌ c s) h =
    let (n, h') = is_part-cases (eqb (code c) b'/') (is_part s) h in
    rw (n, split_slash-part s h') refl

split_slash-append :
    (s rest : String)
    → is_part s ≡ true
    → split_slash (append s (append "/" rest)) ≡ s ∷ split_slash rest
unfolding split_slash is_part
split_slash-append String.[] rest h = refl
split_slash-append (String.◌∷◌ c s) rest h =
    let (n, h') = is_part-cases (eqb (code c) b'/') (is_part s) h in
    rw (n, split_slash-append s rest h') refl

split_slash-print_key :
    (part : String) (parts : List String)
    → All (λ s. is_part s ≡ true) (part ∷ parts)
    → split_slash (print_key (part ∷ parts)) ≡ part ∷ parts
unfolding print_key
split_slash-print_key part [] (h, none_left) = split_slash-part part h
split_slash-print_key part (other ∷ parts) (h, hs) =
    rw (split_slash-append part (print_key (other ∷ parts)) h, split_slash-print_key other parts hs)
      refl

is_part-group_name : is_part group_name ≡ true
unfolding is_part
is_part-group_name = refl

-- The key that the watcher writes for an object is read back by the store as the name of that object
-- and, where the resource is not cluster-scoped, its namespace; names and resource have no slash.
pub extract_key_name_and_namespace-object_key :
    (cluster_scoped : Bool) (resource namespace name : String)
    → is_part resource ≡ true
    → is_part namespace ≡ true
    → is_part name ≡ true
    → extract_key_name_and_namespace cluster_scoped
        (object_key cluster_scoped resource namespace name)
      ≡ (name, if cluster_scoped then "" else namespace)
unfolding extract_key_name_and_namespace object_key trim_prefix cut_prefix
extract_key_name_and_namespace-object_key true resource namespace name r n m =
    rw (split_slash-print_key group_name (resource ∷ name ∷ []) (is_part-group_name, (r, (m, tt))))
      refl
extract_key_name_and_namespace-object_key false resource namespace name r n m =
    rw
      (split_slash-print_key group_name (resource ∷ namespace ∷ name ∷ [])
        (is_part-group_name, (r, (n, (m, tt)))))
      refl
