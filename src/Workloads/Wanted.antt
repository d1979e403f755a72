-- ===== src/Workloads/Wanted.antt =====
-- internal/controller/workloadscan_controller_registry.go: what a namespace wants of a Registry after the
-- controller has updated it.
use sbombastic.Common.{
  ◌≡◌, refl, sym, ap, ◌∙◌, arith, String, Bool, true, false, ◌&&◌, ◌||◌, List, [], ◌∷◌, any,
  any-append, any-map, any-cong, ◌==◌, if◌then◌else◌, is_empty, lookup, eq_iff, eq_refl, Bool-cases,
  inl, inr,
}
use sbombastic.Registry.{MatchCondition, Repository}
use sbombastic.Workloads.{
  ConditionKey, same_key, KeySets, condition_key, namespace_label, process_conditions,
  process_repository_match_conditions, process_existing_repositories, new_condition, add_condition,
  add_new_match_conditions, updated_repositories, NameSorts, sort_repositories, with_conditions,
}
use sbombastic.Workloads.Contributions.{
  carries, bears, conditions-other, conditions-own, conditions-matched,
}

-- Some condition has the key and the label.
unfoldable pub wanted : String → List Repository → ConditionKey → Bool
wanted label repositories k = any (λ r. any (bears label r.name k) r.match_conditions) repositories

-- Some condition has the key, whatever its labels.
unfoldable pub present : List Repository → ConditionKey → Bool
present repositories k =
    any (λ r. any (λ c. same_key (condition_key r.name c) k) r.match_conditions) repositories

-- A repository without conditions does not count.
wanted-kept :
    (label : String) (k : ConditionKey) (r : Repository) (cs : List MatchCondition)
    (rest : List Repository)
    → wanted label (if is_empty cs then rest else with_conditions r cs ∷ rest) k
      ≡ (any (bears label r.name k) cs || wanted label rest k)
unfolding wanted
wanted-kept label k r [] rest = refl
wanted-kept label k r (c ∷ cs) rest = refl

module _ (K : KeySets) (needed : K.Set) (namespace : String) where
  abbrev kept : List Repository → K.Set → List Repository
  kept rs processed = (process_existing_repositories K needed namespace rs processed).0

  kept-other :
      (label : String) (k : ConditionKey)
      → (namespace_label namespace == label) ≡ false
      → (rs : List Repository) (processed : K.Set)
      → wanted label (kept rs processed) k ≡ wanted label rs k
  unfolding process_existing_repositories process_repository_match_conditions wanted
  kept-other label k h [] processed = refl
  kept-other label k h (r ∷ rs) processed =
      let cs = process_conditions K needed namespace r.name r.match_conditions K.empty in
      let more = K.union processed (cs.1) in
      wanted-kept label k r (cs.0) (kept rs more)
      ∙ rw
          (
            conditions-other K needed namespace r.name label k h r.match_conditions K.empty,
            kept-other label k h rs more,
          )
          refl

  kept-own :
      (k : ConditionKey) (rs : List Repository) (processed : K.Set)
      → wanted (namespace_label namespace) (kept rs processed) k ≡ (present rs k && K.has needed k)
  unfolding process_existing_repositories process_repository_match_conditions wanted present
  kept-own k [] processed = refl
  kept-own k (r ∷ rs) processed =
      let cs = process_conditions K needed namespace r.name r.match_conditions K.empty in
      let more = K.union processed (cs.1) in
      wanted-kept (namespace_label namespace) k r (cs.0) (kept rs more)
      ∙ rw
          (
            conditions-own K needed namespace r.name k r.match_conditions K.empty,
            kept-own k rs more,
          )
          (ground arith)

  processed-has :
      (k : ConditionKey) (rs : List Repository) (processed : K.Set)
      → K.has (process_existing_repositories K needed namespace rs processed).1 k
        ≡ ((present rs k && K.has needed k) || K.has processed k)
  unfolding process_existing_repositories process_repository_match_conditions present
  processed-has k [] processed = refl
  processed-has k (r ∷ rs) processed =
      let cs = process_conditions K needed namespace r.name r.match_conditions K.empty in
      let more = K.union processed (cs.1) in
      ground (
        arith,
        processed-has k rs more,
        K.has-union processed (cs.1) k,
        conditions-matched K needed namespace r.name k r.match_conditions K.empty,
        K.has-empty k,
      )

new_condition-carries :
    (namespace label : String) (key : ConditionKey)
    → carries label (new_condition namespace key) ≡ (namespace_label namespace == label)
unfolding lookup
new_condition-carries namespace label key = elim (Bool-cases (namespace_label namespace == label)) [
  | inl e ↦ rw e refl
  | inr e ↦ rw e refl
]

pub new_condition-bears :
    (namespace label repository : String) (key k : ConditionKey)
    → (repository == key.repository) ≡ true
    → bears label repository k (new_condition namespace key)
      ≡ ((namespace_label namespace == label) && same_key key k)
unfolding lookup
new_condition-bears namespace label repository key k h =
    let p = (eq_iff repository key.repository).0 h in
    ap (λ x. bears label x k (new_condition namespace key)) p
    ∙ (ap (λ b. same_key key k && b) (new_condition-carries namespace label key) ∙ ground arith)

wanted-add :
    (namespace label : String) (k : ConditionKey) (rs : List Repository) (key : ConditionKey)
    → wanted label (add_condition namespace rs key) k
      ≡ (wanted label rs k || ((namespace_label namespace == label) && same_key key k))
unfolding wanted add_condition
wanted-add namespace label k [] key =
    rw (new_condition-bears namespace label key.repository key k (eq_refl key.repository))
      (ground arith)
wanted-add namespace label k (r ∷ rs) key = elim (Bool-cases (r.name == key.repository)) [
  | inl e ↦
      rw
        (
          e,
          any-append (bears label r.name k) r.match_conditions (new_condition namespace key ∷ []),
          new_condition-bears namespace label r.name key k e,
        )
        (ground arith)
  | inr e ↦ rw (e, wanted-add namespace label k rs key) (ground arith)
]

wanted-add_all :
    (namespace label : String) (k : ConditionKey) (rs : List Repository) (keys : List ConditionKey)
    → wanted label (add_new_match_conditions namespace rs keys) k ≡ (
        wanted label rs k || ((namespace_label namespace == label) && any (λ x. same_key x k) keys))
unfolding add_new_match_conditions
wanted-add_all namespace label k rs [] = ground arith
wanted-add_all namespace label k rs (key ∷ keys) = ground (
  arith,
  wanted-add_all namespace label k (add_condition namespace rs key) keys,
  wanted-add namespace label k rs key,
)

-- The loop keeps what others want; what is needed and was met it keeps, and the rest of it is added.
pub wanted-updated :
    (K : KeySets) (needed : K.Set) (namespace label : String) (rs : List Repository)
    (k : ConditionKey)
    → wanted label (updated_repositories K needed namespace rs) k
      ≡ (if namespace_label namespace == label then K.has needed k else wanted label rs k)
unfolding updated_repositories
wanted-updated K needed namespace label rs k =
    let old = kept K needed namespace rs K.empty in
    let matched = (process_existing_repositories K needed namespace rs K.empty).1 in
    let new = K.difference needed matched in
    wanted-add_all namespace label k old (K.unsorted_list new)
    ∙ elim (Bool-cases (namespace_label namespace == label)) [
      | inl e ↦
          let p = (eq_iff (namespace_label namespace) label).0 e in
          let mine : wanted label old k ≡ (present rs k && K.has needed k) =
            ap (λ l. wanted l old k) (sym p) ∙ kept-own K needed namespace k rs K.empty in
          ground (
            arith,
            mine,
            K.any-unsorted_list new k,
            K.has-difference needed matched k,
            processed-has K needed namespace k rs K.empty,
            K.has-empty k,
          )
      | inr e ↦ rw (e, kept-other K needed namespace label k e rs K.empty) (ground arith)
    ]

-- A test of the repositories that looks at their conditions through `any` does not see the sorting.
pub any-sort :
    (sorts : NameSorts) (p : String → MatchCondition → Bool) (q : String → Bool → Bool)
    (rs : List Repository)
    → any (λ r. q r.name (any (p r.name) r.match_conditions)) (sort_repositories sorts rs)
      ≡ any (λ r. q r.name (any (p r.name) r.match_conditions)) rs
unfolding sort_repositories
any-sort sorts p q rs =
    any-map {A = Repository} (λ r. q r.name (any (p r.name) r.match_conditions))
      (λ r. record r { match_conditions = sorts.conditions_by_name r.match_conditions })
      (sorts.repositories_by_name rs)
    ∙ (any-cong (λ r. q r.name (any (p r.name) (sorts.conditions_by_name r.match_conditions)))
          (λ r. q r.name (any (p r.name) r.match_conditions))
          (λ r. ap (q r.name) (sorts.any-conditions (p r.name) r.match_conditions))
          (sorts.repositories_by_name rs)
        ∙ sorts.any-repositories (λ r. q r.name (any (p r.name) r.match_conditions)) rs)

pub wanted-sort :
    (sorts : NameSorts) (label : String) (rs : List Repository) (k : ConditionKey)
    → wanted label (sort_repositories sorts rs) k ≡ wanted label rs k
unfolding wanted
wanted-sort sorts label rs k = any-sort sorts (λ name. bears label name k) (λ name b. b) rs

-- After an update exactly the conditions that the namespace needs carry its label, and those that carry
-- any other label, of another namespace for one, are the same as before: none is lost, none is added.
pub updated_repositories-wanted :
    (K : KeySets) (sorts : NameSorts) (needed : K.Set) (namespace label : String)
    (rs : List Repository) (k : ConditionKey)
    → wanted label (sort_repositories sorts (updated_repositories K needed namespace rs)) k
      ≡ (if namespace_label namespace == label then K.has needed k else wanted label rs k)
updated_repositories-wanted K sorts needed namespace label rs k =
    wanted-sort sorts label (updated_repositories K needed namespace rs) k
    ∙ wanted-updated K needed namespace label rs k
