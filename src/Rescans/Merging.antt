-- ===== src/Rescans/Merging.antt =====
-- What the merged requests ask for.
use mathlib.Core.Path.{subst}
use sbombastic.Common.{
  String, ◌≡◌, refl, sym, ap, ◌∙◌, Bool, true, false, not, ◌&&◌, ◌||◌, Option, none, some, List, [],
  ◌∷◌, ◌==◌, eq_iff, arith, any, contains, is_empty, GoMap, if◌then◌else◌, lookup, assign, delete,
  lookup-assign, lookup-delete, Bool-cases, inl, inr,
}
use sbombastic.Sets.{Sets, insert_all, has-insert_all}
use sbombastic.Job.{ScanJobRepository}
use sbombastic.Rescans.Cases.{
  or_swap, or_false, whole_case, removed_case, added_case, base_case, step_case, contains_empty,
}
use sbombastic.Rescans.{Merged, nothing_merged, merge_repository, merge_repositories}

-- The requests of one list: is a repository wanted whole, or a condition of it by name?
abbrev pub wants_whole : List ScanJobRepository → String → Bool
wants_whole repos n = any (λ e. e.name == n && is_empty e.match_conditions) repos

abbrev pub wants : List ScanJobRepository → String → String → Bool
wants repos n c = any (λ e. e.name == n && contains e.match_conditions c) repos

module _ (S : Sets) where
  abbrev pub holds_condition : Option S.Set → String → Bool
  holds_condition none c = false
  holds_condition (some s) c = S.has s c

  -- The repository is wanted whole.
  abbrev pub is_whole : Merged S → String → Bool
  is_whole s n = S.has s.wildcard_repos n

  -- The condition of the repository is wanted by name.
  abbrev pub is_asked : Merged S → String → String → Bool
  is_asked s n c = holds_condition (lookup s.conds_by_repo n) c

  -- No conditions are kept for a repository that is wanted whole.
  abbrev pub IsNormal : Merged S → Type 0
  IsNormal s = (n c : String) → is_whole s n ≡ true → is_asked s n c ≡ false

  merge_whole :
      (s : Merged S) (e : ScanJobRepository) (n : String)
      → is_whole (merge_repository S s e) n
        ≡ (is_whole s n || (e.name == n && is_empty e.match_conditions))
  unfolding merge_repository
  merge_whole s e n = ground (arith, eq_iff e.name n, S.has-insert s.wildcard_repos e.name n)

  -- The conditions so far of a repository.
  abbrev kept : Option S.Set → S.Set
  kept none = S.new []
  kept (some s) = s

  has-kept : (o : Option S.Set) (c : String) → S.has (kept o) c ≡ holds_condition o c
  has-kept none c = S.has-new [] c
  has-kept (some s) c = refl

  held :
      (b : Bool) (x y : Option S.Set) (c : String)
      → holds_condition (if b then x else y) c
        ≡ (if b then holds_condition x c else holds_condition y c)
  held true x y c = refl
  held false x y c = refl

  added_conditions :
      (m : GoMap S.Set) (key n : String) (xs : List String) (c : String)
      → holds_condition (lookup (assign m key (insert_all S (kept (lookup m key)) xs)) n) c
        ≡ (holds_condition (lookup m n) c || (key == n && contains xs c))
  added_conditions m key n xs c =
      let new = insert_all S (kept (lookup m key)) xs in
      let at =
        ap (λ o. holds_condition o c) (lookup-assign m key n new)
        ∙ held (key == n) (some new) (lookup m n) c in
      let has = has-insert_all S (kept (lookup m key)) xs c in
      let before = has-kept (lookup m key) c in
      elim (Bool-cases (key == n)) [
        | inl same ↦
            let k = (eq_iff key n).0 same in
            let moved = ap (λ x. holds_condition (lookup m x) c) k in
            rw at (
              rw same (
                rw has (
                  rw before (
                    ap (λ b. contains xs c || b) moved
                    ∙ or_swap (contains xs c) (holds_condition (lookup m n) c)))))
        | inr other ↦ rw at (rw other (sym (or_false (holds_condition (lookup m n) c))))
      ]

  removed_conditions :
      (m : GoMap S.Set) (key n c : String)
      → holds_condition (lookup (delete m key) n) c
        ≡ (not (key == n) && holds_condition (lookup m n) c)
  removed_conditions m key n c =
      let at =
        ap (λ o. holds_condition o c) (lookup-delete m key n)
        ∙ held (key == n) none (lookup m n) c in
      elim (Bool-cases (key == n)) [
        | inl same ↦ rw at (rw same refl)
        | inr other ↦ rw at (rw other refl)
      ]

  merge_asked :
      (s : Merged S) (e : ScanJobRepository) (n c : String)
      → IsNormal s
      → is_asked (merge_repository S s e) n c ≡ (
          not (is_whole (merge_repository S s e) n)
          && (is_asked s n c || (e.name == n && contains e.match_conditions c)))
  unfolding merge_repository
  merge_asked s e n c normal = elim (Bool-cases (S.has s.wildcard_repos e.name)) [
    | inl whole ↦ rw whole (have_whole whole)
    | inr part ↦ elim (Bool-cases (is_empty e.match_conditions)) [
      | inl all ↦ rw part (
          rw all (
            rw
              (
                removed_conditions s.conds_by_repo e.name n c,
                S.has-insert s.wildcard_repos e.name n,
              )
              (removed_case (S.has s.wildcard_repos n) (is_asked s n c) (e.name == n)
                (contains e.match_conditions c) (normal n c)
                (contains_empty e.match_conditions c all))))
      | inr some_only ↦ rw part (
          rw some_only (
            rw (added_conditions s.conds_by_repo e.name n e.match_conditions c) (
              added_case (S.has s.wildcard_repos n) (is_asked s n c) (e.name == n)
                (contains e.match_conditions c) (normal n c)
                (λ h. subst (λ x. S.has s.wildcard_repos x ≡ false) ((eq_iff e.name n).0 h) part))))
    ]
  ]
    where
      have_whole :
          S.has s.wildcard_repos e.name ≡ true
          → is_asked s n c ≡ (
              not (is_whole s n)
              && (is_asked s n c || (e.name == n && contains e.match_conditions c)))
      have_whole whole =
          let none_kept = normal n c in
          let same_name =
            λ (k : e.name ≡ n). subst (λ x. S.has s.wildcard_repos x ≡ true) k whole in
          whole_case (S.has s.wildcard_repos n) (is_asked s n c) (e.name == n)
            (contains e.match_conditions c) none_kept (λ h. same_name ((eq_iff e.name n).0 h))

  merge_repository-IsNormal :
      (s : Merged S) (e : ScanJobRepository) → IsNormal s → IsNormal (merge_repository S s e)
  merge_repository-IsNormal s e normal n c whole =
      merge_asked s e n c normal
      ∙ ap (λ b. not b && (is_asked s n c || (e.name == n && contains e.match_conditions c))) whole

  merged_whole :
      (repos : List ScanJobRepository) (s : Merged S) (n : String)
      → is_whole (merge_repositories S s repos) n ≡ (is_whole s n || wants_whole repos n)
  unfolding merge_repositories
  merged_whole [] s n = sym (or_false (is_whole s n))
  merged_whole (e ∷ es) s n =
      ground (arith, merged_whole es (merge_repository S s e) n, merge_whole s e n)

  merged_asked :
      (repos : List ScanJobRepository) (s : Merged S) (n c : String)
      → IsNormal s
      → is_asked (merge_repositories S s repos) n c
        ≡ (not (is_whole s n || wants_whole repos n) && (is_asked s n c || wants repos n c))
  unfolding merge_repositories
  merged_asked [] s n c normal = base_case (is_whole s n) (is_asked s n c) (normal n c)
  merged_asked (e ∷ es) s n c normal =
      let ih =
        merged_asked es (merge_repository S s e) n c (merge_repository-IsNormal s e normal) in
      let now = merge_asked s e n c normal in
      let whole = merge_whole s e n in
      rw (ih, now, whole)
        (step_case (is_whole s n) (is_asked s n c) (e.name == n && is_empty e.match_conditions)
          (e.name == n && contains e.match_conditions c) (wants_whole es n) (wants es n c))

  nothing-IsNormal : IsNormal (nothing_merged S)
  unfolding nothing_merged lookup
  nothing-IsNormal n c h = refl

-- What is kept when all entries of the rescan requests are merged, in whatever order they come: a
-- repository is wanted whole exactly if some entry names it without conditions; and if none does, a
-- condition of it is wanted exactly if some entry names it with this condition.
pub merge_repositories-wants :
    (S : Sets) (repos : List ScanJobRepository) (n c : String)
    → (is_whole S (merge_repositories S (nothing_merged S) repos) n ≡ wants_whole repos n)
      × (is_asked S (merge_repositories S (nothing_merged S) repos) n c
          ≡ (not (wants_whole repos n) && wants repos n c))
unfolding nothing_merged lookup
merge_repositories-wants S repos n c =
    let start = S.has-new [] n in
    (
      merged_whole S repos (nothing_merged S) n ∙ ap (λ b. b || wants_whole repos n) start,
      merged_asked S repos (nothing_merged S) n c (nothing-IsNormal S)
          ∙ ap (λ b. not (b || wants_whole repos n) && wants repos n c) start,
    )
