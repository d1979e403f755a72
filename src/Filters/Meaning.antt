-- ===== src/Filters/Meaning.antt =====
-- What FilterByTag decides, stated without its loop.
use sbombastic.Common.{
  String, ◌≡◌, refl, ◌↔◌, ◌⊎◌, inl, inr, Bool, true, false, List, [], ◌∷◌, some, arith, is_empty,
  All, Result, ok, Bool-cases,
}
use sbombastic.Registry.{MatchCondition, Repository, match_operator_and, match_operator_or}
use sbombastic.Filters.{filter_loop, filter_by_tag, effective_operator}

effective_and :
    (op : String)
    → (op ≡ "") ⊎ (op ≡ match_operator_and)
    → effective_operator op ≡ match_operator_and
unfolding effective_operator
effective_and op (inl e) = rw e refl
effective_and op (inr e) = rw e refl

effective_or : (op : String) → op ≡ match_operator_or → effective_operator op ≡ match_operator_or
unfolding effective_operator
effective_or op e = rw e refl

module _ (evaluate : String → String → Result Bool) (tag : String) where
  -- The expression of a condition evaluates to the given answer.
  abbrev pub Says : Bool → MatchCondition → Type 0
  Says b mc = evaluate mc.expression tag ≡ ok b

  loop_and :
      (mcs : List MatchCondition)
      → filter_loop evaluate match_operator_and tag mcs ≡ ok true
      → All (Says true) mcs
  unfolding filter_loop
  loop_and [] h = tt
  loop_and (mc ∷ mcs) h = ground (arith, loop_and mcs)

  and_loop :
      (mcs : List MatchCondition)
      → All (Says true) mcs
      → filter_loop evaluate match_operator_and tag mcs ≡ ok true
  unfolding filter_loop
  and_loop [] h = refl
  and_loop (mc ∷ mcs) h = ground (arith, and_loop mcs h.1)

  loop_or :
      (mcs : List MatchCondition)
      → filter_loop evaluate match_operator_or tag mcs ≡ ok false
      → All (Says false) mcs
  unfolding filter_loop
  loop_or [] h = tt
  loop_or (mc ∷ mcs) h = ground (arith, loop_or mcs)

  or_loop :
      (mcs : List MatchCondition)
      → All (Says false) mcs
      → filter_loop evaluate match_operator_or tag mcs ≡ ok false
  unfolding filter_loop
  or_loop [] h = refl
  or_loop (mc ∷ mcs) h = ground (arith, or_loop mcs h.1)

  All-of_empty : (b : Bool) (mcs : List MatchCondition) → is_empty mcs ≡ true → All (Says b) mcs
  All-of_empty b [] e = tt
  All-of_empty b (mc ∷ mcs) e = cc

  -- With the operator And, or none, FilterByTag admits a tag exactly when every condition of the
  -- repository evaluates to true.
  pub filter_by_tag_and :
      (p : Repository)
      → (p.match_operator ≡ "") ⊎ (p.match_operator ≡ match_operator_and)
      → (filter_by_tag evaluate (some p) tag ≡ ok true) ↔ All (Says true) p.match_conditions
  unfolding filter_by_tag
  filter_by_tag_and p op = (
    λ h. elim (Bool-cases (is_empty p.match_conditions)) [
      | inl e ↦ All-of_empty true p.match_conditions e
      | inr e ↦
          loop_and p.match_conditions
            (rw (e, effective_and p.match_operator op, filter_by_tag) at h)
    ],
    λ h. elim (Bool-cases (is_empty p.match_conditions)) [
      | inl e ↦ rw e refl
      | inr e ↦ rw (e, effective_and p.match_operator op) (and_loop p.match_conditions h)
    ],
  )

  no_rejection :
      (p : Repository)
      → is_empty p.match_conditions ≡ true
      → ¬ (filter_by_tag evaluate (some p) tag ≡ ok false)
  unfolding filter_by_tag
  no_rejection p e h = ground arith

  -- With the operator Or, FilterByTag rejects a tag exactly when the repository has conditions and
  -- every one of them evaluates to false.
  filter_by_tag_or :
      (p : Repository)
      → p.match_operator ≡ match_operator_or
      → (filter_by_tag evaluate (some p) tag ≡ ok false)
        ↔ ((is_empty p.match_conditions ≡ false) × All (Says false) p.match_conditions)
  unfolding filter_by_tag
  filter_by_tag_or p op = (
    λ h. elim (Bool-cases (is_empty p.match_conditions)) [
      | inl e ↦ absurd (no_rejection p e h)
      | inr e ↦ (
        e,
        loop_or p.match_conditions (rw (e, effective_or p.match_operator op, filter_by_tag) at h),
      )
    ],
    λ h. rw (h.0, effective_or p.match_operator op) (or_loop p.match_conditions h.1),
  )
