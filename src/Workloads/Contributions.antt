-- ===== src/Workloads/Contributions.antt =====
-- internal/controller/workloadscan_controller_registry.go: which namespace wants which condition.
use sbombastic.Common.{
  ◌≡◌, refl, ap, ◌∙◌, arith, String, Bool, true, false, ◌&&◌, ◌||◌, List, [], ◌∷◌, any, ◌==◌,
  if◌then◌else◌, is_empty, is_some, GoMap, lookup, lookup-assign, lookup-delete, eq_iff, eq_refl,
  Bool-cases, inl, inr,
}
use sbombastic.Registry.{MatchCondition}
use sbombastic.Workloads.{
  ConditionKey, same_key, KeySets, condition_key, namespace_label, relabel, process_conditions,
}

abbrev pub carries : String → MatchCondition → Bool
carries label c = is_some (lookup c.labels label)

pub same_key-path : (a b : ConditionKey) → same_key a b ≡ true → a ≡ b
same_key-path a b h =
    let p = (eq_iff a.repository b.repository).0 (ground arith) in
    let q = (eq_iff a.name b.name).0 (ground arith) in
    let r = (eq_iff a.expression b.expression).0 (ground arith) in
    λ i. record { repository = p i; name = q i; expression = r i }

-- The condition is that of the key, with the label.
abbrev pub bears : String → String → ConditionKey → MatchCondition → Bool
bears label repository k c = same_key (condition_key repository c) k && carries label c

lookup-empty :
    (m : GoMap String) (key : String) → is_empty m ≡ true → is_some (lookup m key) ≡ false
unfolding lookup
lookup-empty [] key h = refl
lookup-empty (e ∷ m) key h = ground arith

-- A condition without labels does not count.
any-kept :
    (p : MatchCondition → Bool) (new : MatchCondition) (kept : List MatchCondition)
    → (is_empty new.labels ≡ true → p new ≡ false)
    → any p (if is_empty new.labels then kept else new ∷ kept) ≡ (p new || any p kept)
any-kept p new kept h = elim (Bool-cases (is_empty new.labels)) [
  | inl e ↦ rw (e, h e) refl
  | inr e ↦ rw e refl
]

bears-empty :
    (label repository : String) (k : ConditionKey) (c : MatchCondition)
    → is_empty c.labels ≡ true
    → bears label repository k c ≡ false
bears-empty label repository k c h = ground (arith, lookup-empty c.labels label h)

module _ (K : KeySets) (needed : K.Set) (namespace : String) where
  abbrev pub own : String
  own = namespace_label namespace

  -- One condition with its labels set anew.
  relabel-other :
      (repository : String) (c : MatchCondition) (label : String)
      → (own == label) ≡ false
      → carries label (relabel K needed namespace repository c) ≡ carries label c
  unfolding relabel
  relabel-other repository c label h =
      elim (Bool-cases (K.has needed (condition_key repository c))) [
        | inl e ↦ rw (e, lookup-assign c.labels own label "true", h) refl
        | inr e ↦ rw (e, lookup-delete c.labels own label, h) refl
      ]

  relabel-own :
      (repository : String) (c : MatchCondition)
      → carries own (relabel K needed namespace repository c)
        ≡ K.has needed (condition_key repository c)
  unfolding relabel
  relabel-own repository c = elim (Bool-cases (K.has needed (condition_key repository c))) [
    | inl e ↦ rw (e, lookup-assign c.labels own own "true", eq_refl own) refl
    | inr e ↦ rw (e, lookup-delete c.labels own own, eq_refl own) refl
  ]

  relabel-key :
      (repository : String) (c : MatchCondition)
      → condition_key repository (relabel K needed namespace repository c)
        ≡ condition_key repository c
  unfolding relabel
  relabel-key repository c = elim (Bool-cases (K.has needed (condition_key repository c))) [
    | inl e ↦ rw e refl
    | inr e ↦ rw e refl
  ]

  needed_same :
      (a k : ConditionKey) → (same_key a k && K.has needed a) ≡ (same_key a k && K.has needed k)
  needed_same a k = elim (Bool-cases (same_key a k)) [
    | inl e ↦ ap (λ x. same_key a k && K.has needed x) (same_key-path a k e)
    | inr e ↦ rw e refl
  ]

  bears-other :
      (repository label : String) (k : ConditionKey) (c : MatchCondition)
      → (own == label) ≡ false
      → bears label repository k (relabel K needed namespace repository c)
        ≡ bears label repository k c
  bears-other repository label k c h =
      let new = relabel K needed namespace repository c in
      ap (λ x. same_key x k && carries label new) (relabel-key repository c)
      ∙ ap (λ b. same_key (condition_key repository c) k && b) (relabel-other repository c label h)

  bears-own :
      (repository : String) (k : ConditionKey) (c : MatchCondition)
      → bears own repository k (relabel K needed namespace repository c)
        ≡ (same_key (condition_key repository c) k && K.has needed k)
  bears-own repository k c =
      let new = relabel K needed namespace repository c in
      ap (λ x. same_key x k && carries own new) (relabel-key repository c)
      ∙ (ap (λ b. same_key (condition_key repository c) k && b) (relabel-own repository c)
          ∙ needed_same (condition_key repository c) k)

  -- What the loop keeps has a label of another namespace exactly where it had it before.
  pub conditions-other :
      (repository label : String) (k : ConditionKey)
      → (own == label) ≡ false
      → (cs : List MatchCondition) (matched : K.Set)
      → any
          (bears label repository k)
          (process_conditions K needed namespace repository cs matched).0
        ≡ any (bears label repository k) cs
  unfolding process_conditions
  conditions-other repository label k h [] matched = refl
  conditions-other repository label k h (c ∷ cs) matched =
      let new = relabel K needed namespace repository c in
      let more =
        if K.has needed (condition_key repository c)
        then K.insert matched (condition_key repository c)
        else matched in
      any-kept (bears label repository k) new
        (process_conditions K needed namespace repository cs more).0
        (bears-empty label repository k new)
      ∙ rw (bears-other repository label k c h, conditions-other repository label k h cs more) refl

  pub conditions-own :
      (repository : String) (k : ConditionKey) (cs : List MatchCondition) (matched : K.Set)
      → any (bears own repository k) (process_conditions K needed namespace repository cs matched).0
        ≡ (any (λ c. same_key (condition_key repository c) k) cs && K.has needed k)
  unfolding process_conditions
  conditions-own repository k [] matched = refl
  conditions-own repository k (c ∷ cs) matched =
      let new = relabel K needed namespace repository c in
      let more =
        if K.has needed (condition_key repository c)
        then K.insert matched (condition_key repository c)
        else matched in
      any-kept (bears own repository k) new
        (process_conditions K needed namespace repository cs more).0
        (bears-empty own repository k new)
      ∙ rw (bears-own repository k c, conditions-own repository k cs more) (ground arith)

  matched_more :
      (key k : ConditionKey) (matched : K.Set)
      → K.has (if K.has needed key then K.insert matched key else matched) k
        ≡ ((same_key key k && K.has needed k) || K.has matched k)
  matched_more key k matched = ground (arith, K.has-insert matched key k, needed_same key k)

  -- The needed conditions that the loop has met.
  pub conditions-matched :
      (repository : String) (k : ConditionKey) (cs : List MatchCondition) (matched : K.Set)
      → K.has (process_conditions K needed namespace repository cs matched).1 k ≡ (
          (any (λ c. same_key (condition_key repository c) k) cs && K.has needed k)
          || K.has matched k)
  unfolding process_conditions
  conditions-matched repository k [] matched = refl
  conditions-matched repository k (c ∷ cs) matched =
      let key = condition_key repository c in
      let more = if K.has needed key then K.insert matched key else matched in
      rw (conditions-matched repository k cs more, matched_more key k matched) (ground arith)
