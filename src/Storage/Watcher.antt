-- ===== src/Storage/Watcher.antt =====
-- internal/storage/watcher.go: a replica gives its own watchers the events that another has published,
-- each with the object that the store holds. The decoding of a message and the spans around it are
-- left to the caller; the trace is what the local watchers get.
use mathlib.Core.Path.{subst}
use sbombastic.Common.{
  ◌≡◌, refl, ap, arith, String, Bool, true, false, Option, none, some, [], ◌∷◌, Error, Result, ok,
  ◌⊎◌, inl, inr, is_not_found, ◌==◌, eq_iff, if◌then◌else◌, Bool-cases,
}
use sbombastic.Effects.{pure, fail, call, branch, ◌>>=◌}
use sbombastic.Storage.Keys.{
  object_key, is_part, extract_key_name_and_namespace, extract_key_name_and_namespace-object_key,
}
use sbombastic.Storage.Rows.{Kind}
use sbombastic.Storage.Repository.{
  EventType, added, modified, deleted, Server, StoreRun, Storing, ask,
}
use sbombastic.Storage.Ensures.{Ensures, Ensures-if, Ensures-fail, Ensures-pure, Ensures-branch}
use sbombastic.Storage.Store.{get}
use sbombastic.Storage.Store.Rules.{get_object-Taken}
use sbombastic.Storage.Store.Atomic.{Stands}
use sbombastic.Storage.Store.Lists.{or_new}

-- A decoded message: its type and, where that can be decoded too, its object.
pub record Message (Object : Type 0) : Type 0 where
  pub event_type : EventType
  pub object : Option Object

module _ (K : Kind) (S : Server K.Object) (cluster_scoped : Bool) (resource : String) where
  abbrev same_object : K.Object → Option K.Object → K.Object
  same_object payload out =
      let fetched = or_new K S out in if K.uid fetched == K.uid payload then fetched else payload

  unfoldable pub rehydrate : K.Object → Storing K K.Object
  unfolding object_key get
  rehydrate payload =
      branch
        (get K S cluster_scoped
          (object_key cluster_scoped resource (K.namespace payload) (K.name payload)) false)
        (λ e. if is_not_found e then pure payload else fail Error.other)
        λ out. pure (same_object payload out)

  -- watchBroadcaster.Action
  unfoldable pub local_action : EventType → K.Object → Storing K (Unit {0})
  unfolding ask
  local_action event_type obj =
      branch
        (call (ask K S (λ db. (tt, db)))
          (λ _. record { event_type = event_type; object = obj } ∷ []))
        (λ _. fail Error.other) pure

  abbrev current : EventType → K.Object → Storing K K.Object
  current deleted obj = pure obj
  current _ obj = rehydrate obj

  abbrev process_object : EventType → Option K.Object → Storing K (Unit {0})
  process_object event_type none = fail Error.other
  process_object event_type (some obj) =
      current event_type obj >>= λ obj. local_action event_type obj

  unfoldable pub process_message : Option (Message K.Object) → Storing K (Unit {0})
  unfolding rehydrate local_action
  process_message none = fail Error.other
  process_message (some payload) = process_object payload.event_type payload.object

  -- Nothing is given to the watchers, and the table is as it was.
  abbrev pub Quiet : StoreRun K → StoreRun K → Type 0
  Quiet s t = (t.trace ≡ s.trace) × (t.world.table ≡ s.world.table)

  abbrev Got : String × String → StoreRun K → Result (Option K.Object) → Type 0
  Got (name, namespace) s (ok (some o)) = Stands K s name namespace o
  Got place s (ok none) = ⊥
  Got place s _ = Unit

  get-Got :
      (key : String) (s : StoreRun K)
      → Ensures
          (λ r. Quiet s r.1 × Got (extract_key_name_and_namespace cluster_scoped key) s r.0)
          (get K S cluster_scoped key false)
          s
  unfolding get
  get-Got key s =
      let (name, namespace) = extract_key_name_and_namespace cluster_scoped key in
      Ensures-if (name == "") _ _ s (λ e. Ensures-fail _ _ ((refl, refl), tt))
        λ e.
          Ensures-branch _ _ _ _ s (get_object-Taken K S name namespace s)
            (λ e t f. record { ensured = ground arith })
            (λ o t f. record { ensured = ground arith }) (λ t f. ground arith)

  -- The object that is broadcast for the payload.
  abbrev pub Current : K.Object → StoreRun K → K.Object → Type 0
  Current payload s o =
      (o ≡ payload)
      ⊎ ((K.uid o ≡ K.uid payload)
          × Stands K s (K.name payload) (if cluster_scoped then "" else K.namespace payload) o)

  abbrev Rehydrated : K.Object → StoreRun K → Result K.Object × StoreRun K → Type 0
  Rehydrated payload s (ok o, t) = Quiet s t × Current payload s o
  Rehydrated payload s (_, t) = Quiet s t

  same_object-Current :
      (payload : K.Object) (out : Option K.Object) (s : StoreRun K) (place : String × String)
      → place ≡ (K.name payload, if cluster_scoped then "" else K.namespace payload)
      → Got place s (ok out)
      → Current payload s (same_object payload out)
  same_object-Current payload none s place e g = absurd g
  same_object-Current payload (some o) s place e g = elim (Bool-cases (K.uid o == K.uid payload)) [
    | inl u ↦
        rw u (inr ((eq_iff (K.uid o) (K.uid payload)).0 u, subst (λ p. Got p s (ok (some o))) e g))
    | inr u ↦ rw u (inl refl)
  ]

  module _ (payload : K.Object) where
    abbrev pub CurrentFor : EventType → StoreRun K → K.Object → Type 0
    CurrentFor deleted s o = o ≡ payload
    CurrentFor _ s o = Current payload s o

    abbrev pub Delivered : EventType → StoreRun K → Result (Unit {0}) × StoreRun K → Type 0
    Delivered event_type s (ok _, t) =
        (t.world.table ≡ s.world.table)
        × ((o : K.Object) × ((t.trace ≡ record { event_type = event_type; object = o } ∷ s.trace)
              × CurrentFor event_type s o))
    Delivered event_type s (_, t) = Quiet s t

  module _ (payload : K.Object) (whole : is_part resource ≡ true)
      (whole_namespace : is_part (K.namespace payload) ≡ true)
      (whole_name : is_part (K.name payload) ≡ true) where
    rehydrate-Rehydrated : (s : StoreRun K) → Ensures (Rehydrated payload s) (rehydrate payload) s
    unfolding rehydrate
    rehydrate-Rehydrated s =
        let place =
          extract_key_name_and_namespace-object_key cluster_scoped resource (K.namespace payload)
            (K.name payload) whole whole_namespace whole_name in
        Ensures-branch _ _ _ _ s
          (get-Got (object_key cluster_scoped resource (K.namespace payload) (K.name payload)) s)
          (λ e t (q, _).
            Ensures-if (is_not_found e) _ _ t (λ _. Ensures-pure _ _ (q, inl refl))
              (λ _. Ensures-fail _ _ q))
          (λ out t (q, g). Ensures-pure _ _ (q, same_object-Current payload out s _ place g))
          (λ t (q, _). q)

    local_action-Delivered :
        (event_type : EventType) (o : K.Object) (s t : StoreRun K)
        → Quiet s t
        → CurrentFor payload event_type s o
        → Ensures (Delivered payload event_type s) (local_action event_type o) t
    unfolding local_action ask
    local_action-Delivered event_type o s t (trace, table) c =
        elim (Bool-cases (S.fails t.world.calls)) [
          | inl e ↦ record { ensured = rw e (trace, table) }
          | inr e ↦ record {
            ensured = rw e (
              table,
              (o, (ap (λ es. record { event_type = event_type; object = o } ∷ es) trace, c)),
            );
          }
        ]

    rehydrated-Delivered :
        (event_type : EventType) (s : StoreRun K)
        → ((o : K.Object) → Current payload s o → CurrentFor payload event_type s o)
        → Ensures
            (Delivered payload event_type s)
            (rehydrate payload >>= λ o. local_action event_type o)
            s
    rehydrated-Delivered event_type s c =
        Ensures-branch _ _ _ _ s (rehydrate-Rehydrated s) (λ e t q. Ensures-fail _ _ q)
          (λ o t (q, h). local_action-Delivered event_type o s t q (c o h)) (λ t q. q)

    pub process_message-Delivered :
        (event_type : EventType) (s : StoreRun K)
        → Delivered payload event_type s
            (process_message (some (record { event_type = event_type; object = some payload })) s)
    unfolding process_message
    process_message-Delivered added s = (rehydrated-Delivered added s (λ o h. h)).ensured
    process_message-Delivered modified s = (rehydrated-Delivered modified s (λ o h. h)).ensured
    process_message-Delivered deleted s =
        (local_action-Delivered deleted payload s s (refl, refl) refl).ensured
