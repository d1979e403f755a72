-- ===== src/Admission/Guarding.antt =====
-- internal/webhook/v1alpha1/: what other users than the controller's service account can bring about
-- by sequences of requests, and which requests are admitted.
use mathlib.Core.Path.{subst}
use sbombastic.Common.{
  ◌≡◌, refl, sym, ◌∙◌, arith, String, Bool, true, false, Option, none, some, List, [], ◌∷◌, All,
  if◌then◌else◌, Bool-cases, inl, inr,
}
use sbombastic.Registry.{Registry}
use sbombastic.Admission.{
  Verdict, is_admitted, Username, ServiceAccount, only_service_account, is_service_account,
}
use sbombastic.Admission.ScanJobs.{guarded}
use sbombastic.Admission.Registries.{
  is_managed, validated_managed_registry, validate_registry_create, validate_registry_update,
  validate_registry_delete,
}

pub guard-others :
    (account : ServiceAccount) (user : Username) (v : Verdict)
    → is_service_account account user ≡ false
    → is_admitted (guarded (only_service_account account user) v) ≡ false
unfolding is_service_account only_service_account
guard-others account none v h = refl
guard-others account (some user) v h = ground arith

pub guard-service :
    (account : ServiceAccount) (user : Username) (v : Verdict)
    → is_service_account account user ≡ true
    → guarded (only_service_account account user) v ≡ v
unfolding is_service_account only_service_account
guard-service account none v h = ground arith
guard-service account (some user) v h = ground arith

-- A request for one Registry.
pub data RegistryRequest : Type 0 where
  create_it update_it : Username → Registry → RegistryRequest
  delete_it : Username → RegistryRequest

abbrev user_of : RegistryRequest → Username
user_of (create_it user r) = user
user_of (update_it user r) = user
user_of (delete_it user) = user

module _ (evaluator : Option (String → Bool)) (account : ServiceAccount) where
  -- What is stored behind the request: a request that is not admitted changes nothing.
  unfoldable serve : Option Registry → RegistryRequest → Option Registry
  unfolding validate_registry_create validate_registry_update validate_registry_delete
  serve none (create_it user r) =
      if is_admitted (validate_registry_create evaluator account user r) then some r else none
  serve (some old) (update_it user r) =
      if is_admitted (validate_registry_update evaluator account user old r)
      then some r
      else some old
  serve (some old) (delete_it user) =
      if is_admitted (validate_registry_delete evaluator account user old) then none else some old
  serve s _ = s

  unfoldable pub serve_all : Option Registry → List RegistryRequest → Option Registry
  unfolding serve
  serve_all s [] = s
  serve_all s (q ∷ requests) = serve_all (serve s q) requests

  unfoldable pub stores_managed : Option Registry → Bool
  unfolding is_managed
  stores_managed none = false
  stores_managed (some r) = is_managed r

  abbrev pub IsOther : RegistryRequest → Type 0
  IsOther q = is_service_account account (user_of q) ≡ false

  serve-managed :
      (s : Option Registry) (q : RegistryRequest)
      → IsOther q
      → stores_managed s ≡ true
      → serve s q ≡ s
  unfolding serve stores_managed validate_registry_update validate_registry_delete
      validated_managed_registry
  serve-managed none q o m = ground arith
  serve-managed (some old) (create_it user r) o m = refl
  serve-managed (some old) (update_it user r) o m = rw (m, guard-others account user _ o) refl
  serve-managed (some old) (delete_it user) o m = rw (m, guard-others account user _ o) refl

  serve-unmanaged :
      (s : Option Registry) (q : RegistryRequest)
      → IsOther q
      → stores_managed s ≡ false
      → stores_managed (serve s q) ≡ false
  unfolding serve stores_managed validate_registry_create validate_registry_update
      validate_registry_delete validated_managed_registry
  serve-unmanaged none (create_it user r) o m = elim (Bool-cases (is_managed r)) [
    | inl e ↦ rw (e, guard-others account user _ o) refl
    | inr e ↦ ground arith
  ]
  serve-unmanaged none (update_it user r) o m = refl
  serve-unmanaged none (delete_it user) o m = refl
  serve-unmanaged (some old) (create_it user r) o m = m
  serve-unmanaged (some old) (update_it user r) o m = elim (Bool-cases (is_managed r)) [
    | inl e ↦ rw (m, e, guard-others account user _ o) m
    | inr e ↦ ground arith
  ]
  serve-unmanaged (some old) (delete_it user) o m = ground arith

  -- Requests of other users leave a managed Registry exactly as it is, and where none is stored they
  -- cannot bring one about, whatever they create, update and delete in whatever order.
  pub serve_all-managed :
      (s : Option Registry) (requests : List RegistryRequest)
      → All IsOther requests
      → (stores_managed s ≡ true → serve_all s requests ≡ s)
        × (stores_managed s ≡ false → stores_managed (serve_all s requests) ≡ false)
  unfolding serve_all
  serve_all-managed s [] h = (λ m. refl, λ m. m)
  serve_all-managed s (q ∷ requests) (o, h) =
      let (kept, free) = serve_all-managed (serve s q) requests h in
      (
        λ m.
            let e = serve-managed s q o m in
            kept (subst (λ t. stores_managed t ≡ true) (sym e) m) ∙ e,
        λ m. free (serve-unmanaged s q o m),
      )
